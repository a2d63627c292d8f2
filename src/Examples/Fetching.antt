-- ===== src/Examples/Fetching.antt =====
-- A fetcher of applications over a disk with one directory.
use margo_hello_world.Common.{String, Bool, true, false, none, ◌≡◌, refl, inr}
use margo_hello_world.Remote.{up_to_date}
use margo_hello_world.Fetcher.{
  GitFetcher, Client, Opened, opened, not_exist, open_failed, returned, round, clone_or_pull,
}
use margo_hello_world.Fetcher.Termination.{IsEnded, clone_or_pull-IsEnded}

-- The directory: absent, a copy of the repository at an address, or one that does not open.
data Disk : Type 0 where
  absent : Disk
  copy_of : String → Disk
  damaged : Disk

abbrev is_absent : Disk → Bool
is_absent absent = true
is_absent (copy_of url) = false
is_absent damaged = false

abbrev opens : Disk → Opened
opens absent = not_exist
opens (copy_of url) = opened
opens damaged = open_failed "repository does not exist"

abbrev content : Disk → String
content (copy_of url) = url
content absent = ""
content damaged = ""

abbrev client : Client Disk
client = record {
  is_missing = λ path d. is_absent d;
  remove_all = λ path d. absent;
  plain_clone = λ path o d. (copy_of o.url, none);
  plain_open = λ path d. opens d;
  worktree_error = λ path d. none;
  pull = λ path o d. (d, up_to_date);
  read_file = λ path d. inr (content d);
}

-- A disk that cannot be changed.
abbrev read_only : Client Disk
read_only = record client { remove_all = λ path d. d }

abbrev fetcher : GitFetcher
fetcher = record {
  repo_url = "https://example.org/first";
  branch = "main";
  local_dir = "./cache/app-registry";
  token = "t";
}

damaged_test :
    clone_or_pull client 2 fetcher "t" damaged ≡ returned (copy_of "https://example.org/first") none
unfolding clone_or_pull round
damaged_test = refl

clone_or_pull-IsEnded_example :
    IsEnded (clone_or_pull client 7 fetcher "t" damaged)
    × (clone_or_pull client 7 fetcher "t" damaged ≡ clone_or_pull client 2 fetcher "t" damaged)
clone_or_pull-IsEnded_example = clone_or_pull-IsEnded client fetcher "t" (λ d. refl) 5 damaged
