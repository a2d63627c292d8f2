-- ===== src/Examples/Observing.antt =====
-- An observer and a watcher of site s1, told the same of one new commit.
use margo_hello_world.Common.{
  String, List, [], ◌∷◌, true, false, Option, none, some, ◌==◌, words, if◌then◌else◌, ◌≡◌, refl,
  map, All, inl, inr, ◌&&◌,
}
use margo_hello_world.Common.Texts.{trim_slash}
use margo_hello_world.Remote.{updated}
use margo_hello_world.Watcher
use margo_hello_world.Observer.{RepoWatcher, Repository, site_dir, passes, fetch_yaml_file}
use margo_hello_world.Observer.Equivalence.{Told, IsAlike, same_passes}
use margo_hello_world.Observer.Opening.{
  Opened, start, stopped, panicked, plain_clone, plain_open, remove_all, clone_options, repo_cache,
  prepared, open_or_clone, fresh_clone, watch,
}

abbrev watcher : RepoWatcher
watcher = record {
  repo_url = "https://example.org/deployments";
  branch = "main";
  watched = true;
  token = "t";
  local_path = repo_cache;
}

abbrev changed : String → String → List String
changed old new =
    if old == "c1" && new == "c2"
    then "s1/d1/desiredstate.yaml" ∷ "s2/d2/desiredstate.yaml" ∷ []
    else []

abbrev stats : Option String → Option String → Option (List String)
stats (some old) (some new) = some (changed old new)
stats (some old) none = none
stats none new = none

abbrev repository : Repository
repository = record {
  head = inr "c2";
  commit_object = λ h. inr h;
  commit_tree = λ h. inr "t";
  find_entry = λ t path. inr path;
  blob_object = λ h. inr h;
  reader = λ h. inr h;
  copy = λ h. inr "content";
  patch_stats = stats;
}

abbrev told : List Told
told =
    record {
      observed = record { pull = λ o. updated; repository = repository };
      watched = record {
        pulled = true;
        working_path = some "./repo/";
        head = some (some "c2");
        patch = λ old new. some (changed old new);
        read_file = λ path. some "content";
      };
    }
    ∷ []

told-IsAlike : All (IsAlike watcher) told
unfolding fetch_yaml_file
told-IsAlike = (
  record {
    path = "./repo/";
    commit = "c2";
    files = changed;
    pulls = refl;
    path_known = refl;
    head_observed = refl;
    head_watched = refl;
    patch_observed = λ old new. refl;
    patch_watched = λ old new. refl;
    contents = λ f. refl;
  },
  tt,
)

plain : trim_slash "s1" ≡ "s1"
unfolding trim_slash
plain = refl

same_passes_example :
    passes watcher (map (λ t. t.observed) told) (site_dir "s1") "c1"
    ≡ some (Watcher.passes (map (λ t. t.watched) told) "s1" "c1")
same_passes_example = same_passes watcher refl "s1" plain told told-IsAlike "c1"

-- A copy that does not open is cloned again.
abbrev broken : Opened
broken = record {
  git_missing = false;
  open_error = some "repository does not exist";
  clone_error = λ o. none;
  worktree_error = none;
  head = inr "c1";
}

abbrev ready : RepoWatcher
ready = record watcher { token = "env" }

start_test : start "env" (record watcher { token = ""; local_path = "" }) broken [] "s1" ≡ (
  plain_open repo_cache ∷ remove_all repo_cache ∷ plain_clone repo_cache (clone_options ready) ∷ [],
  stopped "c1" [],
)
unfolding start open_or_clone prepared fresh_clone watch passes
start_test = refl

-- A repository without a commit has no head, which is not an error of Start.
empty_test :
    (start "" watcher
      (record broken { open_error = none; head = inl "reference not found" })
      []
      "s1").1
    ≡ panicked
unfolding start open_or_clone watch
empty_test = refl
