-- ===== src/Examples/Delivering.antt =====
-- Two deployments that the central orchestrator created, as the local orchestrator of s1 sees them.
use mathlib.Core.List.{Perm}
use margo_hello_world.Common.{
  map, arith, eq_iff, String, List, [], ◌∷◌, true, Option, some, ◌≡◌, refl, ◌==◌, words,
  if◌then◌else◌, All,
}
use margo_hello_world.Common.Texts.{join}
use margo_hello_world.Common.Texts.Slashes.{no_slash}
use margo_hello_world.Central.{relative_path}
use margo_hello_world.Model.{ApplicationDeployment}
use margo_hello_world.Lo.Deploy.{Host, Deploying, handle_git_polled, run_calls}
use margo_hello_world.Lo.Deploy.Messages.{messages}
use margo_hello_world.Requests.{AppDesc, Profile, ComponentRow, build_application_deployment}
use margo_hello_world.Requests.Delivered.{node_messages, IsWritten, handed, delivered}
use margo_hello_world.Watcher.Reports.{Created, IsCreated, path_of}
use margo_hello_world.Watcher.{Answers, pass}

abbrev desc : AppDesc
desc = record { id = "a1"; name = "shop" }

abbrev profile : Profile
profile = record { id = "p1"; profile_type = "compose" }

abbrev row : ComponentRow
row = record {
  name = "web";
  properties = record {
    repository = "oci://shop/web";
    revision = "1.0";
    wait = true;
    timeout = "5m";
    package_location = "";
    key_location = "";
  };
}

abbrev created : List Created
created = ("s1", "d1") ∷ ("s2", "d2") ∷ []

abbrev hosts : List Host
hosts = record { host_id = "n1"; site_id = "s1" } ∷ record { host_id = "n2"; site_id = "s1" } ∷ []

abbrev read_file : String → Option String
read_file path = some (if path == "repo/s1/d1/desiredstate.yaml" then "first" else "second")

abbrev parse : String → Option ApplicationDeployment
parse content =
    if content == "first"
    then some (build_application_deployment desc profile (row ∷ []) "s1" "d1")
    else some (build_application_deployment desc profile (row ∷ []) "s2" "d2")

on_disk : All (IsWritten desc profile row [] parse read_file "repo" hosts) created
unfolding join relative_path
on_disk = (("first", refl, refl), (("second", refl, refl), tt))

-- The commit adds the desired states of both sites.
abbrev answers : Answers
answers = record {
  pulled = true;
  working_path = some "repo";
  head = some (some "c2");
  patch = λ old new. some (map path_of created);
  read_file = read_file;
}

elements : All IsCreated created
unfolding no_slash
elements = (
  ((refl, refl, refl, refl), (refl, refl, refl, refl)),
  (((refl, refl, refl, refl), (refl, refl, refl, refl)), tt),
)

delivered_example :
    (calls : List Deploying) × (handle_git_polled parse hosts (handed (pass answers "s1" "c1"))
      ≡ some calls)
    × Perm
        (messages (run_calls ((1 ∷ []) ∷ []) (0 ∷ []) calls))
        (node_messages row hosts "s1" created)
unfolding no_slash
delivered_example =
    delivered desc profile row [] parse hosts answers "repo" "s1" "c1" "c2" created ((1 ∷ []) ∷ [])
      (0 ∷ []) (refl, refl, refl, refl) elements (refl, refl, refl)
      (λ e. ground (arith, eq_iff "c1" "")) (λ e. ground (arith, eq_iff "c2" "c1")) refl on_disk
