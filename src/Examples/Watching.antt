-- ===== src/Examples/Watching.antt =====
-- A watcher of site s1 over two deployments that the central orchestrator created.
use margo_hello_world.Common.{
  String, List, [], ◌∷◌, true, false, none, some, ◌==◌, words, if◌then◌else◌, ◌≡◌, refl, ◌≢◌, arith,
  map, All, eq_iff, inr, ◌&&◌,
}
use margo_hello_world.Common.Texts.{join, concat, has_prefix, has_suffix, trim_slash}
use margo_hello_world.Common.Texts.Slashes.{IsElement, no_slash}
use margo_hello_world.Central.{relative_path}
use margo_hello_world.Watcher.{Answers, passes, start, site_prefix, is_selected}
use margo_hello_world.Watcher.History.{Seen, final, handed_over, start-history, lost_for_good}
use margo_hello_world.Watcher.Reports.{Created, path_of, told, IsCreated}

abbrev created : List Created
created = ("s1", "d1") ∷ ("s2", "d2") ∷ []

abbrev answers : Answers
answers = record {
  pulled = true;
  working_path = some "./repo/";
  head = some (some "c2");
  patch = λ old new. if old == "c1" && new == "c2" then some (map path_of created) else none;
  read_file = λ path. some (concat ("content of " ∷ path ∷ []));
}

selected_test : is_selected "s1/" "s1/d1/desiredstate.yaml" ≡ true
unfolding is_selected has_prefix site_prefix concat trim_slash has_suffix
selected_test = refl

not_selected_test : is_selected "s1" "s11/d1/desiredstate.yaml" ≡ false
unfolding is_selected has_prefix site_prefix concat trim_slash has_suffix
not_selected_test = refl

path_test : relative_path "s1" "d1" ≡ "s1/d1/desiredstate.yaml"
unfolding relative_path join
path_test = refl

s1-IsElement : IsElement "s1"
unfolding no_slash
s1-IsElement = (refl, refl, refl, refl)

created_elements : All IsCreated created
unfolding no_slash
created_elements = (
  ((refl, refl, refl, refl), (refl, refl, refl, refl)),
  (((refl, refl, refl, refl), (refl, refl, refl, refl)), tt),
)

known : ◌≢◌ {A = String} "c1" ""
known e = ground (arith, eq_iff "c1" "")

new : ◌≢◌ {A = String} "c2" "c1"
new e = ground (arith, eq_iff "c2" "c1")

abbrev seen : List Seen
seen = record { answers = answers; path = "./repo/"; commit = "c2"; created = created } ∷ []

start-history_example :
    start none (some "c1") (map (λ h. h.answers) seen) "s1"
    ≡ inr (final "c1" seen, handed_over "s1" seen)
start-history_example =
    start-history "s1" "c1" seen s1-IsElement
      ((refl, refl, refl), known, new, refl, created_elements, tt)

handed_over_test :
    map (λ d. d.deployment_id) (told answers.read_file "./repo/" "s1" created) ≡ "d1" ∷ []
handed_over_test = refl

-- A patch that cannot be had, from c1 to c2, and then a commit c3.
abbrev without_patch : Answers
without_patch = record answers { patch = λ old new. none }

abbrev next_created : List Created
next_created = ("s1", "d3") ∷ []

abbrev later : List Seen
later =
    record {
      answers = record answers {
        head = some (some "c3");
        patch = λ old new. some (map path_of next_created);
      };
      path = "./repo/";
      commit = "c3";
      created = next_created;
    }
    ∷ []

next_elements : All IsCreated next_created
unfolding no_slash
next_elements = (((refl, refl, refl, refl), (refl, refl, refl, refl)), tt)

c2_known : ◌≢◌ {A = String} "c2" ""
c2_known e = ground (arith, eq_iff "c2" "")

c3_new : ◌≢◌ {A = String} "c3" "c2"
c3_new e = ground (arith, eq_iff "c3" "c2")

lost_for_good_example :
    passes (without_patch ∷ map (λ h. h.answers) later) "s1" "c1"
    ≡ (final "c2" later, handed_over "s1" later)
lost_for_good_example =
    lost_for_good without_patch "./repo/" "s1" "c1" "c2" later s1-IsElement (refl, refl, refl) new
      (inr refl) ((refl, refl, refl), c2_known, c3_new, refl, next_elements, tt)
