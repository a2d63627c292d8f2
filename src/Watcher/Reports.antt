-- ===== src/Watcher/Reports.antt =====
-- What a watcher hands over: the passes of internal/watcher/watcher.go over commits of the central
-- orchestrator.
use margo_hello_world.Common.{
  String, List, [], ◌∷◌, true, false, Option, none, some, ◌==◌, words, if◌then◌else◌, ◌≡◌, refl,
  ◌≢◌, sym, ◌∙◌, Option-cases, map, All, eq_iff, eq_refl, Bool-cases, inl, inr, ◌⊎◌,
}
use margo_hello_world.Common.Texts.{join}
use margo_hello_world.Common.Texts.Slashes.{IsElement}
use margo_hello_world.Central.{relative_path}
use margo_hello_world.Lo.Deploy.{DeploymentChange}
use margo_hello_world.Watcher.{
  Answers, changed_files_between, changes_in, hash_of, notify, inspect_commit, pass,
}
use margo_hello_world.Watcher.Selection.{selected_iff, extract-relative_path}

-- A deployment that was created: its site and its id.
abbrev pub Created : Type 0
Created = String × String

abbrev pub path_of : Created → String
path_of d = relative_path d.0 d.1

-- What a site should be told of deployments that were created.
abbrev pub told : (String → Option String) → String → String → List Created → List DeploymentChange
told read_file working_path site [] = []
told read_file working_path site (d ∷ ds) =
    let rest = told read_file working_path site ds in
    if d.0 == site
    then elim (read_file (join (working_path ∷ path_of d ∷ []))) [
      | none ↦ rest
      | some content ↦
          record { deployment_id = d.1; file_path = path_of d; content = content } ∷ rest
    ]
    else rest

abbrev pub IsCreated : Created → Type 0
IsCreated d = IsElement d.0 × IsElement d.1

changes_in-created :
    (read_file : String → Option String) (working_path site : String) (ds : List Created)
    → IsElement site
    → All IsCreated ds
    → changes_in read_file working_path site (map path_of ds) ≡ told read_file working_path site ds
unfolding changes_in
changes_in-created read_file wp site [] hs hd = refl
changes_in-created read_file wp site (d ∷ ds) hs hd =
    let mine = selected_iff d.0 d.1 site hd.0.0 hd.0.1 hs in
    let id = extract-relative_path d.0 d.1 hd.0.0 hd.0.1 in
    let rest = changes_in-created read_file wp site ds hs hd.1 in
    elim (Bool-cases (d.0 == site)) [
      | inr e ↦ rw (mine, e, rest) refl
      | inl e ↦ elim (Option-cases (read_file (join (wp ∷ path_of d ∷ [])))) [
        | inl none_read ↦ rw (mine, e, none_read, rest) refl
        | inr (_, read) ↦ rw (mine, e, read, id, rest) refl
      ]
    ]

-- The answers of a pass that gets as far as the commits.
abbrev pub Sees : Answers → String → Option String → Type 0
Sees a path ref = (a.pulled ≡ true) × (a.working_path ≡ some path) × (a.head ≡ some ref)

-- Such a pass comes down to the commits.
pass_at :
    (a : Answers) (path site last : String) (ref : Option String)
    → Sees a path ref
    → pass a site last ≡ inspect_commit a site path last (hash_of ref)
unfolding pass inspect_commit
pass_at a path site last ref sees = rw (sees.0, sees.1, sees.2) refl

is_new : (commit last : String) → commit ≢ last → commit == last ≡ false
is_new commit last n = elim (Bool-cases (commit == last)) [
  | inl e ↦ absurd (n ((eq_iff commit last).0 e))
  | inr e ↦ e
]

-- When the files that changed since the last commit are those of deployments that were created, the
-- watcher of a site hands over exactly the deployments of its site, each with its id, in order.
pub pass-created :
    (a : Answers) (path site last commit : String) (ds : List Created)
    → IsElement site
    → All IsCreated ds
    → Sees a path (some commit)
    → last ≢ ""
    → commit ≢ last
    → a.patch last commit ≡ some (map path_of ds)
    → pass a site last ≡ (commit, notify commit (told a.read_file path site ds))
unfolding inspect_commit changed_files_between
pass-created a path site last commit ds hs hd sees known new p =
    rw
      (
        pass_at a path site last (some commit) sees,
        is_new commit last new,
        is_new last "" known,
        p,
        changes_in-created a.read_file path site ds hs hd,
      )
      refl

inspected :
    (a : Answers) (site path last commit : String)
    → (inspect_commit a site path last commit).0 ≡ commit
unfolding inspect_commit
inspected a site path last commit = elim (Bool-cases (commit == last)) [
  | inl e ↦ rw e (sym ((eq_iff commit last).0 e))
  | inr e ↦ elim (Option-cases (changed_files_between a.patch last commit)) [
    | inl f ↦ rw (e, f) refl
    | inr (_, f) ↦ rw (e, f) refl
  ]
]

inspect_same :
    (a : Answers) (site path commit : String)
    → inspect_commit a site path commit commit ≡ (commit, none)
unfolding inspect_commit
inspect_same a site path commit = rw (eq_refl commit) refl

inspect_again :
    (a : Answers) (site path last commit : String)
    → inspect_commit a site path (inspect_commit a site path last commit).0 commit
      ≡ ((inspect_commit a site path last commit).0, none)
inspect_again a site path last commit =
    rw (inspected a site path last commit) (inspect_same a site path commit)

-- A pass leaves `last` as it is, or comes down to the commits.
pass_cases :
    (a : Answers) (site : String)
    → ((l : String) → pass a site l ≡ (l, none))
      ⊎ ((path : String) × ((ref : Option String) × ((l : String)
              → pass a site l ≡ inspect_commit a site path l (hash_of ref))))
unfolding pass
pass_cases a site = elim (Bool-cases a.pulled) [
  | inr e ↦ inl (λ l. rw e refl)
  | inl e ↦ elim (Option-cases a.working_path) [
    | inl f ↦ inl (λ l. rw (e, f) refl)
    | inr (path, f) ↦ elim (Option-cases a.head) [
      | inl g ↦ inl (λ l. rw (e, f, g) refl)
      | inr (ref, g) ↦ inr (path, (ref, λ l. pass_at a path site l ref (e, f, g)))
    ]
  ]
]

-- A pass that gets the same answers as the one before hands over nothing and moves no further,
-- whatever the answers.
pub pass_twice :
    (a : Answers) (site last : String)
    → pass a site (pass a site last).0 ≡ ((pass a site last).0, none)
pass_twice a site last = elim (pass_cases a site) [
  | inl h ↦ rw (h last) (h last)
  | inr (path, (ref, h)) ↦ rw (h last) (h _ ∙ inspect_again a site path last (hash_of ref))
]

-- A new commit counts as seen, and nothing of it is handed over, when no commit was known before
-- or the patch cannot be had.
pub pass_loses :
    (a : Answers) (path site last commit : String)
    → Sees a path (some commit)
    → commit ≢ last
    → (last ≡ "") ⊎ (a.patch last commit ≡ none)
    → pass a site last ≡ (commit, none)
unfolding inspect_commit changed_files_between changes_in
pass_loses a path site last commit sees new (inl e) =
    rw (pass_at a path site last (some commit) sees, is_new commit last new, e) refl
pass_loses a path site last commit sees new (inr e) =
    rw (pass_at a path site last (some commit) sees, is_new commit last new)
      (elim (Bool-cases (last == "")) [ inl f ↦ rw f refl | inr f ↦ rw (f, e) refl ])
