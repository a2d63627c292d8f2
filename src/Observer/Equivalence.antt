-- ===== src/Observer/Equivalence.antt =====
-- internal/gitobserver/observer.go and internal/watcher/watcher.go: the two loops over the commits
-- of a repository, under answers that tell both the same.
use margo_hello_world.Common.{
  String, List, [], ◌∷◌, Bool, true, false, Option, some, ◌==◌, words, ◌||◌, inl, inr, ◌≡◌, refl,
  eq_iff, Bool-cases, Sum-cases, map, All,
}
use margo_hello_world.Common.Texts.{has_prefix, has_suffix, trim_slash, join}
use margo_hello_world.Remote.{Pulled-cases, is_pulled}
use margo_hello_world.Watcher
use margo_hello_world.Watcher.{
  changed_files_between, changes_in, is_selected, site_prefix, extract_deployment_id, hash_of,
}
use margo_hello_world.Observer.{
  RepoWatcher, Repository, Answers, pass, passes, inspect_commit, get_changed_files, value_of,
  deployments_in, site_files, site_dir, fetch_yaml_file, pull_options,
  extract_deployment_id as observed_id,
}

-- What each loop was told in one pass.
pub record Told : Type 0 where
  pub observed : Answers
  pub watched : Watcher.Answers

-- Both were told the same: of Pull, of the head, of the files of a patch, and of their content.
pub record IsAlike (w : RepoWatcher) (t : Told) : Type 0 where
  pub path : String
  pub commit : String
  pub files : String → String → List String
  pub pulls : is_pulled (t.observed.pull (pull_options w.token)) ≡ t.watched.pulled
  pub path_known : t.watched.working_path ≡ some path
  pub head_observed : t.observed.repository.head ≡ inr commit
  pub head_watched : t.watched.head ≡ some (some commit)
  pub patch_observed :
      (old new : String)
      → t.observed.repository.patch_stats
          (value_of (t.observed.repository.commit_object old))
          (value_of (t.observed.repository.commit_object new))
        ≡ some (files old new)
  pub patch_watched : (old new : String) → t.watched.patch old new ≡ some (files old new)
  pub contents :
      (f : String)
      → t.watched.read_file (join (path ∷ f ∷ []))
        ≡ value_of (fetch_yaml_file t.observed.repository f)

empty_or_prefix : (p f : String) → (p == "" || has_prefix p f) ≡ has_prefix p f
unfolding has_prefix
empty_or_prefix p f = elim (Bool-cases (p == "")) [
  | inl e ↦ let q : p ≡ "" = (eq_iff p "").0 e in rw q refl
  | inr e ↦ rw e refl
]

same_id : (f : String) → observed_id f ≡ extract_deployment_id f
unfolding observed_id extract_deployment_id
same_id f = refl

same_dir : (site : String) → trim_slash site ≡ site → site_dir site ≡ site_prefix site
unfolding site_dir site_prefix
same_dir site h = rw h refl

-- Both loops keep the same files of a site.
same_test :
    (site f : String) (b : Bool)
    → trim_slash site ≡ site
    → has_prefix (site_prefix site) f ≡ b
    → (site_dir site == "" || has_prefix (site_dir site) f) ≡ b
same_test site f b plain e = rw (empty_or_prefix, same_dir site plain) e

module _ (r : Repository) (read_file : String → Option String) (path site : String)
    (plain : trim_slash site ≡ site)
    (contents : (f : String)
      → read_file (join (path ∷ f ∷ [])) ≡ value_of (fetch_yaml_file r f)) where
  same_changes :
      (files : List String)
      → deployments_in r (site_files (site_dir site) files) ≡ changes_in read_file path site files
  unfolding deployments_in site_files changes_in is_selected
  same_changes [] = refl
  same_changes (f ∷ files) =
      let rest = same_changes files in
      elim (Bool-cases (has_prefix (site_prefix site) f)) [
        | inr e ↦ rw (same_test site f false plain e, e) rest
        | inl e ↦ elim (Bool-cases (has_suffix "desiredstate.yaml" f)) [
          | inr n ↦ rw (same_test site f true plain e, e, n) rest
          | inl n ↦ elim (Sum-cases (fetch_yaml_file r f)) [
            | inl (x, g) ↦ rw (same_test site f true plain e, e, n, contents, g) rest
            | inr (x, g) ↦ rw (same_test site f true plain e, e, n, contents, g, same_id, rest) refl
          ]
        ]
      ]

module _ (w : RepoWatcher) (watched : w.watched ≡ true) (site : String)
    (plain : trim_slash site ≡ site) where
  same_inspect :
      (t : Told) (h : IsAlike w t) (last : String)
      → inspect_commit t.observed.repository w.watched (site_dir site) last h.commit
        ≡ some (Watcher.inspect_commit t.watched site h.path last h.commit)
  unfolding inspect_commit Watcher.inspect_commit get_changed_files changed_files_between
  same_inspect t h last =
      let changes =
        same_changes t.observed.repository t.watched.read_file h.path site plain h.contents in
      elim (Bool-cases (h.commit == last)) [
        | inl e ↦ rw e refl
        | inr e ↦ elim (Bool-cases (last == "")) [
          | inl n ↦ rw (e, n, watched, changes) refl
          | inr n ↦ rw (e, n, h.patch_observed, h.patch_watched, watched, changes) refl
        ]
      ]

  same_pass :
      (t : Told)
      → IsAlike w t
      → (last : String)
      → pass w t.observed (site_dir site) last ≡ some (Watcher.pass t.watched site last)
  unfolding pass Watcher.pass
  same_pass t h last =
      let inspected = same_inspect t h last in
      elim (Pulled-cases (t.observed.pull (pull_options w.token))) [
        | inl (e, p) ↦
            let q : t.watched.pulled ≡ false = rw (← h.pulls, p) refl in
            rw (pass, p, Watcher.pass, q) refl
        | inr (inl p) ↦
            let q : t.watched.pulled ≡ true = rw (← h.pulls, p) refl in
            rw (pass, p, Watcher.pass, q, h.head_observed, h.path_known, h.head_watched) inspected
        | inr (inr p) ↦
            let q : t.watched.pulled ≡ true = rw (← h.pulls, p) refl in
            rw (pass, p, Watcher.pass, q, h.head_observed, h.path_known, h.head_watched) inspected
      ]

  -- When an observer with a callback and a watcher of one site, whose name does not end in a
  -- slash, are told the same in each of a list of passes - how the pull ended, the commit of the
  -- head, the files between two commits, and the content of each file - then from the same commit
  -- the observer does not panic, and both end with the same commit and the same calls of their
  -- callbacks.
  pub same_passes :
      (ts : List Told)
      → All (IsAlike w) ts
      → (last : String)
      → passes w (map (λ t. t.observed) ts) (site_dir site) last
        ≡ some (Watcher.passes (map (λ t. t.watched) ts) site last)
  unfolding passes Watcher.passes
  same_passes [] hs last = refl
  same_passes (t ∷ ts) hs last =
      let rest = same_passes ts hs.1 (Watcher.pass t.watched site last).0 in
      rw (passes, same_pass t hs.0 last, rest) refl
