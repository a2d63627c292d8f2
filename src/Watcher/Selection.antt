-- ===== src/Watcher/Selection.antt =====
-- internal/watcher/watcher.go and internal/co/co.go together: the file that the central orchestrator
-- writes is the one that the watcher of the site reads.
use Prim.Native.String.{◌++◌}
use text.Mathlib.TextLemmas.{append_assoc}
use margo_hello_world.Common.{
  String, true, false, ◌==◌, words, ◌≡◌, refl, sym, arith, eq_iff, eq_refl, Bool-cases, inl, inr,
}
use margo_hello_world.Common.Texts.{has_prefix, has_suffix, concat}
use margo_hello_world.Common.Texts.Slashes.{
  IsElement, slashed, has_prefix-append, has_suffix-append, trim_slash-no_slash, join_elements,
  no_slash, first_of_prefix, split_elements,
}
use margo_hello_world.Central.{relative_path, desired_state}
use margo_hello_world.Watcher.{is_selected, extract_deployment_id, site_prefix, last_but_one}

pub desired_state-IsElement : IsElement desired_state
unfolding no_slash
desired_state-IsElement = (refl, refl, refl, refl)

pub relative_path-slashed :
    (site id : String)
    → IsElement site
    → IsElement id
    → relative_path site id ≡ slashed site id desired_state
unfolding relative_path
relative_path-slashed site id hs hi =
    join_elements site id desired_state hs hi desired_state-IsElement

pub extract-relative_path :
    (site id : String)
    → IsElement site
    → IsElement id
    → extract_deployment_id (relative_path site id) ≡ id
unfolding extract_deployment_id last_but_one
extract-relative_path site id hs hi =
    rw
      (
        relative_path-slashed site id hs hi,
        split_elements site id desired_state hs hi desired_state-IsElement,
      )
      refl

pub selected_own :
    (site id : String)
    → IsElement site
    → IsElement id
    → is_selected site (relative_path site id) ≡ true
unfolding is_selected site_prefix concat has_suffix
selected_own site id hs hi =
    let rest = id ++ ("/" ++ desired_state) in
    let begins : has_prefix (site ++ "/") (slashed site id desired_state) ≡ true =
      rw (← append_assoc site "/" rest) (has_prefix-append (site ++ "/") rest) in
    let ends : has_suffix desired_state (slashed site id desired_state) ≡ true =
      has_suffix-append site desired_state ("/" ++ rest) (
        has_suffix-append "/" desired_state rest
          (has_suffix-append id desired_state ("/" ++ desired_state) refl)) in
    rw (relative_path-slashed site id hs hi, trim_slash-no_slash site hs.0, begins, ends) refl

selected_by_site :
    (site id other : String)
    → IsElement site
    → IsElement id
    → IsElement other
    → is_selected other (relative_path site id) ≡ true
    → other ≡ site
unfolding is_selected site_prefix concat
selected_by_site site id other hs hi ho h =
    let e = rw (relative_path-slashed site id hs hi, trim_slash-no_slash other ho.0) at h in
    first_of_prefix other site (id ++ ("/" ++ desired_state)) "" ho.0 hs.0 (ground (arith, e))

not_selected :
    (site id other : String)
    → IsElement site
    → IsElement id
    → site ≡ other
    → is_selected other (relative_path site id) ≡ false
    → ⊥
not_selected site id other hs hi p e =
    let own : is_selected site (relative_path site id) ≡ false = rw (← p) at e in
    ground (arith, own, selected_own site id hs hi)

pub selected_iff :
    (site id other : String)
    → IsElement site
    → IsElement id
    → IsElement other
    → is_selected other (relative_path site id) ≡ (site == other)
selected_iff site id other hs hi ho =
    elim (Bool-cases (is_selected other (relative_path site id))) [
      | inl e ↦ let p = selected_by_site site id other hs hi ho e in rw (e, p) (sym (eq_refl site))
      | inr e ↦ elim (Bool-cases (site == other)) [
        | inl f ↦
            let p : site ≡ other = (eq_iff site other).0 f in
            absurd (not_selected site id other hs hi p e)
        | inr f ↦ rw (e, f) refl
      ]
    ]
