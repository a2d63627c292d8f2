-- ===== src/Examples/Texts.antt =====
-- Runs of the functions on texts, as Go computes them.
use margo_hello_world.Common.{[], ◌∷◌, ◌≡◌, refl, true, false}
use margo_hello_world.Common.Texts.{join, split, clean, trim_slash, has_suffix, has_prefix}

join_deployment : join ("s1/" ∷ "d1" ∷ "desiredstate.yaml" ∷ []) ≡ "s1/d1/desiredstate.yaml"
unfolding join
join_deployment = refl

split_path : split "a/b//c" ≡ "a" ∷ "b" ∷ "" ∷ "c" ∷ []
unfolding split
split_path = refl

clean_rooted : clean "/a/../../b/./c" ≡ "/b/c"
unfolding clean
clean_rooted = refl

clean_relative : clean "a/../../b" ≡ "../b"
unfolding clean
clean_relative = refl

suffix_found : has_suffix "desiredstate.yaml" "s/d/desiredstate.yaml" ≡ true
unfolding has_suffix
suffix_found = refl

prefix_missing : has_prefix "s1/" "s10/d" ≡ false
unfolding has_prefix
prefix_missing = refl

trim_once : trim_slash "a//" ≡ "a/"
unfolding trim_slash
trim_once = refl
