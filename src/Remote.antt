-- ===== src/Remote.antt =====
-- The options with which internal/gitobserver/observer.go and internal/gitfetcher/fetcher.go call
-- the git library, and what its Pull answers.
use margo_hello_world.Common.{String, Bool, true, false, Option, ◌≡◌, refl, ◌⊎◌, inl, inr}

-- http.BasicAuth
pub record BasicAuth : Type 0 where
  pub username : String
  pub password : String

-- git.CloneOptions; the reference name is the one that NewBranchReferenceName makes of `branch`.
pub record CloneOptions : Type 0 where
  pub url : String
  pub branch : String
  pub single_branch : Bool
  pub depth_one : Bool
  pub auth : Option BasicAuth

-- git.PullOptions
pub record PullOptions : Type 0 where
  pub remote_name : String
  pub force : Bool
  pub auth : Option BasicAuth

-- The error of Pull: none, NoErrAlreadyUpToDate, or another one.
pub data Pulled : Type 0 where
  updated : Pulled
  up_to_date : Pulled
  pull_failed : String → Pulled

-- Pull without an error other than NoErrAlreadyUpToDate
abbrev pub is_pulled : Pulled → Bool
is_pulled (pull_failed e) = false
is_pulled updated = true
is_pulled up_to_date = true

-- How Pull ended.
pub Pulled-cases :
    (p : Pulled) → ((e : String) × (p ≡ pull_failed e)) ⊎ ((p ≡ updated) ⊎ (p ≡ up_to_date))
Pulled-cases (pull_failed e) = inl (e, refl)
Pulled-cases updated = inr (inl refl)
Pulled-cases up_to_date = inr (inr refl)
