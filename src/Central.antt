-- ===== src/Central.antt =====
-- internal/co/co.go: the central orchestrator writes desired states into the deployments repository.
-- The file system and the git manager are parameters: each call maps a state of the world to the
-- next one and an error, where the code has one. `none` around the result is a panic.
use margo_hello_world.Common.{String, [], ◌∷◌, Option, none, some}
use margo_hello_world.Common.Texts.{concat, join}

abbrev pub desired_state : String
desired_state = "desiredstate.yaml"

-- filepath.Join(siteID, deploymentID, "desiredstate.yaml")
unfoldable pub relative_path : String → String → String
relative_path site id = join (site ∷ id ∷ desired_state ∷ [])

unfoldable pub commit_message : String → String → String
commit_message site id = concat ("CO: create deployment " ∷ id ∷ " for site " ∷ site ∷ [])

-- What CreateDeployment calls: os.MkdirAll with filepath.Dir of the path, os.WriteFile, CommitAndPush.
pub record Calls (W : Type 0) : Type 0 where
  pub make_dir_of : String → W → W × Option String
  pub write_file : String → String → W → W × Option String
  pub commit_and_push : String → String → W → W × Option String

-- if err != nil { return err }
unfoldable pub and_then :
    {W : Type 0} → W × Option String → (W → W × Option String) → W × Option String
and_then (w, none) f = f w
and_then (w, some e) f = (w, some e)

-- CreateDeployment. The error of GetConfig is ignored, so that a repository that is not registered,
-- whose working path is `none` here, panics.
unfoldable pub create_deployment :
    {W : Type 0}
    → Calls W
    → Option String
    → String
    → String
    → String
    → W
    → Option (W × Option String)
create_deployment calls none site id yaml w = none
create_deployment calls (some working_path) site id yaml w =
    let rel = relative_path site id in
    let full = join (working_path ∷ rel ∷ []) in
    some (
      and_then (calls.make_dir_of full w) λ w.
        and_then (calls.write_file full yaml w)
          λ w. calls.commit_and_push rel (commit_message site id) w)
