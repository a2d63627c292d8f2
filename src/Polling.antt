-- ===== src/Polling.antt =====
-- internal/orchestrator/poll.go, sync_engine.go and journal.go, and RegisterRequest of
-- local_orchestrator.go: the polling of a local orchestrator. The hosts, GitHub and the yaml and
-- json libraries are parameters; time.Now is the text `now`.
pub mod Settings
pub mod Modes
pub mod Refused
pub mod Posted
use margo_hello_world.Common.{
  ℕ, String, List, [], ◌∷◌, ◌++◌, Bool, true, false, Option, none, some, ◌==◌, numbers, words,
  is_empty, if◌then◌else◌, ◌⊎◌, inl, inr,
}
use margo_hello_world.Common.Texts.{concat}
use margo_hello_world.Fsm.{Engine}
use margo_hello_world.Model.{ApplicationDeployment, Component, DeployRequest}

pub record Journal : Type 0 where
  pub etag : String
  pub last_success : String
  pub last_commit_id : String

pub record LoConfig : Type 0 where
  pub owner : String
  pub repo : String
  pub token : String
  pub path : String
  pub nats_url : String
  pub site : String

-- http.Post of a request to a url: an error, or the status of the response.
pub record Hosts (W : Type 0) : Type 0 where
  pub post : String → DeployRequest → W → W × (String ⊎ ℕ)

-- What PostDeployment did: the urls that it posted to, and its error.
pub record Posting (W : Type 0) : Type 0 where
  pub world : W
  pub urls : List String
  pub error : Option String

-- fmt.Sprintf("%s/deploy", hostid)
unfoldable pub deploy_url : String → String
deploy_url host = concat (host ∷ "/deploy" ∷ [])

module _ {W : Type 0} (H : Hosts W) where
  -- One url in front of what comes after it.
  abbrev pub posted_before : String → Posting W → Posting W
  posted_before url p = record p { urls = url ∷ p.urls }

  -- After the answer of one host: `rest` is the loop from the next one. A status other than 200
  -- returns err, which is nil there.
  unfoldable pub after_post : String → W → String ⊎ ℕ → Posting W → Posting W
  after_post url w (inl e) rest = record { world = w; urls = url ∷ []; error = some e }
  after_post url w (inr code) rest =
      if code == 200
      then posted_before url rest
      else record { world = w; urls = url ∷ []; error = none }

  -- PostDeployment
  unfoldable pub post_deployment : DeployRequest → List String → W → Posting W
  unfolding after_post
  post_deployment req [] w = record { world = w; urls = []; error = none }
  post_deployment req (host ∷ hosts) w =
      let (w', answer) = H.post (deploy_url host) req w in
      let rest = post_deployment req hosts w' in after_post (deploy_url host) w' answer rest

-- The request of applyDeployment for a component.
unfoldable pub request_for : LoConfig → String → Component → DeployRequest
request_for cfg name c = record {
  app_name = name;
  image = c.properties.repository;
  token = cfg.token;
  deployment_id = "";
  git_repo_url = "";
  wasm_images = [];
  container_images = [];
  revision = c.properties.revision;
}

-- GetContents, and GetContent of the file: an error, or the text; `none` for a path without a file.
pub record Github : Type 0 where
  pub get_contents : LoConfig → String ⊎ Option (String ⊎ String)

-- fetchYAMLFromGitHub
unfoldable pub fetch_yaml_from_github : Github → LoConfig → String ⊎ String
fetch_yaml_from_github g cfg = elim (g.get_contents cfg) [
  | inl e ↦ inl e
  | inr none ↦ inl (concat ("no file found at path " ∷ cfg.path ∷ " (is it a directory?)" ∷ []))
  | inr (some content) ↦ content
]

module _ (E : Engine) {W : Type 0} (H : Hosts W) (G : Github)
    (unmarshal : String → Option ApplicationDeployment) where
  open E use {Machine, current, fire}

  pub record Poller : Type 0 where
    pub config : LoConfig
    pub journal : Journal
    pub hosts : List String
    pub machine : Machine
    pub world : W

  -- The loop of applyDeployment over the components; `next` is the loop from the next one.
  unfoldable pub after_component : Posting W → Poller → (Poller → Poller) → Poller
  after_component r p next = elim r.error [
    | some e ↦ record p { world = r.world; machine = (fire "edge_rejected" p.machine).0 }
    | none ↦
        let (m, refused) = fire "start_deployment" p.machine in
        let q = record p { world = r.world; machine = m } in
        elim refused [ some e ↦ q | none ↦ next q ]
  ]

  unfoldable pub apply_components : String → List Component → Poller → Poller
  unfolding after_component
  apply_components name [] p = p
  apply_components name (c ∷ cs) p =
      after_component (post_deployment H (request_for p.config name c) p.hosts p.world) p
        (apply_components name cs)

  -- applyDeployment
  unfoldable pub apply_deployment : String → Poller → Poller
  apply_deployment yaml p = elim (unmarshal yaml) [
    | none ↦ p
    | some dep ↦ apply_components dep.metadata.name dep.spec.deployment_profile.components p
  ]

  -- Poll, once the machine has taken "receive_request". The journal is not told how it went.
  unfoldable pub poll_hosts : String → Poller → Poller
  unfolding apply_deployment
  poll_hosts now p =
      if is_empty p.hosts
      then record p { machine = (fire "no_nodes_available" p.machine).0 }
      else elim (fetch_yaml_from_github G p.config) [
        | inl e ↦ p
        | inr yaml ↦
            let q = apply_deployment yaml p in
            record q { journal = record (q.journal) { last_success = now } }
      ]

  -- Poll
  unfoldable pub poll : String → Poller → Poller
  unfolding poll_hosts
  poll now p =
      let (m, refused) = fire "receive_request" p.machine in
      let q = record p { machine = m } in elim refused [ some e ↦ q | none ↦ poll_hosts now q ]

  -- RegisterRequest: the url of the body, or the error of binding it; then the status.
  unfoldable pub register_request : String ⊎ String → Poller → Poller × ℕ
  register_request (inl e) p = (p, 400)
  register_request (inr url) p =
      let q = record p { hosts = p.hosts ++ url ∷ [] } in
      if current p.machine == "waiting_for_nodes"
      then (record q { machine = (fire "node_registered" p.machine).0 }, 200)
      else (q, 200)

-- The request of PollWithETag.
pub record EtagRequest : Type 0 where
  pub url : String
  pub if_none_match : Option String
  pub authorization : Option String

unfoldable pub etag_request : LoConfig → Journal → EtagRequest
etag_request cfg j = record {
  url = concat (
      "https://raw.githubusercontent.com/" ∷ cfg.owner ∷ "/" ∷ cfg.repo ∷ "/main/desiredstate.yaml"
      ∷ []);
  if_none_match = if j.etag == "" then none else some j.etag;
  authorization = if cfg.token == "" then none else some (concat ("Bearer " ∷ cfg.token ∷ []));
}

-- The switch of PollWithETag on the response: its status and its ETag, or the error of Do.
unfoldable pub poll_with_etag : String → String ⊎ (ℕ × String) → Journal → Journal
poll_with_etag now (inl e) j = j
poll_with_etag now (inr (status, etag)) j =
    if status == 200 then record j { etag = etag; last_success = now } else j

-- ScanLocalInbox: the files that it could read, which it only logs.
unfoldable pub readable : (String → Option String) → List String → List (String × String)
readable read_file [] = []
readable read_file (name ∷ names) =
    let path = concat ("/opt/lo/inbox/" ∷ name ∷ []) in
    let rest = readable read_file names in
    elim (read_file path) [ none ↦ rest | some text ↦ (path, text) ∷ rest ]

unfoldable pub scan_local_inbox :
    Option (List String) → (String → Option String) → List (String × String)
scan_local_inbox none read_file = []
scan_local_inbox (some names) read_file = readable read_file names

-- PersistJournal and LoadJournal, whose errors are ignored; `decode` starts from the old journal.
unfoldable pub persist_journal :
    {W : Type 0} → (Journal → String) → (String → String → W → W) → Journal → W → W
persist_journal encode write_file j w = write_file "journal.json" (encode j) w

unfoldable pub load_journal :
    {W : Type 0}
    → (String → W → Option String)
    → (String → Journal → Journal)
    → W
    → Journal
    → Journal
load_journal read_file decode w j = elim (read_file "journal.json" w) [
  | none ↦ j
  | some text ↦ decode text j
]
