-- ===== src/Examples/Heartbeats.antt =====
-- The heartbeats of a node over the table of Examples/Hosting.
use margo_hello_world.Common.{
  ℕ, zero, suc, ◌-◌, String, [], ◌∷◌, none, some, words, ◌⊎◌, inr, ◌≡◌, arith,
}
use margo_hello_world.Common.Dict.{Dict, lookup}
use margo_hello_world.Ent.Mutation.{Value}
use margo_hello_world.Ent.Create.{string_value}
use margo_hello_world.Ent.Upsert.{client_hosts}
use margo_hello_world.Ent.Upsert.Sql.{uuid_value, or_value}
use margo_hello_world.Ent.Upsert.Built.{given}
use margo_hello_world.Ent.Upsert.Heartbeats.{prior, of_node, of_others, heartbeat_keeps_row}
use margo_hello_world.Health.{HealthMsg, host_row, create_edge_node}
use margo_hello_world.Examples.Hosting.{Rows, database, database-IsUpsert}

abbrev beat : HealthMsg ℕ
beat = record {
  node_id = "n1";
  site_id = "s1";
  cpu_percent = 40;
  mem_mb = 512;
  timestamp = 7;
  runtime = "docker";
  region = "";
}

abbrev decimal : ℕ → String
decimal n = elim n [ zero ↦ "0" | suc _ ↦ "60" ]

-- n1 has a hostname, and was at another site.
abbrev table : Rows
table =
    (("id", uuid_value "u0") ∷ ("host_id", string_value "n2") ∷ [])
    ∷ (("id", uuid_value "u1")
        ∷ ("host_id", string_value "n1")
        ∷ ("site_id", uuid_value "s0")
        ∷ ("hostname", string_value "edge")
        ∷ [])
    ∷ []

heartbeat_keeps_row_example :
    let H = client_hosts database (λ w. "u9") decimal (λ s. inr s) (λ x. 100 - x) in
    let result = create_edge_node H "12:00" beat table in
    ((e : String) × (result.1 ≡ some e) × (result.0 ≡ table))
    ⊎ ((site : String) × (r : Dict Value) × (◌≡◌ {A = String ⊎ String} (inr "s1") (inr site))
        × (result.1 ≡ none)
        × (of_others "n1" result.0 ≡ of_others "n1" table)
        × (of_node "n1" result.0 ≡ r ∷ [])
        × ((column : String)
            → lookup column r
              ≡ or_value
                  (lookup column (given decimal (host_row H "12:00" site beat)))
                  (lookup column (prior (of_node "n1" table) "u9"))))
unfolding lookup
heartbeat_keeps_row_example =
    heartbeat_keeps_row database (λ w. "u9") decimal (λ w. w) database-IsUpsert (λ s. inr s)
      (λ x. 100 - x) "12:00" beat table (omega arith)
