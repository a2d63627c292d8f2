-- ===== src/Ent/Upsert/Built.antt =====
-- The statement that CreateEdgeNode makes with ent/host_create.go, and what follows it.
use margo_hello_world.Common.{String, [], ◌∷◌, Option, none, some, words, map, ◌≡◌, refl, ◌∙◌}
use margo_hello_world.Common.Dict.{Dict, lookup, insert}
use margo_hello_world.Ent.Tables.{host_schema}
use margo_hello_world.Ent.Mutation.{Value}
use margo_hello_world.Ent.Create.{SqlError, string_value}
use margo_hello_world.Ent.Upsert.{
  HostCreate, set_ignore, CreateNode, ignore_id, host_spec, host_columns, host_defaults, host_check,
  host_created, host_save, exec, host_create, float_value, time_value, set_host_value, set_site_id,
  site_ids, on_conflict, update_new_values, add_option,
}
use margo_hello_world.Ent.Upsert.Sql.{uuid_value, proposed, overwriting}
use margo_hello_world.Health.{HostRow}

-- What a heartbeat says of its node.
abbrev pub given : {Number : Type 0} → (Number → String) → HostRow Number → Dict Value
given float h =
    ("site_id", uuid_value h.site_id)
    ∷ ("host_id", string_value h.host_id)
    ∷ ("runtime", string_value h.runtime)
    ∷ ("last_heartbeat", time_value h.last_heartbeat)
    ∷ ("cpu_free", float_value (float h.cpu_free))
    ∷ ("status", string_value h.status)
    ∷ []

module _ {Number W : Type 0} (D : CreateNode W) (new_id : W → String)
    (float : Number → String) where
  -- The builder when its statement is made.
  abbrev pub ready : HostRow Number → String → HostCreate
  ready h id =
      let c = host_create D new_id float h in record c { mutation = host_defaults id c.mutation }

  pub ready-proposed :
      (h : HostRow Number) (id : String)
      → (proposed (host_spec (ready h id)) ≡ ("id", uuid_value id) ∷ given float h)
        × ((host_spec (ready h id)).conflict ≡ overwriting "host_id" ignore_id)
        × (ignore_id (host_spec (ready h id)).builder ≡ map set_ignore ("id" ∷ []))
        × (host_check (ready h id).mutation ≡ none)
  unfolding host_create host_spec host_columns host_defaults host_check ignore_id set_host_value
      set_site_id site_ids on_conflict update_new_values add_option insert lookup host_schema
  ready-proposed h id = (refl, refl, refl, refl)

  created_none : (p : W × Option SqlError) → p.1 ≡ none → host_created D new_id p ≡ (p.0, none)
  unfolding host_created
  created_none (w, none) h = refl
  created_none (w, some e) h = cc

  created_some :
      (p : W × Option SqlError) (e : SqlError)
      → p.1 ≡ some e
      → (message : String) × (host_created D new_id p ≡ (p.0, some message))
  unfolding host_created
  created_some (w, none) e h = cc
  created_some (w, some e') e h = (_, refl)

  exec-host_create :
      (h : HostRow Number) (w : W)
      → exec D new_id (host_create D new_id float h) w
        ≡ host_created D new_id (D (host_spec (ready h (new_id w))) w)
  unfolding exec host_save host_create host_spec host_columns host_defaults host_check
      set_host_value set_site_id site_ids on_conflict update_new_values add_option insert lookup
      host_schema
  exec-host_create h w = refl

  pub exec-none :
      (h : HostRow Number) (w : W)
      → (D (host_spec (ready h (new_id w))) w).1 ≡ none
      → exec D new_id (host_create D new_id float h) w
        ≡ ((D (host_spec (ready h (new_id w))) w).0, none)
  unfolding host_created
  exec-none h w accepted =
      exec-host_create h w ∙ created_none (D (host_spec (ready h (new_id w))) w) accepted

  pub exec-some :
      (h : HostRow Number) (w : W) (e : SqlError)
      → (D (host_spec (ready h (new_id w))) w).1 ≡ some e
      → (message : String) × (exec D new_id (host_create D new_id float h) w
          ≡ ((D (host_spec (ready h (new_id w))) w).0, some message))
  exec-some h w e failed =
      let (message, same) = created_some (D (host_spec (ready h (new_id w))) w) e failed in
      (message, exec-host_create h w ∙ same)
