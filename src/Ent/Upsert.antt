-- ===== src/Ent/Upsert.antt =====
-- ent/host_create.go and the HostMutation of ent/mutation.go: the insertion of a host that replaces
-- the row on a conflict, as CreateEdgeNode of internal/orchestrator/db.go calls it. The library that
-- runs the statement is a parameter.
pub mod Sql
pub mod Built
pub mod Heartbeats
pub mod Table
pub mod Reached
use margo_hello_world.Common.{
  String, List, [], ◌∷◌, ◌++◌, Option, none, some, ◌==◌, words, if◌then◌else◌, ◌⊎◌, is_empty, map,
  Bool, false,
}
use margo_hello_world.Common.Texts.{concat}
use margo_hello_world.Common.Dict.{Dict, lookup, insert}
use margo_hello_world.Ent.{Field}
use margo_hello_world.Ent.Tables.{host_schema}
use margo_hello_world.Ent.Mutation.{Value, is_some}
use margo_hello_world.Ent.Create.{SqlError, string_value}
use margo_hello_world.Health.{HostRow, Hosts}

-- HostMutation of an insertion, which adds nothing and clears nothing; the id of the site is kept
-- apart, as the edge "site".
pub record HostMutation : Type 0 where
  pub id : Option String
  pub values : Dict Value
  pub site : Option String
  pub done : Bool

abbrev pub new_host : HostMutation
new_host = record { id = none; values = []; site = none; done = false }

-- SetHostID, SetRuntime, SetStatus and so on
unfoldable pub set_host_value : String → Value → HostMutation → HostMutation
set_host_value column v m = record m { values = insert column v m.values }

unfoldable pub set_site_id : String → HostMutation → HostMutation
set_site_id id m = record m { site = some id }

unfoldable pub site_ids : HostMutation → List String
site_ids m = elim m.site [ none ↦ [] | some id ↦ id ∷ [] ]

-- A call of sql.UpdateSet.
pub data SetCall : Type 0 where
  set_to : String → Value → SetCall
  set_excluded : String → SetCall
  set_null : String → SetCall
  add_to : String → Value → SetCall
  set_ignore : String → SetCall

-- sql.ConflictOption. The function of resolve_with runs when the statement is built, on what the
-- builder holds then.
pub data ConflictOption : Type 0 where
  conflict_columns : List String → ConflictOption
  resolve_with_new_values : ConflictOption
  resolve_with_ignore : ConflictOption
  do_nothing : ConflictOption
  resolve_with : (HostMutation → List SetCall) → ConflictOption

-- HostCreate, which HostUpsertOne holds.
pub record HostCreate : Type 0 where
  pub mutation : HostMutation
  pub conflict : List ConflictOption

-- OnConflict
unfoldable pub on_conflict : List ConflictOption → HostCreate → HostCreate
on_conflict opts c = record c { conflict = opts }

-- The methods of HostUpsert, by the column.
pub data UpsertCall : Type 0 where
  sets : String → Value → UpsertCall
  updates : String → UpsertCall
  clears : String → UpsertCall
  adds : String → Value → UpsertCall

unfoldable pub upsert_call : UpsertCall → SetCall
upsert_call (sets column v) = set_to column v
upsert_call (updates column) = set_excluded column
upsert_call (clears column) = set_null column
upsert_call (adds column v) = add_to column v

unfoldable pub add_option : ConflictOption → HostCreate → HostCreate
add_option opt c = record c { conflict = c.conflict ++ opt ∷ [] }

-- Update, with the calls that the given function makes; Ignore and DoNothing
unfoldable pub update_with : List UpsertCall → HostCreate → HostCreate
unfolding add_option upsert_call
update_with calls c = add_option (resolve_with (λ m. map upsert_call calls)) c

-- SetHostID, UpdateHostID, ClearSiteID and so on of HostUpsertOne
unfoldable pub upsert_one_call : UpsertCall → HostCreate → HostCreate
unfolding update_with
upsert_one_call call c = update_with (call ∷ []) c

unfoldable pub ignore : HostCreate → HostCreate
unfolding add_option
ignore c = add_option resolve_with_ignore c

unfoldable pub do_nothing_on_conflict : HostCreate → HostCreate
unfolding add_option
do_nothing_on_conflict c = add_option do_nothing c

-- if _, exists := u.create.mutation.ID(); exists { s.SetIgnore(host.FieldID) }
unfoldable pub ignore_id : HostMutation → List SetCall
ignore_id m = if is_some m.id then set_ignore "id" ∷ [] else []

-- UpdateNewValues
unfoldable pub update_new_values : HostCreate → HostCreate
unfolding add_option
update_new_values c = add_option (resolve_with ignore_id) (add_option resolve_with_new_values c)

-- sqlgraph.CreateSpec, with what the functions of its options are run on.
pub record UpsertSpec : Type 0 where
  pub table : String
  pub id : Option String
  pub columns : Dict Value
  pub sites : List String
  pub conflict : List ConflictOption
  pub builder : HostMutation

unfoldable pub host_columns : List Field → HostMutation → Dict Value
host_columns [] m = []
host_columns (f ∷ fs) m =
    let rest = host_columns fs m in
    elim (lookup f.column m.values) [ none ↦ rest | some v ↦ (f.column, v) ∷ rest ]

-- createSpec. The values of a mutation have no "site_id", which is the edge.
unfoldable pub host_spec : HostCreate → UpsertSpec
unfolding host_columns site_ids host_schema
host_spec c = record {
  table = host_schema.table;
  id = c.mutation.id;
  columns = host_columns host_schema.fields c.mutation;
  sites = site_ids c.mutation;
  conflict = c.conflict;
  builder = c.mutation;
}

-- defaults
unfoldable pub host_defaults : String → HostMutation → HostMutation
host_defaults new_id m = if is_some m.id then m else record m { id = some new_id }

-- check
unfoldable pub host_check : HostMutation → Option String
host_check m =
    if is_some (lookup "host_id" m.values)
    then none
    else some "ent: missing required field \"Host.host_id\""

abbrev pub float_value : String → Value
float_value x = record { held_type = "float64"; content = x }

abbrev pub time_value : String → Value
time_value t = record { held_type = "time.Time"; content = t }

-- sqlgraph.CreateNode
abbrev pub CreateNode : Type 0 → Type 0
CreateNode W = UpsertSpec → W → W × Option SqlError

module _ {W : Type 0} (D : CreateNode W) (new_id : W → String) where
  -- What follows CreateNode in sqlSave; Exec drops the node.
  unfoldable pub host_created : W × Option SqlError → W × Option String
  host_created (w, none) = (w, none)
  host_created (w, some e) = (
    w,
    some (
        if e.is_constraint
        then concat ("ent: constraint failed: " ∷ e.message ∷ [])
        else e.message),
  )

  -- Save: defaults and sqlSave
  unfoldable pub host_save : HostCreate → W → W × Option String
  unfolding host_defaults host_check host_spec host_created
  host_save c w =
      let m = host_defaults (new_id w) c.mutation in
      elim (host_check m) [
        | some e ↦ (w, some e)
        | none ↦ host_created (D (host_spec (record c { mutation = m })) w)
      ]

  -- Exec of HostUpsertOne
  unfoldable pub exec : HostCreate → W → W × Option String
  unfolding host_save
  exec c w =
      if is_empty c.conflict
      then (w, some "ent: missing options for HostCreate.OnConflict")
      else host_save c w

  module _ {Number : Type 0} (float : Number → String) where
    -- The builder of CreateEdgeNode
    unfoldable pub host_create : HostRow Number → HostCreate
    unfolding set_host_value set_site_id on_conflict update_new_values
    host_create h =
        let m = set_host_value "last_heartbeat" (time_value h.last_heartbeat) (
          set_host_value "status" (string_value h.status) (
            set_host_value "cpu_free" (float_value (float h.cpu_free)) (
              set_host_value "runtime" (string_value h.runtime) (
                set_site_id h.site_id
                  (set_host_value "host_id" (string_value h.host_id) new_host))))) in
        update_new_values (
          on_conflict (conflict_columns ("host_id" ∷ []) ∷ [])
            (record { mutation = m; conflict = [] }))

    -- What Health takes as the insertion of a host.
    unfoldable pub client_hosts :
        (parse_uuid : String → String ⊎ String) (from_hundred : Number → Number) → Hosts Number W
    unfolding exec host_create
    client_hosts parse_uuid from_hundred = record {
      parse_uuid = parse_uuid;
      from_hundred = from_hundred;
      upsert = λ h w. exec (host_create h) w;
    }
