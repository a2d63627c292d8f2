-- ===== src/Ent/Tables.antt =====
-- ent/schema: the tables of the applications, of the sites and of their hosts.
use margo_hello_world.Common.{[], ◌∷◌, true, false}
use margo_hello_world.Ent.{
  EntSchema, required, optional, edge_to, edge_from, string_type, time_type, uuid_type,
}

unfoldable pub application_desc_schema : EntSchema
unfolding required optional edge_to
application_desc_schema = record {
  type_name = "ApplicationDesc";
  table = "application_desc";
  id_type = string_type;
  id_generated = false;
  fields =
      optional "name" string_type
      ∷ optional "vendor" string_type
      ∷ optional "version" string_type
      ∷ optional "category" string_type
      ∷ optional "description" string_type
      ∷ optional "icon" string_type
      ∷ optional "artifacturl" string_type
      ∷ optional "site" string_type
      ∷ optional "tag_line" string_type
      ∷ optional "tags" "[]string"
      ∷ optional "published" string_type
      ∷ [];
  edges = edge_to "deployment_profiles" ∷ [];
}

unfoldable pub component_schema : EntSchema
unfolding required optional edge_from
component_schema = record {
  type_name = "Component";
  table = "component";
  id_type = "uint";
  id_generated = false;
  fields =
      optional "deployment_profile_id" string_type
      ∷ optional "name" string_type
      ∷ optional "properties" "application.ComponentProperties"
      ∷ [];
  edges = edge_from "deployment_profile" "deployment_profile_id" ∷ [];
}

unfoldable pub deployment_profile_schema : EntSchema
unfolding required optional edge_to edge_from
deployment_profile_schema = record {
  type_name = "DeploymentProfile";
  table = "deployment_profile";
  id_type = string_type;
  id_generated = false;
  fields =
      optional "type" string_type
      ∷ optional "description" string_type
      ∷ optional "cpu_cores" "float64"
      ∷ optional "memory" string_type
      ∷ optional "storage" string_type
      ∷ optional "cpu_architectures" "[]string"
      ∷ optional "peripherals" "[]map[string]interface {}"
      ∷ optional "interfaces" "[]map[string]interface {}"
      ∷ optional "app_id" string_type
      ∷ [];
  edges = edge_to "components" ∷ edge_from "application_desc" "app_id" ∷ [];
}

unfoldable pub host_schema : EntSchema
unfolding required optional edge_from
host_schema = record {
  type_name = "Host";
  table = "host";
  id_type = uuid_type;
  id_generated = true;
  fields =
      record (required "host_id" string_type) { is_unique = true }
      ∷ optional "site_id" uuid_type
      ∷ optional "runtime" string_type
      ∷ optional "last_heartbeat" time_type
      ∷ optional "cpu_free" "float64"
      ∷ optional "status" string_type
      ∷ optional "hostname" string_type
      ∷ optional "ip_address" string_type
      ∷ optional "edge_url" string_type
      ∷ optional "metadata" "struct {}"
      ∷ optional "created_at" time_type
      ∷ optional "updated_at" time_type
      ∷ [];
  edges = edge_from "site" "site_id" ∷ [];
}

unfoldable pub orchestrator_schema : EntSchema
unfolding optional edge_to
orchestrator_schema = record {
  type_name = "Orchestrator";
  table = "orchestrator";
  id_type = uuid_type;
  id_generated = false;
  fields =
      optional "name" string_type
      ∷ optional "type" string_type
      ∷ optional "region" string_type
      ∷ optional "api_endpoint" string_type
      ∷ optional "created_at" time_type
      ∷ optional "updated_at" time_type
      ∷ [];
  edges = edge_to "sites" ∷ [];
}

unfoldable pub site_schema : EntSchema
unfolding required optional edge_to edge_from
site_schema = record {
  type_name = "Site";
  table = "site";
  id_type = uuid_type;
  id_generated = true;
  fields =
      record (required "site_id" string_type) { is_unique = true }
      ∷ optional "name" string_type
      ∷ optional "description" string_type
      ∷ optional "location" string_type
      ∷ optional "orchestrator_id" uuid_type
      ∷ optional "metadata" "struct {}"
      ∷ optional "created_at" time_type
      ∷ optional "updated_at" time_type
      ∷ [];
  edges = edge_to "hosts" ∷ edge_from "orchestrator" "orchestrator_id" ∷ [];
}
