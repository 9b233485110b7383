-- ===== src/Tests/Copies.antt =====
-- A copy of a database with pointers, a map, conditions and a cost.
use kidp.Prelude.{pos, String, true, List, [], ◌∷◌, Dict, ◌≡◌, refl, arith, none, some, ◌⊎◌}
use kidp.Api.Meta.{Condition, Time}
use kidp.DeepCopy.{Ref, nil, at, pure, copy_pointer, copy_map, ◌>>=◌}
use kidp.DeepCopy.Sharing.{IsDeepCopy, flat, pointer, dictionary, ◌&◌, ◌both◌}
use kidp.DeepCopy.Sharing.{
  flat-IsDeepCopy, pointer-IsDeepCopy, copy_map-IsDeepCopy, struct-IsDeepCopy,
}
use kidp.DeepCopy.Machinery.{Machinery}
use kidp.DeepCopy.Application.{
  kind_of_application, copy_application_into, kind_of_application_list, copy_application_list_into,
}
use kidp.DeepCopy.Broker.{
  kind_of_broker, copy_broker_into, kind_of_broker_list, copy_broker_list_into,
}
use kidp.DeepCopy.Database.{
  kind_of_database, copy_database_into, kind_of_database_list, copy_database_list_into,
}
use kidp.DeepCopy.Team.{kind_of_team, copy_team_into, kind_of_team_list, copy_team_list_into}
use kidp.DeepCopy.Tenant.{
  kind_of_tenant, copy_tenant_into, kind_of_tenant_list, copy_tenant_list_into,
}
use kidp.DeepCopy.Database.{HeapDatabase, copy_database, copy_database_object}
use kidp.DeepCopy.Objects.{copies_of_objects-IsDeepCopy, copy_database_object-Separate, Separate}

-- Labels and finalizers.
abbrev Labelled : Type 0
Labelled = Ref (Dict String) × Ref (List String)

-- A list's resource version stands for its metadata, a kind for the type's.
abbrev machinery : Machinery
machinery = record {
  TypeMeta = String;
  ObjectMeta = Labelled;
  ListMeta = String;
  Condition = Condition;
  Time = Time;
  object_meta = pointer dictionary & pointer flat;
  list_meta = flat;
  condition = flat;
  time = flat;
  copy_object_meta_into = λ m. do
    labels ← copy_map m.0
    finalizers ← copy_pointer pure m.1
    pure (labels, finalizers);
  copy_list_meta_into = pure;
  copy_condition_into = pure;
  copy_time_into = pure;
  copy_time = copy_pointer pure;
  copy_object_meta_into-IsDeepCopy =
      struct-IsDeepCopy {fields = λ m. m}
        (copy_map-IsDeepCopy both pointer-IsDeepCopy flat-IsDeepCopy) (λ m n. refl);
  copy_list_meta_into-IsDeepCopy = flat-IsDeepCopy;
  copy_condition_into-IsDeepCopy = flat-IsDeepCopy;
  copy_time_into-IsDeepCopy = flat-IsDeepCopy;
  copy_time-IsDeepCopy = pointer-IsDeepCopy flat-IsDeepCopy;
}

abbrev stored : HeapDatabase machinery
stored = record {
  type_meta = "Database";
  meta = (
    at 1 (("platform.company.com/tenant", "acme") ∷ []),
    at 2 ("platform.company.com/database-finalizer" ∷ []),
  );
  spec = record {
    owner = record { kind = "Team"; name = "platform"; namespace = "" };
    engine = "postgresql";
    version = "15";
    size = "small";
    target = "primary-db";
    backup =
        at 3 (record {
          enabled = true;
          retention = "7d";
          schedule = "";
          point_in_time_restore = true;
        });
    encryption = nil;
    high_availability = true;
    parameters = at 4 (("max_connections", "100") ∷ []);
  };
  status = record {
    phase = "Ready";
    conditions = at 5 (
        record {
          kind = "Ready";
          status = "True";
          observed_generation = pos 1;
          last_transition_time = none;
          reason = "Provisioned";
          message = "";
        }
        ∷ []);
    endpoint = "db.internal";
    port = pos 5432;
    connection_secret_ref = at 6 (record { name = "db"; namespace = "acme-apps" });
    cloud_resource_id = "";
    deployment_id = "d-1";
    broker_ref = at 7 (record { name = "azure"; namespace = "" });
    cost = at 8 (record { estimated_monthly = 0; currency = "EUR"; last_updated = pos 0 });
    last_backup = at 9 (pos 5);
    observed_generation = pos 1;
  };
}

-- The ten structures that the database reaches and its own are copied to the next addresses.
copied_at :
    (pointer (kind_of_database machinery)).addresses (copy_database machinery (at 0 stored) 10).0
    ≡ 10 ∷ 11 ∷ 12 ∷ 13 ∷ 14 ∷ 15 ∷ 16 ∷ 17 ∷ 18 ∷ 19 ∷ []
copied_at = refl

copies_of_objects-IsDeepCopy_example :
    IsDeepCopy (kind_of_application machinery) (copy_application_into machinery)
    × IsDeepCopy (kind_of_application_list machinery) (copy_application_list_into machinery)
    × IsDeepCopy (kind_of_broker machinery) (copy_broker_into machinery)
    × IsDeepCopy (kind_of_broker_list machinery) (copy_broker_list_into machinery)
    × IsDeepCopy (kind_of_database machinery) (copy_database_into machinery)
    × IsDeepCopy (kind_of_database_list machinery) (copy_database_list_into machinery)
    × IsDeepCopy (kind_of_team machinery) (copy_team_into machinery)
    × IsDeepCopy (kind_of_team_list machinery) (copy_team_list_into machinery)
    × IsDeepCopy (kind_of_tenant machinery) (copy_tenant_into machinery)
    × IsDeepCopy (kind_of_tenant_list machinery) (copy_tenant_list_into machinery)
copies_of_objects-IsDeepCopy_example = copies_of_objects-IsDeepCopy machinery

copy_database_object-Separate_example :
    ((at 0 stored ≡ nil) × ((copy_database_object machinery (at 0 stored) 10).0 ≡ none))
    ⊎ ((copy : Ref (HeapDatabase machinery)) × ((copy_database_object machinery (at 0 stored) 10).0
          ≡ some copy)
        × Separate (pointer (kind_of_database machinery)) (at 0 stored) copy)
copy_database_object-Separate_example =
    copy_database_object-Separate machinery (at 0 stored) 10 (ground arith)
