-- ===== src/DeepCopy/Shared.antt =====
-- api/v1/zz_generated.deepcopy.go: the structs that several resources share, those without pointers
-- among them.
use kidp.Prelude.{refl, List}
use kidp.Api.Meta.{Int32, Float64}
use kidp.Api.Owner.{
  OwnerReference, ObjectReference, SecretReference, Contact, ResourceCount, TenantResourceCount,
}
use kidp.Api.Database.{BackupConfig, AtRestEncryption, InTransitEncryption, EncryptionConfig}
use kidp.Api.Broker.{HealthCheckConfig}
use kidp.DeepCopy.{Ref, Alloc, pure, ◌>>=◌, copy_pointer}
use kidp.DeepCopy.Sharing.{
  Kind, IsDeepCopy, flat, pointer, struct, ◌&◌, ◌both◌, flat-IsDeepCopy, pointer-IsDeepCopy,
  struct-IsDeepCopy,
}

pub record HeapBudget : Type 0 where
  pub monthly_limit : Float64
  pub alert_thresholds : Ref (List Float64)

pub record HeapTeamQuotas : Type 0 where
  pub max_applications : Ref Int32
  pub max_databases : Ref Int32
  pub max_services : Ref Int32
  pub max_caches : Ref Int32

pub record HeapTenantQuotas : Type 0 where
  pub max_teams : Ref Int32
  pub max_applications : Ref Int32
  pub max_databases : Ref Int32

abbrev pub copy_owner_reference_into : OwnerReference → Alloc OwnerReference
copy_owner_reference_into = pure

abbrev pub copy_owner_reference : Ref OwnerReference → Alloc (Ref OwnerReference)
copy_owner_reference = copy_pointer copy_owner_reference_into

abbrev pub copy_object_reference_into : ObjectReference → Alloc ObjectReference
copy_object_reference_into = pure

abbrev pub copy_object_reference : Ref ObjectReference → Alloc (Ref ObjectReference)
copy_object_reference = copy_pointer copy_object_reference_into

abbrev pub copy_secret_reference_into : SecretReference → Alloc SecretReference
copy_secret_reference_into = pure

abbrev pub copy_secret_reference : Ref SecretReference → Alloc (Ref SecretReference)
copy_secret_reference = copy_pointer copy_secret_reference_into

abbrev pub copy_contact_into : Contact → Alloc Contact
copy_contact_into = pure

abbrev pub copy_contact : Ref Contact → Alloc (Ref Contact)
copy_contact = copy_pointer copy_contact_into

abbrev pub copy_resource_count_into : ResourceCount → Alloc ResourceCount
copy_resource_count_into = pure

abbrev pub copy_resource_count : Ref ResourceCount → Alloc (Ref ResourceCount)
copy_resource_count = copy_pointer copy_resource_count_into

abbrev pub copy_tenant_resource_count_into : TenantResourceCount → Alloc TenantResourceCount
copy_tenant_resource_count_into = pure

abbrev pub copy_tenant_resource_count : Ref TenantResourceCount → Alloc (Ref TenantResourceCount)
copy_tenant_resource_count = copy_pointer copy_tenant_resource_count_into

abbrev pub copy_backup_config_into : BackupConfig → Alloc BackupConfig
copy_backup_config_into = pure

abbrev pub copy_backup_config : Ref BackupConfig → Alloc (Ref BackupConfig)
copy_backup_config = copy_pointer copy_backup_config_into

abbrev pub copy_at_rest_encryption_into : AtRestEncryption → Alloc AtRestEncryption
copy_at_rest_encryption_into = pure

abbrev pub copy_at_rest_encryption : Ref AtRestEncryption → Alloc (Ref AtRestEncryption)
copy_at_rest_encryption = copy_pointer copy_at_rest_encryption_into

abbrev pub copy_in_transit_encryption_into : InTransitEncryption → Alloc InTransitEncryption
copy_in_transit_encryption_into = pure

abbrev pub copy_in_transit_encryption : Ref InTransitEncryption → Alloc (Ref InTransitEncryption)
copy_in_transit_encryption = copy_pointer copy_in_transit_encryption_into

abbrev pub copy_encryption_config_into : EncryptionConfig → Alloc EncryptionConfig
copy_encryption_config_into e = pure (record e { at_rest = e.at_rest; in_transit = e.in_transit })

abbrev pub copy_encryption_config : Ref EncryptionConfig → Alloc (Ref EncryptionConfig)
copy_encryption_config = copy_pointer copy_encryption_config_into

abbrev pub copy_health_check_config_into : HealthCheckConfig → Alloc HealthCheckConfig
copy_health_check_config_into = pure

abbrev pub copy_health_check_config : Ref HealthCheckConfig → Alloc (Ref HealthCheckConfig)
copy_health_check_config = copy_pointer copy_health_check_config_into

abbrev pub kind_of_budget : Kind HeapBudget
kind_of_budget = struct (λ s. (s.monthly_limit, s.alert_thresholds)) (flat & pointer flat)

abbrev pub copy_budget_into : HeapBudget → Alloc HeapBudget
copy_budget_into s = do
  alert_thresholds ← copy_pointer pure s.alert_thresholds
  pure (record s { alert_thresholds = alert_thresholds })

abbrev pub copy_budget : Ref HeapBudget → Alloc (Ref HeapBudget)
copy_budget = copy_pointer copy_budget_into

pub copy_budget_into-IsDeepCopy : IsDeepCopy kind_of_budget copy_budget_into
copy_budget_into-IsDeepCopy =
    struct-IsDeepCopy (flat-IsDeepCopy both (pointer-IsDeepCopy flat-IsDeepCopy)) (λ a n. refl)

abbrev pub kind_of_team_quotas : Kind HeapTeamQuotas
kind_of_team_quotas =
    struct (λ s. (s.max_applications, (s.max_databases, (s.max_services, s.max_caches))))
      (pointer flat & pointer flat & pointer flat & pointer flat)

abbrev pub copy_team_quotas_into : HeapTeamQuotas → Alloc HeapTeamQuotas
copy_team_quotas_into s = do
  max_applications ← copy_pointer pure s.max_applications
  max_databases ← copy_pointer pure s.max_databases
  max_services ← copy_pointer pure s.max_services
  max_caches ← copy_pointer pure s.max_caches
  pure (record s {
    max_applications = max_applications;
    max_databases = max_databases;
    max_services = max_services;
    max_caches = max_caches;
  })

abbrev pub copy_team_quotas : Ref HeapTeamQuotas → Alloc (Ref HeapTeamQuotas)
copy_team_quotas = copy_pointer copy_team_quotas_into

pub copy_team_quotas_into-IsDeepCopy : IsDeepCopy kind_of_team_quotas copy_team_quotas_into
copy_team_quotas_into-IsDeepCopy =
    struct-IsDeepCopy
      ((pointer-IsDeepCopy flat-IsDeepCopy)
        both (pointer-IsDeepCopy flat-IsDeepCopy)
        both (pointer-IsDeepCopy flat-IsDeepCopy)
        both (pointer-IsDeepCopy flat-IsDeepCopy))
      (λ a n. refl)

abbrev pub kind_of_tenant_quotas : Kind HeapTenantQuotas
kind_of_tenant_quotas =
    struct (λ s. (s.max_teams, (s.max_applications, s.max_databases)))
      (pointer flat & pointer flat & pointer flat)

abbrev pub copy_tenant_quotas_into : HeapTenantQuotas → Alloc HeapTenantQuotas
copy_tenant_quotas_into s = do
  max_teams ← copy_pointer pure s.max_teams
  max_applications ← copy_pointer pure s.max_applications
  max_databases ← copy_pointer pure s.max_databases
  pure (record s {
    max_teams = max_teams;
    max_applications = max_applications;
    max_databases = max_databases;
  })

abbrev pub copy_tenant_quotas : Ref HeapTenantQuotas → Alloc (Ref HeapTenantQuotas)
copy_tenant_quotas = copy_pointer copy_tenant_quotas_into

pub copy_tenant_quotas_into-IsDeepCopy : IsDeepCopy kind_of_tenant_quotas copy_tenant_quotas_into
copy_tenant_quotas_into-IsDeepCopy =
    struct-IsDeepCopy
      ((pointer-IsDeepCopy flat-IsDeepCopy)
        both (pointer-IsDeepCopy flat-IsDeepCopy)
        both (pointer-IsDeepCopy flat-IsDeepCopy))
      (λ a n. refl)
