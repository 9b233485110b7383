-- ===== src/Controller/Team/Suspension.antt =====
-- What becomes of a suspended team under internal/controller/team_controller.go.
use kidp.Prelude.{
  ◌≡◌, ◌≢◌, ◌∙◌, sym, subst, ◌⊎◌, ◌<>◌, inl, inr, String, string_dec, ne_of_test, arith,
}
use kidp.Prelude.{Bool-cases, true, Option, some, none, [], In, refl}
use kidp.Result.{ok, errorf}
use kidp.Api.Meta.{ObjectKey, ObjectMeta}
use kidp.Api.Team.{Team, TeamSpec}
use kidp.Client.{
  Env, Run, Exec, Outcome, History, team, update, update_status, finished, failed_with,
}
use kidp.Status.{update_status_with_fallback}
use kidp.Controller.Team.{
  reconcile, reconcile_live, handle_deletion, check_owned_resources, block_deletion, release,
  suspend, initialize_status, verify_tenant, infer_tenant, referenced_tenant, finalizer_name,
}

-- A history writes the team.
abbrev pub Writes : Team → History → Type 0
Writes t h = In (update (team t)) h ⊎ In (update_status (team t)) h

-- The phase stays as it was, or becomes Suspended or Deleting.
abbrev Stays : Team → Team → Type 0
Stays t t' =
    (t'.status.phase ≡ t.status.phase)
    ⊎ ((t'.status.phase ≡ "Suspended") ⊎ (t'.status.phase ≡ "Deleting"))

module _ (env : Env) (t t' : Team) (s : Run) (start : s.calls ≡ []) where
  handle_deletion-Stays : Writes t' (handle_deletion env t s).1.calls → Stays t t'
  unfolding handle_deletion check_owned_resources block_deletion release
  handle_deletion-Stays w = ground arith

  suspend-Stays : (o : Outcome) → Writes t' (suspend env t o s).1.calls → Stays t t'
  unfolding suspend update_status_with_fallback
  suspend-Stays o w = ground arith

  initialize_status-Stays :
      t.status.phase ≢ "" → Writes t' (initialize_status env t s).1.calls → Stays t t'
  unfolding initialize_status
  initialize_status-Stays set w = ground arith

  verify_tenant-Stays :
      (name : String)
      → t.status.phase ≢ ""
      → Writes t' (verify_tenant env t name s).1.calls
      → Stays t t'
  unfolding verify_tenant
  verify_tenant-Stays name set w = ground (
    arith,
    initialize_status-Stays,
    suspend-Stays (failed_with (errorf ("referenced tenant " <> name <> " not found"))),
  )

  infer_tenant-Stays : Writes t' (infer_tenant env t s).1.calls → Stays t t'
  unfolding infer_tenant
  infer_tenant-Stays w = ground (arith, suspend-Stays finished)

  -- What the team's reference to a tenant leads to.
  abbrev referenced : Option String → Exec Outcome
  referenced o = elim o [ some name ↦ verify_tenant env t name | none ↦ infer_tenant env t ]

  referenced-Stays :
      (o : Option String) → t.status.phase ≢ "" → Writes t' (referenced o s).1.calls → Stays t t'
  referenced-Stays (some name) set w = verify_tenant-Stays name set w
  referenced-Stays none set w = infer_tenant-Stays w

  finalized :
      env.contains_finalizer t.meta finalizer_name ≡ true
      → reconcile_live env t s ≡ referenced (referenced_tenant t.spec.tenant_ref) s
  unfolding reconcile_live
  finalized there = rw (there, reconcile_live)

  reconcile_live-Stays :
      t.status.phase ≢ "" → Writes t' (reconcile_live env t s).1.calls → Stays t t'
  unfolding reconcile_live
  reconcile_live-Stays set w = elim (Bool-cases (env.contains_finalizer t.meta finalizer_name)) [
    | inl there ↦
        referenced-Stays (referenced_tenant t.spec.tenant_ref) set
          (subst (λ (r : Outcome × Run). Writes t' r.1.calls) (finalized there) w)
    | inr missing ↦ ground arith
  ]

  reconcile-Stays :
      (key : ObjectKey)
      → env.teams.get [] key ≡ ok t
      → t.status.phase ≢ ""
      → Writes t' (reconcile env key s).1.calls
      → Stays t t'
  unfolding reconcile
  reconcile-Stays key there set w = ground (arith, handle_deletion-Stays, reconcile_live-Stays set)

-- One change of a team: a write of a reconciliation that has read it, or what its users do to it,
-- which leaves the status alone.
pub data Step (t t' : Team) : Type 0 where
  reconciles :
      (env : Env) (key : ObjectKey) (s : Run)
      → s.calls ≡ []
      → env.teams.get [] key ≡ ok t
      → Writes t' (reconcile env key s).1.calls
      → Step t t'
  edited : (m : ObjectMeta) (spec : TeamSpec) → t' ≡ record t { meta = m; spec = spec } → Step t t'

pub data Steps (t : Team) : Team → Type 0 where
  here : Steps t t
  later : {x y : Team} → Steps t x → Step x y → Steps t y

-- The team waits for its tenant or for its deletion.
abbrev IsHeld : Team → Type 0
IsHeld t = (t.status.phase ≡ "Suspended") ⊎ (t.status.phase ≡ "Deleting")

held_set : (t : Team) → IsHeld t → t.status.phase ≢ ""
unfolding string_dec
held_set t (inl p) e = ne_of_test "Suspended" "" refl (sym p ∙ e)
held_set t (inr p) e = ne_of_test "Deleting" "" refl (sym p ∙ e)

Stays-IsHeld : (t t' : Team) → Stays t t' → IsHeld t → IsHeld t'
Stays-IsHeld t t' (inl p) (inl q) = inl (p ∙ q)
Stays-IsHeld t t' (inl p) (inr q) = inr (p ∙ q)
Stays-IsHeld t t' (inr held) h = held

Step-IsHeld : {t t' : Team} → Step t t' → IsHeld t → IsHeld t'
Step-IsHeld {t} {t'} (reconciles env key s start there w) h =
    Stays-IsHeld t t' (reconcile-Stays env t t' s start key there (held_set t h) w) h
Step-IsHeld {t} (edited m spec q) h = subst IsHeld (sym q) h

-- A suspended team is never active again: through any sequence of reconciliations, against any
-- environment, whether its tenant is found or not, and of changes of its metadata and its
-- specification, the phase of each version of the team that is written is Suspended or Deleting.
-- Each reconciliation begins a run without calls and reads the version that is there, and the next
-- version is one that it has sent to be written.
pub suspended_stays :
    (first last : Team)
    → first.status.phase ≡ "Suspended"
    → Steps first last
    → (last.status.phase ≡ "Suspended") ⊎ (last.status.phase ≡ "Deleting")
suspended_stays first last suspended steps = reached steps
  where
    reached : {x : Team} → Steps first x → IsHeld x
    reached here = inl suspended
    reached (later s st) = Step-IsHeld st (reached s)
