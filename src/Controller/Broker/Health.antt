-- ===== src/Controller/Broker/Health.antt =====
-- What internal/controller/broker_controller.go makes of a health check, and what
-- pkg/brokerregistry/registry.go makes of the status that it writes.
use kidp.Prelude.{◌≤◌, ◌<◌, pos, ◌<ℤ◌, ◌≤ℤ◌, String, string_dec, ne_of_test, ◌≡◌, ◌≢◌, refl, ◌↔◌}
use kidp.Prelude.{◌⊎◌, inl, inr, true, false, none, some, ◌∷◌, arith, Option-cases}
use kidp.Result.{ok, Result-cases}
use kidp.Api.Broker.{Broker, HealthCheckConfig}
use kidp.Registry.{SelectionCriteria, matches_criteria}
use kidp.Time.{seconds}
use kidp.Client.{Env, Run, HttpResponse, broker, update_status}
use kidp.Controller.Broker.{health_url, health_request, check_timeout, requeue_interval}
use kidp.Controller.Broker.{health_answer, check_broker_health, with_health, reconcile_broker}

Ready-ne-Unhealthy : ◌≢◌ {A = String} "Ready" "Unhealthy"
unfolding string_dec
Ready-ne-Unhealthy = ne_of_test "Ready" "Unhealthy" refl

module _ (env : Env) (b : Broker) (s : Run) where
  -- The health endpoint answers the check with a status from 200 to 299.
  abbrev pub Healthy : Type 0
  Healthy =
      (env.new_request "GET" (health_url b) ≡ none)
      × ((resp : HttpResponse) × (env.send s.calls (health_request b) ≡ ok resp)
          × (200 ≤ resp.status_code)
          × (resp.status_code < 300))

  check_iff_Healthy : ((check_broker_health env b s).0.0 ≡ true) ↔ Healthy
  unfolding check_broker_health health_answer
  check_iff_Healthy = elim (Option-cases (env.new_request "GET" (health_url b))) [
    | inl e ↦ elim (Result-cases (env.send s.calls (health_request b))) [
      | inl (resp, q) ↦ (λ h. (e, (resp, q, ground arith, ground arith)), λ h. ground arith)
      | inr (x, q) ↦ (λ h. ground arith, λ h. ground arith)
    ]
    | inr (x, e) ↦ (λ h. ground arith, λ h. ground arith)
  ]

  -- The broker as the run writes it.
  abbrev pub checked : Broker
  checked =
      let (health, s') = check_broker_health env b s in
      with_health env b (env.clock s'.calls 0) health

  reconcile_broker_writes :
      (reconcile_broker env b s).1.calls
      ≡ update_status (broker checked) ∷ (check_broker_health env b s).1.calls
  unfolding reconcile_broker
  reconcile_broker_writes = ground arith

  checked-Ready : (checked.status.phase ≡ "Ready") ↔ Healthy
  unfolding with_health
  checked-Ready = ground (arith, check_iff_Healthy, Ready-ne-Unhealthy)

  checked-Unhealthy : (checked.status.phase ≡ "Ready") ⊎ (checked.status.phase ≡ "Unhealthy")
  unfolding with_health
  checked-Unhealthy = ground arith

  checked_spec : (checked.spec ≡ b.spec) × (checked.meta ≡ b.meta)
  unfolding with_health
  checked_spec = (refl, refl)

-- A run writes the broker's status once, after the check, and leaves its specification alone. The
-- phase is Ready if the health endpoint has answered with a status from 200 to 299, and Unhealthy
-- otherwise, whatever it was before and whatever threshold of failures is configured.
pub reconcile_broker_iff_Healthy :
    (env : Env) (b : Broker) (s : Run)
    → (w : Broker) × ((reconcile_broker env b s).1.calls
        ≡ update_status (broker w) ∷ (check_broker_health env b s).1.calls)
      × (w.spec ≡ b.spec)
      × ((w.status.phase ≡ "Ready") ↔ Healthy env b s)
      × ((w.status.phase ≡ "Ready") ⊎ (w.status.phase ≡ "Unhealthy"))
reconcile_broker_iff_Healthy env b s = (
  checked env b s,
  reconcile_broker_writes env b s,
  (checked_spec env b s).0,
  checked-Ready env b s,
  checked-Unhealthy env b s,
)

phase-unmatched :
    (b : Broker) (c : SelectionCriteria) → b.status.phase ≢ "Ready" → matches_criteria b c ≡ false
unfolding matches_criteria
phase-unmatched b c h = ground arith

-- A failed check writes the broker with a status that matches no criteria of the registry.
pub failed_check-unmatched :
    (env : Env) (b : Broker) (s : Run) (c : SelectionCriteria)
    → (check_broker_health env b s).0.0 ≡ false
    → (w : Broker) × ((reconcile_broker env b s).1.calls
        ≡ update_status (broker w) ∷ (check_broker_health env b s).1.calls)
      × (matches_criteria w c ≡ false)
unfolding with_health
failed_check-unmatched env b s c h = (
  checked env b s,
  reconcile_broker_writes env b s,
  phase-unmatched (checked env b s) c (ground (arith, Ready-ne-Unhealthy)),
)

-- For any configuration by `int32` values, the next check comes after at least a second, in an
-- interval that a `time.Duration` holds, and a request may take some time but at most ten seconds.
pub health_check_bounds :
    (b : Broker)
    → ((h : HealthCheckConfig)
        → b.spec.health_check ≡ some h
        → (h.interval_seconds <ℤ pos 2_147_483_648) × (h.timeout_seconds <ℤ pos 2_147_483_648))
    → (seconds 1 ≤ℤ requeue_interval b.spec.health_check)
      × (requeue_interval b.spec.health_check <ℤ pos 9_223_372_036_854_775_808)
      × (pos 0 <ℤ (health_request b).timeout)
      × ((health_request b).timeout ≤ℤ seconds 10)
unfolding requeue_interval check_timeout
health_check_bounds b h = elim (Option-cases b.spec.health_check) [
  | inl e ↦ ground arith
  | inr (c, e) ↦ let (i, t) = h c e in ground arith
]
