-- ===== src/BrokerServer/Validation.antt =====
-- Which requests the handlers of cmd/broker/main.go accept.
use kidp.Prelude.{◌≡◌, ◌≢◌, ◌↔◌, ◌⊎◌, inl, inr, none, arith}
use kidp.Result.{ok, Result-cases}
use kidp.BrokerClient.Types.{ProvisionRequest, DeprovisionRequest}
use kidp.BrokerServer.{Process, Query, status_of, validate_provision, validate_deprovision}
use kidp.BrokerServer.{handle_provision, handle_deprovision}

-- All that a request for provisioning has to name; an owner is not asked for.
pub record CompleteProvision (r : ProvisionRequest) : Type 0 where
  pub typed : r.resource_type ≢ ""
  pub named : r.resource_name ≢ ""
  pub placed : r.namespace ≢ ""
  pub owned : r.team ≢ ""
  pub answered : r.callback_url ≢ ""
  pub specified : r.spec ≢ none

pub record CompleteDeprovision (r : DeprovisionRequest) : Type 0 where
  pub deployed : r.deployment_id ≢ ""
  pub typed : r.resource_type ≢ ""
  pub named : r.resource_name ≢ ""
  pub placed : r.namespace ≢ ""
  pub answered : r.callback_url ≢ ""

pub validate_provision_lem :
    (r : ProvisionRequest) → (validate_provision r ≡ none) ↔ CompleteProvision r
unfolding validate_provision
validate_provision_lem r = (
  λ h. record {
    typed = ground arith;
    named = ground arith;
    placed = ground arith;
    owned = ground arith;
    answered = ground arith;
    specified = ground arith;
  },
  λ c. ground arith,
)

pub validate_deprovision_lem :
    (r : DeprovisionRequest) → (validate_deprovision r ≡ none) ↔ CompleteDeprovision r
unfolding validate_deprovision
validate_deprovision_lem r = (
  λ h. record {
    deployed = ground arith;
    typed = ground arith;
    named = ground arith;
    placed = ground arith;
    answered = ground arith;
  },
  λ c. ground arith,
)

-- The broker accepts exactly the POSTs of a request for provisioning with a type, a name, a
-- namespace, a team, a callback URL and a specification, and answers any other with 400 or 405.
pub handle_provision_accepts_iff :
    (p : Process) (q : Query)
    → ((status_of (handle_provision p q) ≡ 202) ↔ (
        (q.method ≡ "POST")
        × ((r : ProvisionRequest) × (p.decode_provision q.body ≡ ok r) × CompleteProvision r)))
      × ((status_of (handle_provision p q) ≡ 202)
          ⊎ ((status_of (handle_provision p q) ≡ 400) ⊎ (status_of (handle_provision p q) ≡ 405)))
unfolding handle_provision
handle_provision_accepts_iff p q = elim (Result-cases (p.decode_provision q.body)) [
  | inl (r, e) ↦ (
    (
      λ h. (ground arith, (r, e, (validate_provision_lem r).0 (ground arith))),
      λ (m, (r', e', c)). ground (arith, validate_provision_lem r'),
    ),
    ground arith,
  )
  | inr (x, e) ↦ ((λ h. ground arith, λ (m, (r', e', c)). ground arith), ground arith)
]

-- The same of deprovisioning, where a deployment's ID is asked for as well, and no team and no
-- specification.
pub handle_deprovision_accepts_iff :
    (p : Process) (q : Query)
    → ((status_of (handle_deprovision p q) ≡ 202) ↔ (
        (q.method ≡ "POST")
        × ((r : DeprovisionRequest) × (p.decode_deprovision q.body ≡ ok r)
            × CompleteDeprovision r)))
      × ((status_of (handle_deprovision p q) ≡ 202)
          ⊎ ((status_of (handle_deprovision p q) ≡ 400)
              ⊎ (status_of (handle_deprovision p q) ≡ 405)))
unfolding handle_deprovision
handle_deprovision_accepts_iff p q = elim (Result-cases (p.decode_deprovision q.body)) [
  | inl (r, e) ↦ (
    (
      λ h. (ground arith, (r, e, (validate_deprovision_lem r).0 (ground arith))),
      λ (m, (r', e', c)). ground (arith, validate_deprovision_lem r'),
    ),
    ground arith,
  )
  | inr (x, e) ↦ ((λ h. ground arith, λ (m, (r', e', c)). ground arith), ground arith)
]
