-- ===== src/Registry/Member.antt =====
-- `SelectBroker` of pkg/brokerregistry/registry.go: an answer comes out of the cache and suits,
-- whatever the floating-point scores are.
use kidp.Prelude.{ℕ, suc, ◌≡◌, refl, subst, sym, ◌∙◌, inl, inr, true, false, Bool, if◌then◌else◌}
use kidp.Prelude.{none, some, List, [], ◌∷◌, In, arith}
use kidp.Result.{ok}
use kidp.Api.Meta.{Float64, Time}
use kidp.Api.Broker.{Broker}
use kidp.Registry.{Floats, Registry, Discovery, SelectionCriteria, candidates, select_best}
use kidp.Registry.{select_from, calculate_score, choose, list_brokers, select_broker}
use kidp.Registry.{refresh_cache_if_needed}
use kidp.Registry.Matching.{Suits, matches_criteria_iff}
use kidp.Registry.Choice.{In-candidates, Reorders, select_broker_fresh, select_broker_cached}

keep_either :
    (greater : Bool) (x b best : Broker) (rest : List Broker)
    → In x ((if greater then b else best) ∷ rest)
    → In x (best ∷ b ∷ rest)
keep_either true x b best rest j = inr j
keep_either false x b best rest (inl p) = inl p
keep_either false x b best rest (inr j) = inr (inr j)

module _ (F : Floats) (clock : ℕ → Time) where
  select_from-In :
      (i : ℕ) (best : Broker) (score : Float64) (rest : List Broker)
      → In (select_from F clock i best score rest) (best ∷ rest)
  unfolding select_from
  select_from-In i best score [] = inl refl
  select_from-In i best score (b ∷ rest) =
      let greater = F.gt (calculate_score F b (clock i)) score in
      keep_either greater _ b best rest (
        select_from-In (suc i) (if greater then b else best)
          (if greater then calculate_score F b (clock i) else score) rest)

  select_best-In : (bs : List Broker) (b : Broker) → select_best F clock bs ≡ some b → In b bs
  unfolding select_best
  select_best-In [] b h = cc
  select_best-In (x ∷ bs) b h =
      ground (arith, select_from-In 1 x (calculate_score F x (clock 0)) bs)

pub choose-In :
    (F : Floats) (r : Registry) (d : Discovery) (c : SelectionCriteria) (b : Broker)
    → choose F r d c ≡ ok b
    → In b (candidates c (d.order (list_brokers r)))
unfolding choose
choose-In F r d c b h =
    select_best-In F (λ i. d.clock (suc (suc i))) (candidates c (d.order (list_brokers r))) b
      (ground arith)

select_broker_refreshed :
    (F : Floats) (r : Registry) (d : Discovery) (c : SelectionCriteria) (b : Broker)
    → (select_broker F r d c).1 ≡ ok b
    → (refresh_cache_if_needed r d).1 ≡ none
unfolding select_broker
select_broker_refreshed F r d c b h = ground arith

-- A broker that `SelectBroker` returns is in the cache and suits the criteria.
pub select_broker-Suits :
    (F : Floats) (r : Registry) (d : Discovery) (c : SelectionCriteria) (b : Broker)
    → Reorders d.order
    → (select_broker F r d c).1 ≡ ok b
    → In b (list_brokers (select_broker F r d c).0) × Suits b c
select_broker-Suits F r d c b reorders h =
    let fresh = select_broker_refreshed F r d c b h in
    let cached = (refresh_cache_if_needed r d).0 in
    let found = choose-In F cached d c b (sym (select_broker_fresh F r d c fresh) ∙ h) in
    let (i, m) = (In-candidates c (d.order (list_brokers cached)) b).0 found in
    (
      subst (λ g. In b (list_brokers g)) (sym (select_broker_cached F r d c))
          ((reorders (list_brokers cached) b).0 i),
      (matches_criteria_iff b c).0 m,
    )
