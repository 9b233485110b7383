-- ===== src/Registry.antt =====
-- pkg/brokerregistry/registry.go: the cache of brokers, and the choice of one for a deployment.
-- `Floats` stands for the hardware's float64 arithmetic, `Discovery` for what one call of
-- `SelectBroker` gets from outside: the listing, the readings of the clock in their order, and the
-- order in which Go's `range` walks the map.
pub mod Matching
pub mod Score
pub mod Selection
pub mod Cache
pub mod Choice
pub mod Member
pub mod Available
pub mod Callers
pub mod Unordered
use kidp.Prelude.{ℕ, suc, ℤ, pos, String, ◌<>◌, ◌==◌, is_empty, lt_ℤ, le_ℤ, if◌then◌else◌}
use kidp.Prelude.{Bool, true, false, not, ◌&&◌, ◌||◌, Option, none, some, List, [], ◌∷◌, any, map}
use kidp.Prelude.{Dict, insert}
use kidp.Result.{Result, ok, err, Error, errorf, wrapf}
use kidp.Api.Meta.{Float64, Time, Duration}
use kidp.Api.Broker.{Broker, BrokerCapability}
use kidp.Time.{seconds, minutes, sub}

pub record Floats : Type 0 where
  pub of_int : ℤ → Float64
  pub add : Float64 → Float64 → Float64
  pub minus : Float64 → Float64 → Float64
  pub mul : Float64 → Float64 → Float64
  pub div : Float64 → Float64 → Float64
  pub gt : Float64 → Float64 → Bool

pub record Registry : Type 0 where
  pub broker_cache : Dict Broker
  pub last_refresh : Time
  pub cache_timeout : Duration

pub record SelectionCriteria : Type 0 where
  pub resource_type : String
  pub cloud_provider : String
  pub region : String
  pub provider : String

pub record Discovery : Type 0 where
  pub listing : Result (List Broker)
  pub clock : ℕ → Time
  pub order : List Broker → List Broker

abbrev pub new_registry : Registry
new_registry = record { broker_cache = []; last_refresh = pos 0; cache_timeout = seconds 30 }

-- The body of the loop over the capabilities.
unfoldable pub supports : SelectionCriteria → BrokerCapability → Bool
supports criteria cap =
    if cap.resource_type == criteria.resource_type
    then (if not (is_empty criteria.provider)
        then any (λ p. p == criteria.provider) cap.providers
        else true)
    else false

unfoldable pub matches_criteria : Broker → SelectionCriteria → Bool
unfolding supports
matches_criteria broker criteria =
    if not (broker.status.phase == "Ready")
    then false
    else if not (is_empty criteria.cloud_provider)
        && not (broker.spec.cloud_provider == criteria.cloud_provider)
    then false
    else if not (is_empty criteria.region)
        && not (is_empty broker.spec.region)
        && not (broker.spec.region == criteria.region)
    then false
    else if not (is_empty criteria.resource_type)
        && not (any (supports criteria) broker.spec.capabilities)
    then false
    else if lt_ℤ (pos 0) broker.spec.max_concurrent_deployments
        && le_ℤ broker.spec.max_concurrent_deployments broker.status.active_deployments
    then false
    else true

module _ (F : Floats) where
  open F use {of_int, add, minus, mul, div, gt}

  unfoldable pub load_score : Broker → Float64 → Float64
  load_score broker score =
      if lt_ℤ (pos 0) broker.spec.max_concurrent_deployments
      then add score (
          mul
            (minus (of_int (pos 1)) (
              div (of_int broker.status.active_deployments)
                (of_int broker.spec.max_concurrent_deployments)))
            (of_int (pos 100)))
      else score

  unfoldable pub heartbeat_score : Option Time → Time → Float64 → Float64
  heartbeat_score none now score = score
  heartbeat_score (some heartbeat) now score =
      let age = sub now heartbeat in
      if lt_ℤ age (minutes 1)
      then add score (of_int (pos 50))
      else if lt_ℤ age (minutes 5)
      then add score (of_int (pos 25))
      else score

  -- `now` is what the clock shows when the heartbeat's age is taken.
  unfoldable pub calculate_score : Broker → Time → Float64
  unfolding load_score heartbeat_score
  calculate_score broker now =
      heartbeat_score broker.status.last_heartbeat now
        (load_score broker (add (of_int (pos 0)) (of_int broker.spec.priority)))

  -- The loop over `candidates[1:]`: `i` counts the scores computed so far.
  unfoldable pub select_from : (ℕ → Time) → ℕ → Broker → Float64 → List Broker → Broker
  select_from clock i best best_score [] = best
  select_from clock i best best_score (broker ∷ rest) =
      let score = calculate_score broker (clock i) in
      select_from clock (suc i) (if gt score best_score then broker else best)
        (if gt score best_score then score else best_score) rest

  unfoldable pub select_best : (ℕ → Time) → List Broker → Option Broker
  unfolding select_from calculate_score
  select_best clock [] = none
  select_best clock (first ∷ rest) =
      some (select_from clock 1 first (calculate_score first (clock 0)) rest)

abbrev pub cache_key : Broker → String
cache_key broker = broker.meta.namespace <> "/" <> broker.meta.name

-- The loop of `RefreshCache` over the listed items.
unfoldable pub fill : Dict Broker → List Broker → Dict Broker
fill cache [] = cache
fill cache (broker ∷ rest) = fill (insert (cache_key broker) broker cache) rest

unfoldable pub refresh_cache : Registry → Result (List Broker) → Time → Registry × Option Error
unfolding fill
refresh_cache r (err e) now = (r, some (wrapf "failed to list brokers" e))
refresh_cache r (ok items) now =
    (record r { broker_cache = fill [] items; last_refresh = now }, none)

unfoldable pub needs_refresh : Registry → Time → Bool
needs_refresh r now = lt_ℤ r.cache_timeout (sub now r.last_refresh)

unfoldable pub refresh_cache_if_needed : Registry → Discovery → Registry × Option Error
unfolding needs_refresh refresh_cache
refresh_cache_if_needed r d =
    if not (needs_refresh r (d.clock 0)) then (r, none) else refresh_cache r d.listing (d.clock 1)

-- `ListBrokers`, before the map's order is known.
abbrev pub list_brokers : Registry → List Broker
list_brokers r = map (λ (_, broker). broker) r.broker_cache

-- The filter loop of `SelectBroker`.
unfoldable pub candidates : SelectionCriteria → List Broker → List Broker
candidates criteria [] = []
candidates criteria (broker ∷ rest) =
    let others = candidates criteria rest in
    if matches_criteria broker criteria then broker ∷ others else others

unfoldable pub no_broker_found : SelectionCriteria → Error
no_broker_found c = errorf (
    "no broker found matching criteria: resourceType=" <> c.resource_type <> ", cloudProvider="
    <> c.cloud_provider <> ", region=" <> c.region <> ", provider=" <> c.provider)

-- The part of `SelectBroker` under the read lock; the clock's first two readings are spent.
unfoldable pub choose : Floats → Registry → Discovery → SelectionCriteria → Result Broker
unfolding candidates matches_criteria select_best no_broker_found
choose F r d criteria =
    elim (select_best F (λ i. d.clock (suc (suc i)))
      (candidates criteria (d.order (list_brokers r)))) [
        | none ↦ err (no_broker_found criteria)
        | some selected ↦ ok selected
      ]

unfoldable pub select_broker :
    Floats → Registry → Discovery → SelectionCriteria → Registry × Result Broker
select_broker F r d criteria =
    let (r', failure) = refresh_cache_if_needed r d in
    (
      r',
      elim failure [
        | some e ↦ err (wrapf "failed to refresh broker cache" e)
        | none ↦ choose F r' d criteria
      ],
    )
