-- ===== src/Tests/Selection.antt =====
-- The choice of a broker among a full and a free one.
use mathlib.Core.Logic.{∥∥₁_elim}
use mathlib.Core.Quot
use kidp.Prelude.{
  false, ◌≡◌, refl, some, none, [], ◌∷◌, All, insert, string_dec, ◌-ℤ◌, ℕ, List, arith,
}
use kidp.Result.{ok}
use kidp.Api.Meta.{Time}
use kidp.Api.Broker.{Broker}
use kidp.Time.{seconds, sub}
use kidp.Registry.Unordered.{Listed, offer_of, serves, is_ok, choose-serves}
use kidp.Registry.Unordered.Scores.{choose-Unordered}
use kidp.Registry.{
  Registry, Discovery, new_registry, matches_criteria, supports, calculate_score, load_score,
  heartbeat_score, select_from, select_best,
}
use kidp.Registry.{
  refresh_cache, refresh_cache_if_needed, needs_refresh, list_brokers, fill, select_broker, choose,
  candidates,
}
use kidp.Registry.Score.{IsSized}
use kidp.Registry.Choice.{Reorders, Chosen, select_broker-Chosen}
use kidp.Tests.Numbers.{whole, whole-IsIeee}
use kidp.Tests.Fixtures.{local, full, wanted}

abbrev pub brokers : List Broker
brokers = full ∷ local ∷ []

abbrev at_once : ℕ → Time
at_once n = seconds 1000

abbrev pub discovered : Discovery
discovered = record { listing = ok brokers; clock = at_once; order = λ bs. bs }

pub as_listed : Reorders discovered.order
as_listed bs b = (λ i. i, λ i. i)

sized : All IsSized brokers
sized = (
  record { priority = omega arith; active = omega arith },
  (record { priority = omega arith; active = omega arith }, tt),
)

local_best : select_best whole at_once brokers ≡ some local
unfolding select_best select_from calculate_score load_score heartbeat_score
local_best = refl

refreshed : (refresh_cache_if_needed new_registry discovered).1 ≡ none
unfolding refresh_cache_if_needed needs_refresh refresh_cache sub ◌-ℤ◌
refreshed = refl

cached-IsSized :
    All IsSized
      (discovered.order (list_brokers (refresh_cache_if_needed new_registry discovered).0))
unfolding refresh_cache_if_needed needs_refresh refresh_cache fill sub string_dec ◌-ℤ◌ insert
cached-IsSized = sized

select_broker-Chosen_example :
    ((select_broker whole new_registry discovered wanted).0
      ≡ (refresh_cache_if_needed new_registry discovered).0)
    × Chosen whole whole-IsIeee new_registry discovered wanted as_listed
        (refresh_cache_if_needed new_registry discovered).0
        (select_broker whole new_registry discovered wanted).1
select_broker-Chosen_example =
    select_broker-Chosen whole whole-IsIeee new_registry discovered wanted as_listed refreshed
      cached-IsSized

local_selected : (select_broker whole new_registry discovered wanted).1 ≡ ok local
unfolding select_broker choose candidates matches_criteria supports select_best select_from
    calculate_score load_score heartbeat_score refresh_cache_if_needed needs_refresh refresh_cache
    fill insert sub string_dec ◌-ℤ◌
local_selected = refl

-- The two brokers in a cache, and in the other order.
abbrev holding : Registry
holding = record new_registry { broker_cache = ("a", full) ∷ ("b", local) ∷ [] }

abbrev turned_round : Registry
turned_round = record new_registry { broker_cache = ("b", local) ∷ ("a", full) ∷ [] }

choose-serves_example :
    is_ok (choose whole holding discovered wanted) ≡ serves wanted (offer_of holding)
choose-serves_example = choose-serves whole holding discovered wanted as_listed

same_offer : offer_of holding ≡ offer_of turned_round
same_offer = Quot.sound λ b. (turns b, turns_back b)
  where
    turns : (b : Broker) → Listed b (full ∷ local ∷ []) → Listed b (local ∷ full ∷ [])
    turns b i = ∥∥₁_elim i (hlevel) (λ j. ∣ ground arith ∣₁)

    turns_back : (b : Broker) → Listed b (local ∷ full ∷ []) → Listed b (full ∷ local ∷ [])
    turns_back b i = ∥∥₁_elim i (hlevel) (λ j. ∣ ground arith ∣₁)

turned-IsSized : All IsSized (local ∷ full ∷ [])
turned-IsSized = (sized.1.0, (sized.0, tt))

holding-local : choose whole holding discovered wanted ≡ ok local
unfolding choose candidates matches_criteria supports select_best select_from calculate_score
    load_score heartbeat_score string_dec
holding-local = refl

turned-local : choose whole turned_round discovered wanted ≡ ok local
unfolding choose candidates matches_criteria supports select_best select_from calculate_score
    load_score heartbeat_score string_dec
turned-local = refl

choose-Unordered_example :
    (whole.gt
        (calculate_score whole local (seconds 1000))
        (calculate_score whole local (seconds 1000))
      ≡ false)
    × (whole.gt
          (calculate_score whole local (seconds 1000))
          (calculate_score whole local (seconds 1000))
        ≡ false)
choose-Unordered_example =
    choose-Unordered whole holding turned_round discovered discovered wanted (seconds 1000) local
      local whole-IsIeee as_listed as_listed sized turned-IsSized (λ i. refl) (λ i. refl) same_offer
      holding-local turned-local
