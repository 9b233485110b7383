-- ===== src/Registry/Available.antt =====
-- When `SelectBroker` of pkg/brokerregistry/registry.go finds a broker.
use kidp.Prelude.{ℕ, suc, String, ◌≡◌, refl, ap, subst, sym, ◌∙◌, inl, inr, true, false, Bool-cases}
use kidp.Prelude.{Option, none, some, List, [], ◌∷◌, In, map, lookup, Dict, arith}
use kidp.Result.{ok, Error}
use kidp.Api.Meta.{Time}
use kidp.Api.Broker.{Broker}
use kidp.Registry.{
  Floats, Registry, Discovery, SelectionCriteria, candidates, select_best, select_from,
  calculate_score, cache_key,
}
use kidp.Registry.{
  choose, list_brokers, select_broker, needs_refresh, refresh_cache, refresh_cache_if_needed,
}
use kidp.Registry.Matching.{Suits, matches_criteria_iff}
use kidp.Registry.Cache.{last_with, lookup-refresh_cache}
use kidp.Registry.Choice.{In-candidates, Reorders, select_broker_fresh}

-- A broker for the criteria is in the cache of the registry.
abbrev pub Stocked : SelectionCriteria → Registry → Type 0
Stocked c r = (b : Broker) × In b (list_brokers r) × Suits b c

-- A broker for the criteria is listed, and is the last listed with its namespace and name.
abbrev pub Listed : SelectionCriteria → List Broker → Type 0
Listed c items = (b : Broker) × (last_with (cache_key b) items ≡ some b) × Suits b c

lookup-In :
    (k : String) (b : Broker) (cache : Dict Broker)
    → lookup k cache ≡ some b
    → In b (map (λ (_, broker). broker) cache)
unfolding lookup
lookup-In k b [] h = cc
lookup-In k b ((key, x) ∷ rest) h = ground (arith, lookup-In k b rest)

refresh_cache-Stocked :
    (c : SelectionCriteria) (r : Registry) (items : List Broker) (now : Time)
    → Listed c items
    → Stocked c (refresh_cache r (ok items) now).0
refresh_cache-Stocked c r items now (b, last, suits) =
    (b, lookup-In (cache_key b) b _ (lookup-refresh_cache r items now (cache_key b) ∙ last), suits)

best_of_some :
    (F : Floats) (clock : ℕ → Time) (b : Broker) (bs : List Broker)
    → In b bs
    → (x : Broker) × (select_best F clock bs ≡ some x)
unfolding select_best
best_of_some F clock b [] i = elim i [ ]
best_of_some F clock b (x ∷ xs) i =
    (select_from F clock 1 x (calculate_score F x (clock 0)) xs, refl)

choose_finds :
    (F : Floats) (r : Registry) (d : Discovery) (c : SelectionCriteria)
    → Reorders d.order
    → Stocked c r
    → (b : Broker) × (choose F r d c ≡ ok b)
unfolding choose
choose_finds F r d c reorders (b, i, suits) =
    let (x, q) =
      best_of_some F (λ n. d.clock (suc (suc n))) b (candidates c (d.order (list_brokers r)))
        ((In-candidates c (d.order (list_brokers r)) b).1
          ((reorders (list_brokers r) b).1 i, (matches_criteria_iff b c).1 suits)) in
    (x, rw (q, choose))

-- Where the cache has a broker for the criteria unless it is stale, and the listing has one.
abbrev pub Available : SelectionCriteria → Registry → Discovery → Type 0
Available c r d =
    (needs_refresh r (d.clock 0) ≡ false → Stocked c r)
    × ((items : List Broker) × (d.listing ≡ ok items) × Listed c items)

refreshed-Stocked :
    (r : Registry) (d : Discovery) (c : SelectionCriteria)
    → Available c r d
    → ((refresh_cache_if_needed r d).1 ≡ none) × Stocked c (refresh_cache_if_needed r d).0
unfolding refresh_cache_if_needed
refreshed-Stocked r d c (kept, (items, listed, l)) =
    elim (Bool-cases (needs_refresh r (d.clock 0))) [
      | inr q ↦ (ground arith, subst (Stocked c) (fresh q) (kept q))
      | inl q ↦ (
        sym (ap (λ (x : Registry × Option Error). x.1) (stale q)),
        subst (λ (x : Registry × Option Error). Stocked c x.0) (stale q)
            (refresh_cache-Stocked c r items (d.clock 1) l),
      )
    ]
  where
    fresh : needs_refresh r (d.clock 0) ≡ false → r ≡ (refresh_cache_if_needed r d).0
    fresh q = ground arith

    stale :
        needs_refresh r (d.clock 0) ≡ true
        → refresh_cache r (ok items) (d.clock 1) ≡ refresh_cache_if_needed r d
    stale q = rw (listed, q, refresh_cache_if_needed)

-- The selection finds a broker.
pub select_broker_finds :
    (F : Floats) (r : Registry) (d : Discovery) (c : SelectionCriteria)
    → Reorders d.order
    → Available c r d
    → (b : Broker) × ((select_broker F r d c).1 ≡ ok b)
select_broker_finds F r d c reorders available =
    let (fresh, stocked) = refreshed-Stocked r d c available in
    let (b, q) = choose_finds F (refresh_cache_if_needed r d).0 d c reorders stocked in
    (b, select_broker_fresh F r d c fresh ∙ q)
