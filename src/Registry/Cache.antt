-- ===== src/Registry/Cache.antt =====
-- `RefreshCache` and `refreshCacheIfNeeded` of pkg/brokerregistry/registry.go.
use mathlib.Core.Option.{or_else}
use kidp.Prelude.{String, ◌==◌, ◌≡◌, refl, ◌↔◌, false, Option, none, some}
use kidp.Prelude.{
  List, [], ◌∷◌, ◌≤ℤ◌, ◌-ℤ◌, Dict, lookup, insert, lookup-insert, arith, if◌then◌else◌,
}
use kidp.Result.{ok, err, Error}
use kidp.Api.Meta.{Time}
use kidp.Api.Broker.{Broker}
use kidp.Time.{seconds, lt_ℤ-sub}
use kidp.Registry.{Registry, Discovery, cache_key, fill, refresh_cache, needs_refresh}
use kidp.Registry.{refresh_cache_if_needed}

-- The last listed broker with the key: a later item replaces an earlier one.
abbrev pub last_with : String → List Broker → Option Broker
last_with k [] = none
last_with k (b ∷ rest) = elim (last_with k rest) [
  | some later ↦ some later
  | none ↦ if cache_key b == k then some b else none
]

lookup-fill :
    (k : String) (items : List Broker) (cache : Dict Broker)
    → lookup k (fill cache items) ≡ or_else (last_with k items) (lookup k cache)
unfolding fill or_else
lookup-fill k [] cache = refl
lookup-fill k (b ∷ rest) cache = ground (
  arith,
  lookup-fill k rest (insert (cache_key b) b cache),
  lookup-insert (cache_key b) k b cache,
)

lookup-nil : (k : String) → lookup {V = Broker} k [] ≡ none
unfolding lookup
lookup-nil k = refl

-- After a refresh the cache holds, under each key, the last listed broker with that key, and
-- nothing else: what it held before is gone.
pub lookup-refresh_cache :
    (r : Registry) (items : List Broker) (now : Time) (k : String)
    → lookup k (refresh_cache r (ok items) now).0.broker_cache ≡ last_with k items
unfolding refresh_cache or_else
lookup-refresh_cache r items now k = ground (arith, lookup-fill k items [], lookup-nil k)

-- A refresh that fails to list leaves the registry as it was.
pub refresh_cache_failed :
    (r : Registry) (d : Discovery) (e : Error)
    → d.listing ≡ err e
    → (refresh_cache_if_needed r d).0 ≡ r
unfolding refresh_cache_if_needed
refresh_cache_failed r d e h = ground arith

-- The cache is trusted exactly while its age is at most its timeout of thirty seconds.
pub needs_refresh_iff_stale :
    (r : Registry) (now : Time)
    → r.cache_timeout ≡ seconds 30
    → (needs_refresh r now ≡ false) ↔ ((now -ℤ r.last_refresh) ≤ℤ seconds 30)
unfolding needs_refresh
needs_refresh_iff_stale r now h =
    ground (arith, lt_ℤ-sub 30_000_000_000 now r.last_refresh (omega arith))
