-- ===== src/Registry/Callers.antt =====
-- Several calls of `SelectBroker` of pkg/brokerregistry/registry.go at the same time. One turn of a
-- caller is what the code does under one hold of the lock, or the listing between two of them.
pub mod Interleaved
use kidp.Prelude.{ℕ, eqb, ◌≡◌, if◌then◌else◌}
use kidp.Prelude.{List}
use kidp.Result.{Result, ok, err, wrapf}
use kidp.Api.Broker.{Broker}
use kidp.Registry.{Floats, Registry, Discovery, SelectionCriteria, needs_refresh, refresh_cache}
use kidp.Registry.{choose}
use kidp.Registry.Choice.{Reorders}

-- How far a call has come.
pub data Phase : Type 0 where
  asking : SelectionCriteria → Phase
  refreshing : SelectionCriteria → Phase
  listed : SelectionCriteria → List Broker → Phase
  selecting : SelectionCriteria → Phase
  answered : SelectionCriteria → Result Broker → Phase

abbrev pub after_listing : SelectionCriteria → Result (List Broker) → Phase
after_listing c (ok items) = listed c items
after_listing c (err e) =
    answered c (err (wrapf "failed to refresh broker cache" (wrapf "failed to list brokers" e)))

-- One turn, with what the caller gets from outside meanwhile.
unfoldable pub turn : Floats → Discovery → Phase → Registry → Registry × Phase
turn F d (asking c) r = (r, if needs_refresh r (d.clock 0) then refreshing c else selecting c)
turn F d (refreshing c) r = (r, after_listing c d.listing)
turn F d (listed c items) r = ((refresh_cache r (ok items) (d.clock 1)).0, selecting c)
turn F d (selecting c) r = (r, answered c (choose F r d c))
turn F d (answered c answer) r = (r, answered c answer)

-- The shared registry and the callers.
pub record World : Type 0 where
  pub registry : Registry
  pub phase : ℕ → Phase

abbrev pub after_turn : Floats → ℕ → Discovery → World → World
after_turn F i d w =
    let (r, p) = turn F d (w.phase i) w.registry in
    record { registry = r; phase = λ j. if eqb i j then p else w.phase j }

-- The caller `i` has its turn; the API server lists only what `L` admits.
pub data Step (F : Floats) (L : List Broker → Type 0) (w w' : World) : Type 0 where
  takes_turn :
      (i : ℕ) (d : Discovery)
      → Reorders d.order
      → ((items : List Broker) → d.listing ≡ ok items → L items)
      → w' ≡ after_turn F i d w
      → Step F L w w'

pub data Steps (F : Floats) (L : List Broker → Type 0) (w : World) : World → Type 0 where
  here : Steps F L w w
  later : {u v : World} → Steps F L w u → Step F L u v → Steps F L w v
