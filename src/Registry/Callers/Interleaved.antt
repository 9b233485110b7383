-- ===== src/Registry/Callers/Interleaved.antt =====
-- What holds of the calls of `SelectBroker` however their turns are interleaved.
use kidp.Prelude.{ℕ, eqb, ◌≡◌, refl, sym, ◌∙◌, ap, subst, ◌⊎◌, inl, inr, Bool-cases, arith}
use kidp.Prelude.{List, [], ◌∷◌, In, String, Dict, insert, map}
use kidp.Result.{Result, ok, err}
use kidp.Api.Broker.{Broker}
use kidp.Registry.{Floats, Registry, Discovery, SelectionCriteria, needs_refresh, refresh_cache}
use kidp.Registry.{choose, fill, cache_key, list_brokers, select_broker, refresh_cache_if_needed}
use kidp.Registry.Matching.{Suits, matches_criteria_iff}
use kidp.Registry.Choice.{In-candidates, Reorders}
use kidp.Registry.Member.{choose-In}
use kidp.Registry.Callers.{
  Phase, asking, refreshing, listed, selecting, answered, turn, after_listing, World, after_turn,
  Step, takes_turn, Steps, here, later,
}

abbrev values : Dict Broker → List Broker
values = map (λ (_, broker). broker)

In-insert :
    (k : String) (v b : Broker) (cache : Dict Broker)
    → In b (values (insert k v cache))
    → (b ≡ v) ⊎ In b (values cache)
unfolding insert
In-insert k v b [] i = ground arith
In-insert k v b ((key, old) ∷ rest) i = ground (arith, In-insert k v b rest)

In-fill :
    (b : Broker) (items : List Broker) (cache : Dict Broker)
    → In b (values (fill cache items))
    → In b items ⊎ In b (values cache)
unfolding fill
In-fill b [] cache i = inr i
In-fill b (x ∷ items) cache i =
    ground
      (arith, In-fill b items (insert (cache_key x) x cache), In-insert (cache_key x) x b cache)

-- Two turns of a call with nothing in between.
abbrev pub twice : Floats → Discovery → Phase × Registry → Phase × Registry
twice F d (p, r) = let (r', p') = turn F d p r in let (r2, p2) = turn F d p' r' in (p2, r2)

-- The four turns of one call, with nothing in between, are `select_broker`.
pub turn-select_broker :
    (F : Floats) (d : Discovery) (c : SelectionCriteria) (r : Registry)
    → twice F d (twice F d (asking c, r))
      ≡ (answered c (select_broker F r d c).1, (select_broker F r d c).0)
unfolding turn select_broker refresh_cache_if_needed refresh_cache
turn-select_broker F d c r = ground arith

abbrev pub criteria_of : Phase → SelectionCriteria
criteria_of (asking c) = c
criteria_of (refreshing c) = c
criteria_of (listed c items) = c
criteria_of (selecting c) = c
criteria_of (answered c answer) = c

module _ (L : List Broker → Type 0) (first : Registry) where
  -- The cache is the first one, or what one listing has filled.
  abbrev pub IsOneListing : Registry → Type 0
  IsOneListing r =
      (r.broker_cache ≡ first.broker_cache)
      ⊎ ((items : List Broker) × L items × (r.broker_cache ≡ fill [] items))

  -- The broker was in the first cache or in a listing.
  abbrev pub IsKnown : Broker → Type 0
  IsKnown b = In b (list_brokers first) ⊎ ((items : List Broker) × L items × In b items)

  abbrev IsAnswer : SelectionCriteria → Result Broker → Type 0
  IsAnswer c (ok b) = Suits b c × IsKnown b
  IsAnswer c (err e) = Unit

  abbrev IsSound : Phase → Type 0
  IsSound (asking c) = Unit
  IsSound (refreshing c) = Unit
  IsSound (listed c items) = L items
  IsSound (selecting c) = Unit
  IsSound (answered c answer) = IsAnswer c answer

  cached-IsKnown : (r : Registry) (b : Broker) → IsOneListing r → In b (list_brokers r) → IsKnown b
  cached-IsKnown r b (inl q) i = inl (subst (λ cache. In b (values cache)) q i)
  cached-IsKnown r b (inr (items, l, q)) i =
      elim (In-fill b items [] (subst (λ cache. In b (values cache)) q i)) [
        | inl j ↦ inr (items, l, j)
        | inr j ↦ elim j [ ]
      ]

  choose-IsAnswer :
      (F : Floats) (d : Discovery) (c : SelectionCriteria) (r : Registry)
      → Reorders d.order
      → IsOneListing r
      → IsAnswer c (choose F r d c)
  choose-IsAnswer F d c r reorders o = go (choose F r d c) refl
    where
      go : (answer : Result Broker) → choose F r d c ≡ answer → IsAnswer c answer
      go (err e) q = tt
      go (ok b) q =
          let (i, m) = (In-candidates c (d.order (list_brokers r)) b).0 (choose-In F r d c b q) in
          ((matches_criteria_iff b c).0 m, cached-IsKnown r b o ((reorders (list_brokers r) b).0 i))

  after_listing-IsSound :
      (c : SelectionCriteria) (listing : Result (List Broker))
      → ((items : List Broker) → listing ≡ ok items → L items)
      → IsSound (after_listing c listing)
  after_listing-IsSound c (ok items) admits = admits items refl
  after_listing-IsSound c (err e) admits = tt

  turn-IsSound :
      (F : Floats) (d : Discovery) (p : Phase) (r : Registry)
      → Reorders d.order
      → ((items : List Broker) → d.listing ≡ ok items → L items)
      → IsOneListing r
      → IsSound p
      → IsOneListing (turn F d p r).0
        × IsSound (turn F d p r).1
        × (criteria_of (turn F d p r).1 ≡ criteria_of p)
  unfolding turn refresh_cache
  turn-IsSound F d (asking c) r reorders admits o s =
      elim (Bool-cases (needs_refresh r (d.clock 0))) [
        | inl q ↦ rw q (o, tt, refl)
        | inr q ↦ rw q (o, tt, refl)
      ]
  turn-IsSound F d (refreshing c) r reorders admits o s =
      (o, after_listing-IsSound c d.listing admits, asked d.listing)
    where
      asked : (listing : Result (List Broker)) → criteria_of (after_listing c listing) ≡ c
      asked (ok items) = refl
      asked (err e) = refl
  turn-IsSound F d (listed c items) r reorders admits o s = (inr (items, s, refl), tt, refl)
  turn-IsSound F d (selecting c) r reorders admits o s =
      (o, choose-IsAnswer F d c r reorders o, refl)
  turn-IsSound F d (answered c answer) r reorders admits o s = (o, s, refl)

module _ (F : Floats) (L : List Broker → Type 0) (w : World) where
  abbrev Kept : World → Type 0
  Kept v =
      IsOneListing L w.registry v.registry
      × ((i : ℕ)
          → IsSound L w.registry (v.phase i) × (criteria_of (v.phase i) ≡ criteria_of (w.phase i)))

  after_turn-Kept :
      (v : World) (i : ℕ) (d : Discovery)
      → Reorders d.order
      → ((items : List Broker) → d.listing ≡ ok items → L items)
      → Kept v
      → Kept (after_turn F i d v)
  after_turn-Kept v i d reorders admits (o, phases) =
      let (p, same) = phases i in
      let (o', p', same') =
        turn-IsSound L w.registry F d (v.phase i) v.registry reorders admits o p in
      (
        o',
        λ j. elim (Bool-cases (eqb i j)) [
          | inr q ↦ rw q (phases j)
          | inl q ↦ rw q (p', same' ∙ same ∙ ap (λ k. criteria_of (w.phase k)) (ground arith))
        ],
      )

  Step-Kept : {u v : World} → Step F L u v → Kept u → Kept v
  Step-Kept (takes_turn i d reorders admits q) k =
      subst Kept (sym q) (after_turn-Kept _ i d reorders admits k)

  Steps-Kept : {v : World} → Kept w → Steps F L w v → Kept v
  Steps-Kept k here = k
  Steps-Kept k (later r st) = Step-Kept st (Steps-Kept k r)

-- However the calls of `SelectBroker` are interleaved that start together, the cache is always what
-- one listing has filled or still the first one, and a broker that a call answers with suits what
-- that call has asked for and comes from one of these listings or the first cache. The map's order
-- is any order, and `L` holds of what the API server lists.
pub select_broker-interleaved :
    (F : Floats) (L : List Broker → Type 0) (w v : World)
    → ((i : ℕ) → (c : SelectionCriteria) × (w.phase i ≡ asking c))
    → Steps F L w v
    → IsOneListing L w.registry v.registry
      × ((i : ℕ) (c : SelectionCriteria) (b : Broker)
          → v.phase i ≡ answered c (ok b)
          → (w.phase i ≡ asking c) × Suits b c × IsKnown L w.registry b)
select_broker-interleaved F L w v start steps =
    let (o, phases) = Steps-Kept F L w (inl refl, λ i. begun i (start i)) steps in
    (o, λ i c b q. found i c b q (start i) (phases i))
  where
    begun :
        (i : ℕ)
        → ((c : SelectionCriteria) × (w.phase i ≡ asking c))
        → IsSound L w.registry (w.phase i) × (criteria_of (w.phase i) ≡ criteria_of (w.phase i))
    begun i (c, q) = rw q (tt, refl)

    found :
        (i : ℕ) (c : SelectionCriteria) (b : Broker)
        → v.phase i ≡ answered c (ok b)
        → ((x : SelectionCriteria) × (w.phase i ≡ asking x))
        → IsSound L w.registry (v.phase i) × (criteria_of (v.phase i) ≡ criteria_of (w.phase i))
        → (w.phase i ≡ asking c) × Suits b c × IsKnown L w.registry b
    found i c b q (x, asks) (sound, same) =
        let (suits, known) = subst (IsSound L w.registry) q sound in
        (
          asks ∙ ap asking (sym (ap criteria_of (sym q) ∙ same ∙ ap criteria_of asks) ∙ refl),
          suits,
          known,
        )
