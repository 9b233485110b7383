-- ===== src/Registry/Choice.antt =====
-- `SelectBroker` of pkg/brokerregistry/registry.go as a whole.
use kidp.Prelude.{ℕ, suc, ◌≡◌, refl, ◌↔◌, ◌⊎◌, inl, inr, true, Bool-cases, Option-cases, subst, sym}
use kidp.Prelude.{none, List, [], ◌∷◌, In, All, arith}
use kidp.Result.{Result, ok, err}
use kidp.Api.Meta.{Time}
use kidp.Api.Broker.{Broker}
use kidp.Registry.{Floats, Registry, Discovery, SelectionCriteria, candidates, select_best}
use kidp.Registry.{matches_criteria, choose, list_brokers, select_broker, refresh_cache_if_needed}
use kidp.Registry.{no_broker_found}
use kidp.Registry.Matching.{Suits, matches_criteria_iff}
use kidp.Registry.Score.{IsIeee, IsSized}
use kidp.Registry.Selection.{IsBest, scored, select_best-IsBest, In-scored}

pub In-candidates :
    (c : SelectionCriteria) (bs : List Broker) (b : Broker)
    → In b (candidates c bs) ↔ (In b bs × (matches_criteria b c ≡ true))
unfolding candidates
In-candidates c [] b = (λ i. elim i [ ], λ p. elim p.0 [ ])
In-candidates c (x ∷ bs) b = elim (Bool-cases (matches_criteria x c)) [
  | inl e ↦ rw e (ground (arith, In-candidates c bs b))
  | inr e ↦ rw e (ground (arith, In-candidates c bs b))
]

All-candidates :
    (c : SelectionCriteria) (bs : List Broker) → All IsSized bs → All IsSized (candidates c bs)
unfolding candidates
All-candidates c [] h = tt
All-candidates c (x ∷ bs) (s, h) = elim (Bool-cases (matches_criteria x c)) [
  | inl e ↦ rw e (s, All-candidates c bs h)
  | inr e ↦ rw e (All-candidates c bs h)
]

-- Go's `range` over a map visits each entry, in an order of its own.
abbrev pub Reorders : (List Broker → List Broker) → Type 0
Reorders order = (bs : List Broker) (b : Broker) → In b (order bs) ↔ In b bs

pub select_broker_fresh :
    (F : Floats) (r : Registry) (d : Discovery) (c : SelectionCriteria)
    → (refresh_cache_if_needed r d).1 ≡ none
    → (select_broker F r d c).1 ≡ choose F (refresh_cache_if_needed r d).0 d c
unfolding select_broker
select_broker_fresh F r d c e = rw (e, select_broker)

pub select_broker_cached :
    (F : Floats) (r : Registry) (d : Discovery) (c : SelectionCriteria)
    → (select_broker F r d c).0 ≡ (refresh_cache_if_needed r d).0
unfolding select_broker
select_broker_cached F r d c = refl

module _ (F : Floats) (L : IsIeee F) (r : Registry) (d : Discovery) (c : SelectionCriteria)
    (reorders : Reorders d.order) where
  -- What the selection computes from the cache of `cached`, under the read lock.
  abbrev pub Chosen : Registry → Result Broker → Type 0
  Chosen cached result =
      ((b : Broker) × (result ≡ ok b)
        × In b (list_brokers cached)
        × Suits b c
        × IsBest F b (
            scored F (λ i. d.clock (suc (suc i))) 0 (candidates c (d.order (list_brokers cached)))))
      ⊎ ((result ≡ err (no_broker_found c))
          × ((b : Broker) → In b (list_brokers cached) → ¬ Suits b c))

  none_suit :
      (cached : Registry)
      → candidates c (d.order (list_brokers cached)) ≡ []
      → (b : Broker) → In b (list_brokers cached)
      → ¬ Suits b c
  none_suit cached e b i s =
      subst (λ bs. In b bs) e
        ((In-candidates c (d.order (list_brokers cached)) b).1
          ((reorders (list_brokers cached) b).1 i, (matches_criteria_iff b c).1 s))

  select_best-none : (clock : ℕ → Time) (bs : List Broker) → select_best F clock bs ≡ none → bs ≡ []
  unfolding select_best
  select_best-none clock [] h = refl
  select_best-none clock (b ∷ bs) h = cc

  fits :
      (cached : Registry) (b : Broker)
      → In b (candidates c (d.order (list_brokers cached)))
      → In b (list_brokers cached) × Suits b c
  fits cached b i =
      let (j, m) = (In-candidates c (d.order (list_brokers cached)) b).0 i in
      ((reorders (list_brokers cached) b).0 j, (matches_criteria_iff b c).0 m)

  pub choose-Chosen :
      (cached : Registry)
      → All IsSized (d.order (list_brokers cached))
      → Chosen cached (choose F cached d c)
  unfolding choose
  choose-Chosen cached sized =
      let clock : ℕ → Time = λ i. d.clock (suc (suc i)) in
      let cs = candidates c (d.order (list_brokers cached)) in
      elim (Option-cases (select_best F clock cs)) [
        | inl e ↦ rw (e, choose) (inr (refl, none_suit cached (select_best-none clock cs e)))
        | inr (b, e) ↦
            let best = select_best-IsBest F L clock cs b (All-candidates c _ sized) e in
            let (i, s) = fits cached b (In-scored F clock 0 cs b best.0 best.1) in
            rw (e, choose) (inl (b, refl, i, s, best))
      ]

  -- Where the cache is fresh or its refresh succeeds, the answer is a cached broker that suits the
  -- criteria and that no other suitable one outscores, or an error, and then no cached broker
  -- suits. Listed brokers have `int32` priorities and counts, and the map's order is any order.
  pub select_broker-Chosen :
      (refresh_cache_if_needed r d).1 ≡ none
      → All IsSized (d.order (list_brokers (refresh_cache_if_needed r d).0))
      → ((select_broker F r d c).0 ≡ (refresh_cache_if_needed r d).0)
        × Chosen (refresh_cache_if_needed r d).0 (select_broker F r d c).1
  select_broker-Chosen e sized =
      let cached = (refresh_cache_if_needed r d).0 in
      (
        select_broker_cached F r d c,
        subst (Chosen cached) (sym (select_broker_fresh F r d c e)) (choose-Chosen cached sized),
      )
