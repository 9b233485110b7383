-- ===== src/Registry/Unordered/Scores.antt =====
-- The scores of the brokers that `SelectBroker` of pkg/brokerregistry/registry.go chooses from
-- caches with the same brokers.
use mathlib.Core.Logic.{∥∥₁_elim}
use kidp.Prelude.{ℕ, suc, ◌≡◌, sym, ◌∙◌, ap, subst, inl, inr, true, false}
use kidp.Prelude.{List, [], ◌∷◌, In, All}
use kidp.Result.{Result, ok, err}
use kidp.Api.Meta.{Float64, Time}
use kidp.Api.Broker.{Broker}
use kidp.Registry.{
  Floats, Registry, Discovery, SelectionCriteria, matches_criteria, choose, calculate_score,
  list_brokers, no_broker_found,
}
use kidp.Registry.Matching.{matches_criteria_iff}
use kidp.Registry.Score.{IsIeee, IsSized}
use kidp.Registry.Selection.{scored, IsBest}
use kidp.Registry.Choice.{Reorders, choose-Chosen}
use kidp.Registry.Unordered.{offer_of, offer_of-exact, filtered, In-filtered}

module _ (F : Floats) (clock : ℕ → Time) (now : Time) (still : (i : ℕ) → clock i ≡ now) where
  -- While the clock stands still, each broker has the score of that time.
  scored_now :
      (i : ℕ) (bs : List Broker) (b : Broker) (s : Float64)
      → In (b, s) (scored F clock i bs)
      → s ≡ calculate_score F b now
  scored_now i [] b s there = elim there [ ]
  scored_now i (x ∷ bs) b s (inl e) =
      ap (λ (p : Broker × Float64). p.1) e
      ∙ ap (λ t. calculate_score F x t) (still i)
      ∙ ap (λ (p : Broker × Float64). calculate_score F p.0 now) (sym e)
  scored_now i (x ∷ bs) b s (inr there) = scored_now (suc i) bs b s there

  unbeaten :
      (i : ℕ) (bs : List Broker) (s : Float64) (b : Broker)
      → All (λ (p : Broker × Float64). F.gt p.1 s ≡ false) (scored F clock i bs)
      → In b bs
      → F.gt (calculate_score F b now) s ≡ false
  unbeaten i [] s b a there = elim there [ ]
  unbeaten i (x ∷ bs) s b (least, a) (inl e) =
      ap (λ y. F.gt (calculate_score F y now) s) e
      ∙ ap (λ t. F.gt (calculate_score F x t) s) (sym (still i))
      ∙ least
  unbeaten i (x ∷ bs) s b (least, a) (inr there) = unbeaten (suc i) bs s b a there

module _ (F : Floats) (L : IsIeee F) (r : Registry) (d : Discovery) (c : SelectionCriteria)
    (reorders : Reorders d.order) (sized : All IsSized (d.order (list_brokers r))) (now : Time)
    (still : (i : ℕ) → d.clock i ≡ now) (b : Broker) (chosen : choose F r d c ≡ ok b) where
  -- The chosen broker with what `choose-Chosen` says of it.
  chosen-IsBest :
      In b (list_brokers r)
      × (matches_criteria b c ≡ true)
      × IsBest F b (scored F (λ i. d.clock (suc (suc i))) 0 (filtered F r d c reorders))
  chosen-IsBest = elim (choose-Chosen F L r d c reorders r sized) [
    | inl (x, q, i, suits, best) ↦
        subst
          (λ y.
            In y (list_brokers r)
            × (matches_criteria y c ≡ true)
            × IsBest F y (scored F (λ i. d.clock (suc (suc i))) 0 (filtered F r d c reorders)))
          (same (sym q ∙ chosen)) (i, (matches_criteria_iff x c).1 suits, best)
    | inr (q, n) ↦ elim (not_both (sym q ∙ chosen)) [ ]
  ]
    where
      same : {x y : Broker} → ◌≡◌ {A = Result Broker} (ok x) (ok y) → x ≡ y
      same q = cc

      not_both : {x : Broker} → ◌≡◌ {A = Result Broker} (err (no_broker_found c)) (ok x) → ⊥
      not_both q = cc

  outscored_by_none :
      (x : Broker)
      → In x (list_brokers r)
      → matches_criteria x c ≡ true
      → F.gt (calculate_score F x now) (calculate_score F b now) ≡ false
  outscored_by_none x i m =
      let (j, n, (s, there, least)) = chosen-IsBest in
      subst (λ t. F.gt (calculate_score F x now) t ≡ false)
        (scored_now F (λ i. d.clock (suc (suc i))) now (λ i. still (suc (suc i))) 0
          (filtered F r d c reorders) b s there)
        (unbeaten F (λ i. d.clock (suc (suc i))) now (λ i. still (suc (suc i))) 0
          (filtered F r d c reorders) s x least ((In-filtered F r d c reorders x).1 (i, m)))

-- Two caches with the same brokers, kept and walked in whatever orders, give brokers of which
-- neither outscores the other: where both choose one, each walk visits each broker of its cache,
-- the clock shows the same time at every reading, priorities and counts are `int32` values, and
-- floating-point arithmetic is IEEE 754's.
pub choose-Unordered :
    (F : Floats) (r r' : Registry) (d d' : Discovery) (c : SelectionCriteria) (now : Time)
    (b b' : Broker)
    → IsIeee F
    → Reorders d.order
    → Reorders d'.order
    → All IsSized (d.order (list_brokers r))
    → All IsSized (d'.order (list_brokers r'))
    → ((i : ℕ) → d.clock i ≡ now)
    → ((i : ℕ) → d'.clock i ≡ now)
    → offer_of r ≡ offer_of r'
    → choose F r d c ≡ ok b
    → choose F r' d' c ≡ ok b'
    → (F.gt (calculate_score F b' now) (calculate_score F b now) ≡ false)
      × (F.gt (calculate_score F b now) (calculate_score F b' now) ≡ false)
choose-Unordered F r r' d d' c now b b' L order order' sized sized' still still' offered q q' =
    let (i, m, best) = chosen-IsBest F L r d c order sized now still b q in
    let (i', m', best') = chosen-IsBest F L r' d' c order' sized' now still' b' q' in
    let to = offer_of-exact r r' offered b in
    let from = offer_of-exact r r' offered b' in
    (
      ∥∥₁_elim (from.1 ∣ i' ∣₁) (hlevel)
          (λ j. outscored_by_none F L r d c order sized now still b q b' j m'),
      ∥∥₁_elim (to.0 ∣ i ∣₁) (hlevel)
          (λ j. outscored_by_none F L r' d' c order' sized' now still' b' q' b j m),
    )
