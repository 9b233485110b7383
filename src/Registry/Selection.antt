-- ===== src/Registry/Selection.antt =====
-- `selectBest` and `SelectBroker` of pkg/brokerregistry/registry.go: the chosen broker fits, and
-- no candidate scores higher.
use kidp.Prelude.{ℕ, suc, ◌≡◌, refl, subst, ap, inl, inr, true, false, Bool-cases}
use kidp.Prelude.{some, List, [], ◌∷◌, In, All, arith}
use mathlib.Core.Option.{some-injective}
use kidp.Api.Meta.{Float64, Time}
use kidp.Api.Broker.{Broker}
use kidp.Registry.{Floats, calculate_score, select_from, select_best}
use kidp.Registry.Score.{IsIeee, IsSized, score_bound, score-Within}

abbrev Scored : Type 0
Scored = Broker × Float64

-- The candidates with the scores that the loop computes for them, in its order.
abbrev pub scored : Floats → (ℕ → Time) → ℕ → List Broker → List (Broker × Float64)
scored F clock i [] = []
scored F clock i (b ∷ rest) = (b, calculate_score F b (clock i)) ∷ scored F clock (suc i) rest

-- `b` is one of the scored brokers, and none of them has a greater score.
abbrev pub IsBest : Floats → Broker → List (Broker × Float64) → Type 0
IsBest F b ps = (s : Float64) × In (b, s) ps × All (λ (p : Broker × Float64). F.gt p.1 s ≡ false) ps

module _ (F : Floats) (L : IsIeee F) (clock : ℕ → Time) where
  open L use {Within, gt_irrefl, gt_asym}

  -- The same, with the score known to be a number.
  abbrev Leads : Broker → List Scored → Type 0
  Leads b ps =
      (s : Float64) × In (b, s) ps
      × All (λ (p : Scored). F.gt p.1 s ≡ false) ps
      × Within score_bound s

  number_le_trans :
      (x y z : Float64)
      → Within score_bound x
      → Within score_bound y
      → Within score_bound z
      → F.gt x y ≡ false
      → F.gt y z ≡ false
      → F.gt x z ≡ false
  number_le_trans x y z = L.le_trans _ _ _ x y z

  overtaken :
      (r best b : Broker) (score new : Float64) (ps : List Scored)
      → Within score_bound score
      → Within score_bound new
      → F.gt new score ≡ true
      → Leads r ((b, new) ∷ ps)
      → Leads r ((best, score) ∷ (b, new) ∷ ps)
  overtaken r best b score new ps ns nn greater (s, i, (g, a), n) =
      (s, inr i, (number_le_trans score new s ns nn n (gt_asym new score greater) g, (g, a)), n)

  kept :
      (r best b : Broker) (score new : Float64) (ps : List Scored)
      → Within score_bound score
      → Within score_bound new
      → F.gt new score ≡ false
      → Leads r ((best, score) ∷ ps)
      → Leads r ((best, score) ∷ (b, new) ∷ ps)
  kept r best b score new ps ns nn le (s, i, (g, a), n) =
      (s, ground arith, (g, (number_le_trans new score s nn ns n le g, a)), n)

  select_from_overtaken :
      (i : ℕ) (best : Broker) (score : Float64) (b : Broker) (rest : List Broker)
      → F.gt (calculate_score F b (clock i)) score ≡ true
      → select_from F clock (suc i) b (calculate_score F b (clock i)) rest
        ≡ select_from F clock i best score (b ∷ rest)
  unfolding select_from
  select_from_overtaken i best score b rest h = rw h

  select_from_kept :
      (i : ℕ) (best : Broker) (score : Float64) (b : Broker) (rest : List Broker)
      → F.gt (calculate_score F b (clock i)) score ≡ false
      → select_from F clock (suc i) best score rest ≡ select_from F clock i best score (b ∷ rest)
  unfolding select_from
  select_from_kept i best score b rest h = rw h

  select_from_nil :
      (i : ℕ) (best : Broker) (score : Float64) → best ≡ select_from F clock i best score []
  unfolding select_from
  select_from_nil i best score = refl

  -- `best` has beaten all that came before it; at the end the result leads them all.
  select_from-Leads :
      (i : ℕ) (best : Broker) (score : Float64) (rest : List Broker)
      → Within score_bound score
      → All IsSized rest
      → Leads (select_from F clock i best score rest) ((best, score) ∷ scored F clock i rest)
  select_from-Leads i best score [] n h =
      subst (λ r. Leads r ((best, score) ∷ [])) (select_from_nil i best score)
        (score, inl refl, (gt_irrefl score, tt), n)
  select_from-Leads i best score (b ∷ rest) n (sized, h) =
      let new = calculate_score F b (clock i) in
      let nn = score-Within F L b (clock i) sized in
      let ps = (best, score) ∷ scored F clock i (b ∷ rest) in
      elim (Bool-cases (F.gt new score)) [
        | inl greater ↦
            subst (λ r. Leads r ps) (select_from_overtaken i best score b rest greater)
              (overtaken _ best b score new _ n nn greater
                (select_from-Leads (suc i) b new rest nn h))
        | inr le ↦
            subst (λ r. Leads r ps) (select_from_kept i best score b rest le)
              (kept _ best b score new _ n nn le (select_from-Leads (suc i) best score rest n h))
      ]

  IsBest-Leads : (b : Broker) (ps : List Scored) → Leads b ps → IsBest F b ps
  IsBest-Leads b ps (s, i, a, n) = (s, i, a)

  -- Among candidates with `int32` priorities and counts the chosen one has the greatest score, of
  -- the scores that were computed one after the other as the clock went on.
  pub select_best-IsBest :
      (bs : List Broker) (b : Broker)
      → All IsSized bs
      → select_best F clock bs ≡ some b
      → IsBest F b (scored F clock 0 bs)
  unfolding select_best
  select_best-IsBest [] b h e = cc
  select_best-IsBest (first ∷ rest) b (sized, h) e =
      subst (λ r. IsBest F r (scored F clock 0 (first ∷ rest))) (some-injective _ _ e)
        (IsBest-Leads (select_from F clock 1 first (calculate_score F first (clock 0)) rest)
          ((first, calculate_score F first (clock 0)) ∷ scored F clock 1 rest)
          (select_from-Leads 1 first _ rest (score-Within F L first (clock 0) sized) h))

pub In-scored :
    (F : Floats) (clock : ℕ → Time) (i : ℕ) (bs : List Broker) (b : Broker) (s : Float64)
    → In (b, s) (scored F clock i bs)
    → In b bs
In-scored F clock i [] b s j = elim j [ ]
In-scored F clock i (x ∷ bs) b s (inl e) = inl (ap (λ (p : Scored). p.0) e)
In-scored F clock i (x ∷ bs) b s (inr j) = inr (In-scored F clock (suc i) bs b s j)
