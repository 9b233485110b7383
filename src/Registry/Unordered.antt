-- ===== src/Registry/Unordered.antt =====
-- `SelectBroker` of pkg/brokerregistry/registry.go on the brokers of a cache without the order in
-- which Go's `range` walks the map: lists with the same brokers are one element of a quotient.
pub mod Scores
use mathlib.Core.Logic.{∥∥₁_elim}
use mathlib.Core.Quot.{Setoid, Quotient}
use mathlib.Core.Quot.Quotient
use kidp.Prelude.{
  ℕ, suc, ◌≡◌, refl, sym, ◌∙◌, ap, subst, ◌↔◌, inl, inr, Bool, true, false, Bool-cases,
}
use kidp.Prelude.{none, some, List, [], ◌∷◌, In, All, any, arith}
use kidp.Result.{Result, ok, err}
use kidp.Api.Meta.{Float64, Time}
use kidp.Api.Broker.{Broker}
use kidp.Registry.{
  Floats, Registry, Discovery, SelectionCriteria, candidates, matches_criteria, select_best, choose,
  calculate_score, list_brokers, no_broker_found,
}
use kidp.Registry.Matching.{matches_criteria_iff}
use kidp.Registry.Score.{IsIeee, IsSized}
use kidp.Registry.Selection.{scored, IsBest}
use kidp.Registry.Choice.{Reorders, In-candidates, choose-Chosen}

-- The broker is in the list, wherever.
abbrev pub Listed : Broker → List Broker → Type 0
Listed b bs = ∥ In b bs ∥₁

abbrev SameBrokers : List Broker → List Broker → Type 0
SameBrokers xs ys = (b : Broker) → Listed b xs ↔ Listed b ys

abbrev same_brokers : Setoid {0, 0} (List Broker)
same_brokers = record {
  r = SameBrokers;
  iseqv = record {
    refl = λ xs b. (λ i. i, λ i. i);
    symm = λ xs ys h b. ((h b).1, (h b).0);
    trans = λ xs ys zs h k b. (λ i. (k b).0 ((h b).0 i), λ i. (h b).1 ((k b).1 i));
  };
}

-- Brokers without an order and without a number of times.
abbrev pub Offer : Type 0
Offer = Quotient same_brokers

abbrev pub offer_of : Registry → Offer
offer_of r = Quotient.mk same_brokers (list_brokers r)

SameBrokers-prop : (xs ys : List Broker) → IsProp (SameBrokers xs ys)
SameBrokers-prop xs ys = hlevel

offer_of-exact :
    (r r' : Registry) → offer_of r ≡ offer_of r' → SameBrokers (list_brokers r) (list_brokers r')
offer_of-exact r r' = Quotient.exact same_brokers SameBrokers-prop

module _ (c : SelectionCriteria) where
  abbrev any_matches : List Broker → Bool
  any_matches bs = any (λ b. matches_criteria b c) bs

  In-any_matches :
      (bs : List Broker) (b : Broker)
      → In b bs
      → matches_criteria b c ≡ true
      → any_matches bs ≡ true
  In-any_matches [] b i m = elim i [ ]
  In-any_matches (x ∷ bs) b (inl e) m = ground arith
  In-any_matches (x ∷ bs) b (inr i) m = ground (arith, In-any_matches bs b i m)

  any_matches-In :
      (bs : List Broker)
      → any_matches bs ≡ true
      → (b : Broker) × In b bs × (matches_criteria b c ≡ true)
  any_matches-In [] h = cc
  any_matches-In (x ∷ bs) h = elim (Bool-cases (matches_criteria x c)) [
    | inl m ↦ (x, inl refl, m)
    | inr m ↦ let (b, i, n) = any_matches-In bs (ground arith) in (b, inr i, n)
  ]

  matches_over :
      (xs ys : List Broker) → SameBrokers xs ys → any_matches xs ≡ true → any_matches ys ≡ true
  matches_over xs ys h e =
      let (b, i, m) = any_matches-In xs e in
      ∥∥₁_elim ((h b).0 ∣ i ∣₁) (hlevel) (λ j. In-any_matches ys b j m)

  pub any_matches_same : (xs ys : List Broker) → SameBrokers xs ys → any_matches xs ≡ any_matches ys
  any_matches_same xs ys h = elim (Bool-cases (any_matches xs)) [
    | inl e ↦ e ∙ sym (matches_over xs ys h e)
    | inr e ↦ elim (Bool-cases (any_matches ys)) [
      | inl f ↦ matches_over ys xs (λ b. ((h b).1, (h b).0)) f ∙ sym f
      | inr f ↦ e ∙ sym f
    ]
  ]

  -- A broker of the offer suits.
  unfoldable pub serves : Offer → Bool
  serves = Quotient.lift same_brokers (hlevel) any_matches any_matches_same

abbrev pub is_ok : Result Broker → Bool
is_ok (ok b) = true
is_ok (err e) = false

abbrev is_cons : List Broker → Bool
is_cons [] = false
is_cons (b ∷ bs) = true

module _ (F : Floats) (r : Registry) (d : Discovery) (c : SelectionCriteria)
    (reorders : Reorders d.order) where
  -- The candidates in the order of the map.
  abbrev filtered : List Broker
  filtered = candidates c (d.order (list_brokers r))

  choose-candidates : is_ok (choose F r d c) ≡ is_cons filtered
  unfolding choose select_best
  choose-candidates = go filtered
    where
      go :
          (bs : List Broker)
          → is_ok (elim (select_best F (λ i. d.clock (suc (suc i))) bs) [
            | none ↦ err (no_broker_found c)
            | some selected ↦ ok selected
          ])
            ≡ is_cons bs
      go [] = refl
      go (b ∷ bs) = refl

  candidates_any :
      (bs : List Broker)
      → ((b : Broker) → In b bs ↔ (In b (list_brokers r) × (matches_criteria b c ≡ true)))
      → is_cons bs ≡ any_matches c (list_brokers r)
  candidates_any [] h = elim (Bool-cases (any_matches c (list_brokers r))) [
    | inl e ↦ let (b, i, m) = any_matches-In c (list_brokers r) e in elim ((h b).1 (i, m)) [ ]
    | inr e ↦ sym e
  ]
  candidates_any (b ∷ bs) h =
      let (i, m) = (h b).0 (inl refl) in sym (In-any_matches c (list_brokers r) b i m)

  In-filtered :
      (b : Broker) → In b filtered ↔ (In b (list_brokers r) × (matches_criteria b c ≡ true))
  In-filtered b =
      let (one, other) = In-candidates c (d.order (list_brokers r)) b in
      let (back, forth) = reorders (list_brokers r) b in
      (λ i. (back (one i).0, (one i).1), λ (i, m). other (forth i, m))

-- Whether a broker is chosen depends on the brokers of the cache alone, and not on the order in
-- which the map is walked: if the walk visits each of them, one is chosen exactly if one of the
-- cache's brokers, as a set, suits.
pub choose-serves :
    (F : Floats) (r : Registry) (d : Discovery) (c : SelectionCriteria)
    → Reorders d.order
    → is_ok (choose F r d c) ≡ serves c (offer_of r)
unfolding serves Quotient.lift
choose-serves F r d c reorders =
    choose-candidates F r d c reorders
    ∙ candidates_any F r d c reorders (filtered F r d c reorders) (In-filtered F r d c reorders)
