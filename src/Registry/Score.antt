-- ===== src/Registry/Score.antt =====
-- `calculateScore` of pkg/brokerregistry/registry.go in float64: a score is a number, and bounded.
use kidp.Prelude.{ℕ, ◌+◌, ◌*◌, ◌≤◌, ◌^◌, ℤ, pos, pos_part, neg_part, ◌<ℤ◌, lt_ℤ}
use kidp.Prelude.{◌≡◌, inl, inr, true, false, Bool-cases, Option, none, some, arith}
use kidp.Api.Meta.{Float64, Time}
use kidp.Api.Broker.{Broker}
use kidp.Time.{sub, minutes}
use kidp.Registry.{Floats, load_score, heartbeat_score, calculate_score}

-- What IEEE 754 says of finite values: `Within n x` reads "x is a number of magnitude at most n".
-- Up to 2^53 the bounds are exact, and rounding does not pass them.
pub record IsIeee (F : Floats) : Type 1 where
  pub Within : ℕ → Float64 → Type 0
  pub widen : (m n : ℕ) (x : Float64) → m ≤ n → Within m x → Within n x
  pub within_of_int :
      (z : ℤ) (n : ℕ) → pos_part z + neg_part z ≤ n → n ≤ 2 ^ 53 → Within n (F.of_int z)
  pub within_add :
      (m n : ℕ) (x y : Float64)
      → Within m x
      → Within n y
      → m + n ≤ 2 ^ 53
      → Within (m + n) (F.add x y)
  pub within_minus :
      (m n : ℕ) (x y : Float64)
      → Within m x
      → Within n y
      → m + n ≤ 2 ^ 53
      → Within (m + n) (F.minus x y)
  pub within_mul :
      (m n : ℕ) (x y : Float64)
      → Within m x
      → Within n y
      → m * n ≤ 2 ^ 53
      → Within (m * n) (F.mul x y)
  pub within_div :
      (m : ℕ) (x : Float64) (z : ℤ)
      → Within m x
      → pos 0 <ℤ z
      → m ≤ 2 ^ 53
      → Within m (F.div x (F.of_int z))
  pub gt_irrefl : (x : Float64) → F.gt x x ≡ false
  pub gt_asym : (x y : Float64) → F.gt x y ≡ true → F.gt y x ≡ false
  -- Between numbers "not greater" is transitive; with a NaN it is not.
  pub le_trans :
      (k m n : ℕ) (x y z : Float64)
      → Within k x
      → Within m y
      → Within n z
      → F.gt x y ≡ false
      → F.gt y z ≡ false
      → F.gt x z ≡ false

-- The `int32` fields that the score reads are in the range of an `int32`.
pub record IsSized (b : Broker) : Type 0 where
  pub priority : pos_part b.spec.priority + neg_part b.spec.priority ≤ 2 ^ 31
  pub active : pos_part b.status.active_deployments + neg_part b.status.active_deployments ≤ 2 ^ 31

-- No score is greater in magnitude.
abbrev pub score_bound : ℕ
score_bound = 2 ^ 31 + (1 + 2 ^ 31) * 100 + 50

module _ (F : Floats) (L : IsIeee F) where
  open L use {Within, widen, within_of_int, within_add, within_minus, within_mul, within_div}

  load_score-Within :
      (b : Broker) (x : Float64)
      → IsSized b
      → Within (2 ^ 31) x
      → Within (2 ^ 31 + (1 + 2 ^ 31) * 100) (load_score F b x)
  unfolding load_score
  load_score-Within b x s h = elim (Bool-cases (lt_ℤ (pos 0) b.spec.max_concurrent_deployments)) [
    | inl limited ↦ rw limited (
        within_add _ _ _ _ h
          (within_mul (1 + 2 ^ 31) 100 _ _
            (within_minus 1 (2 ^ 31) _ _ (within_of_int (pos 1) 1 (omega arith) (omega arith))
              (within_div _ _ _ (within_of_int b.status.active_deployments _ s.active (omega arith))
                (ground arith) (omega arith))
              (omega arith))
            (within_of_int (pos 100) 100 (omega arith) (omega arith)) (omega arith))
          (omega arith))
    | inr unlimited ↦ rw unlimited (widen _ _ _ (omega arith) h)
  ]

  heartbeat_score-Within :
      (o : Option Time) (now : Time) (n : ℕ) (x : Float64)
      → n + 50 ≤ 2 ^ 53
      → Within n x
      → Within (n + 50) (heartbeat_score F o now x)
  unfolding heartbeat_score
  heartbeat_score-Within none now n x room h = widen _ _ _ (omega arith) h
  heartbeat_score-Within (some t) now n x room h =
      elim (Bool-cases (lt_ℤ (sub now t) (minutes 1))) [
        | inl recent ↦ rw recent (raise 50 (omega arith))
        | inr older ↦ rw older (elim (Bool-cases (lt_ℤ (sub now t) (minutes 5))) [
          | inl late ↦ rw late (raise 25 (omega arith))
          | inr stale ↦ rw stale (widen _ _ _ (omega arith) h)
        ])
      ]
    where
      raise : (k : ℕ) → k ≤ 50 → Within (n + 50) (F.add x (F.of_int (pos k)))
      raise k small =
          widen (n + k) _ _ (omega arith) (
            within_add _ _ _ _ h (within_of_int (pos k) k (omega arith) (omega arith))
              (omega arith))

  -- A score is a number, and not a NaN.
  pub score-Within :
      (b : Broker) (now : Time) → IsSized b → Within score_bound (calculate_score F b now)
  unfolding calculate_score
  score-Within b now s = heartbeat_score-Within b.status.last_heartbeat now _ _ (omega arith) (
      load_score-Within b _ s (
        within_add 0 (2 ^ 31) _ _ (within_of_int (pos 0) 0 (omega arith) (omega arith))
          (within_of_int b.spec.priority _ s.priority (omega arith)) (omega arith)))
