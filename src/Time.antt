-- ===== src/Time.antt =====
-- Go's `time` package as far as the program uses it: durations in nanoseconds, and differences of
-- instants, which saturate at the bounds of `int64`.
use kidp.Prelude.{ℕ, pos, negsuc, ◌*◌, ◌-ℤ◌, ◌<◌, ◌≡◌, lt_ℤ, if◌then◌else◌, arith}
use kidp.Api.Meta.{Time, Duration}

abbrev pub seconds : ℕ → Duration
seconds n = pos (n * 1_000_000_000)

abbrev pub minutes : ℕ → Duration
minutes n = seconds (n * 60)

abbrev max_duration : Duration
max_duration = pos 9_223_372_036_854_775_807

abbrev min_duration : Duration
min_duration = negsuc 9_223_372_036_854_775_807

-- `t.Sub(u)`; `time.Since(u)` is `sub now u`, and `time.Until(u)` is `sub u now`.
unfoldable pub sub : Time → Time → Duration
sub t u =
    let d = t -ℤ u in
    if lt_ℤ max_duration d then max_duration else if lt_ℤ d min_duration then min_duration else d

-- Saturation does not change whether a difference exceeds a duration below the bound.
pub lt_ℤ-sub :
    (n : ℕ) (t u : Time)
    → n < 9_223_372_036_854_775_807
    → lt_ℤ (pos n) (sub t u) ≡ lt_ℤ (pos n) (t -ℤ u)
unfolding sub
lt_ℤ-sub n t u h = ground arith

-- Nor whether it stays below one.
pub lt_ℤ-sub_below :
    (n : ℕ) (t u : Time)
    → n < 9_223_372_036_854_775_807
    → lt_ℤ (sub t u) (pos n) ≡ lt_ℤ (t -ℤ u) (pos n)
unfolding sub
lt_ℤ-sub_below n t u h = ground arith
