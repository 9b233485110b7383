-- ===== src/Prelude/Lists.antt =====
-- Lists measured by native numbers, predicates on lists, and maps with text keys.
use Prim.Native.Nat.{ℕ, zero, suc}
use Prim.Native.String.{String}
use mathlib.Core.Path.{◌≡◌, refl}
use mathlib.Core.Logic.{◌⊎◌}
use mathlib.Core.Bool.{Bool, false, ◌||◌}
use mathlib.Core.Option.{Option, none, some}
use mathlib.Core.List.{List, [], ◌∷◌}
use native.Mathlib.Omega.{arith}
use kidp.Prelude.Tests.{◌==◌, if◌then◌else◌}

module _ {ℓ} {A : Type ℓ} where
  abbrev pub length : List A → ℕ
  length [] = 0
  length (x ∷ xs) = suc (length xs)

  abbrev pub get_elem? : List A → ℕ → Option A
  get_elem? [] i = none
  get_elem? (x ∷ xs) zero = some x
  get_elem? (x ∷ xs) (suc i) = get_elem? xs i

  -- The first item that passes the test.
  abbrev pub find : (A → Bool) → List A → Option A
  find p [] = none
  find p (x ∷ xs) = if p x then some x else find p xs

  abbrev pub any : (A → Bool) → List A → Bool
  any p [] = false
  any p (x ∷ xs) = p x || any p xs

module _ {ℓ κ} {A : Type ℓ} (P : A → Type κ) where
  -- Every item has the property.
  abbrev pub All : List A → Type κ
  All [] = Unit
  All (x ∷ xs) = P x × All xs

-- `x` stands in the list, at a place that the proof shows.
abbrev pub In : {A : Type 0} → A → List A → Type 0
In x [] = ⊥
In x (y ∷ ys) = (x ≡ y) ⊎ In x ys

-- A `map[string]V`, without its order.
abbrev pub Dict {ℓ} : Type ℓ → Type ℓ
Dict V = List (String × V)

module _ {ℓ} {V : Type ℓ} where
  unfoldable pub lookup : String → Dict V → Option V
  lookup asked [] = none
  lookup asked ((key, value) ∷ rest) = if key == asked then some value else lookup asked rest

  -- `m[k] = v`
  unfoldable pub insert : String → V → Dict V → Dict V
  insert new value [] = (new, value) ∷ []
  insert new value ((key, old) ∷ rest) =
      let kept = insert new value rest in
      if key == new then (new, value) ∷ rest else (key, old) ∷ kept

  pub lookup-insert :
      (new asked : String) (value : V) (m : Dict V)
      → (if new == asked then some value else lookup asked m) ≡ lookup asked (insert new value m)
  unfolding insert lookup
  lookup-insert new asked value [] = refl
  lookup-insert new asked value ((key, old) ∷ rest) =
      ground (arith, lookup-insert new asked value rest)

-- A text that a search does not find is not in the list.
pub not_In_of_any : (s : String) (ts : List String) → any (λ t. s == t) ts ≡ false → ¬ In s ts
not_In_of_any s [] h i = elim i [ ]
not_In_of_any s (t ∷ ts) h i = ground (arith, not_In_of_any s ts)
