-- ===== src/DeepCopy.antt =====
-- api/v1/zz_generated.deepcopy.go: the copies of the resources. Values lie in memory: a pointer, a
-- slice and a map are nil or hold an address and what is stored there, and an allocation takes the
-- next address. A slice's capacity is not modelled; an empty one gets an address like any other.
pub mod Sharing
pub mod Machinery
pub mod Shared
pub mod Application
pub mod Broker
pub mod Database
pub mod Team
pub mod Tenant
pub mod Objects
use kidp.Prelude.{ℕ, suc, String, Option, none, some, List, [], ◌∷◌, Dict, insert}

-- `*T`, `[]T` (with a list for `T`) and `map[K]V` (with a dictionary for `T`).
pub data Ref (A : Type 0) : Type 0 where
  nil : Ref A
  at : ℕ → A → Ref A

-- A computation that allocates: from the next free address to the next free one after it.
abbrev pub Alloc : Type 0 → Type 0
Alloc A = ℕ → A × ℕ

abbrev pub new : Alloc ℕ
new n = (n, suc n)

module _ {A : Type 0} where
  abbrev pub pure : A → Alloc A
  pure a n = (a, n)

module _ {A B : Type 0} where
  infixl 5 ◌>>=◌
  abbrev pub ◌>>=◌ : Alloc A → (A → Alloc B) → Alloc B
  (m >>= k) n = k (m n).0 (m n).1

module _ {A : Type 0} where
  -- `if in.F != nil { *out = new(T); (*in).DeepCopyInto(*out) }`, the shape of every `DeepCopy`;
  -- with `pure` for the second step, `**out = **in` and `make` with `copy(*out, *in)`.
  abbrev pub copy_pointer : (A → Alloc A) → Ref A → Alloc (Ref A)
  copy_pointer into nil = pure nil
  copy_pointer into (at p a) = do q ← new; b ← into a; pure (at q b)

  -- `for i := range *in { (*in)[i].DeepCopyInto(&(*out)[i]) }`
  abbrev pub copy_each : (A → Alloc A) → List A → Alloc (List A)
  copy_each into [] = pure []
  copy_each into (a ∷ rest) = do b ← into a; others ← copy_each into rest; pure (b ∷ others)

  -- `if c := in.DeepCopy(); c != nil { return c }; return nil`: an interface that is nil for a nil
  -- pointer, and never one that holds a nil pointer.
  abbrev pub as_object : Ref A → Option (Ref A)
  as_object nil = none
  as_object (at p a) = some (at p a)

-- `for key, val := range *in { (*out)[key] = val }`, in one of the orders that `range` may take.
abbrev pub assign_each : Dict String → Dict String
assign_each [] = []
assign_each ((key, val) ∷ rest) = insert key val (assign_each rest)

abbrev pub copy_map : Ref (Dict String) → Alloc (Ref (Dict String))
copy_map = copy_pointer (λ m. pure (assign_each m))
