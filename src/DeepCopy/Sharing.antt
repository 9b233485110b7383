-- ===== src/DeepCopy/Sharing.antt =====
-- What a deep copy promises: the contents of a value apart from its addresses, the addresses that
-- it reaches, and copies of parts put together to a copy of the whole.
use kidp.Prelude.{
  ℕ, suc, ◌≤◌, ◌≡◌, refl, sym, ap, subst, ◌∙◌, String, Option, none, some, List, [], ◌∷◌, ◌++◌, map,
  arith,
}
use kidp.Prelude.{Dict, lookup, lookup-insert, if◌then◌else◌, ◌==◌}
use kidp.DeepCopy.{Ref, nil, at, Alloc, pure, copy_pointer, copy_each, assign_each, copy_map}

-- How a type is read: without its addresses, and the addresses through which it can be changed, in
-- the order of the fields.
pub record Kind (A : Type 0) : Type 1 where
  pub Contents : Type 0
  pub contents : A → Contents
  pub addresses : A → List ℕ

module _ {A : Type 0} where
  -- A type without pointers.
  abbrev pub flat : Kind A
  flat = record { Contents = A; contents = λ a. a; addresses = λ a. [] }

  abbrev pub contents_at : (k : Kind A) → Ref A → Option k.Contents
  contents_at k nil = none
  contents_at k (at p a) = some (k.contents a)

  abbrev pub addresses_at : Kind A → Ref A → List ℕ
  addresses_at k nil = []
  addresses_at k (at p a) = p ∷ k.addresses a

  abbrev pub pointer : Kind A → Kind (Ref A)
  pointer k = record {
    Contents = Option k.Contents;
    contents = contents_at k;
    addresses = addresses_at k;
  }

  abbrev pub addresses_all : Kind A → List A → List ℕ
  addresses_all k [] = []
  addresses_all k (a ∷ rest) = k.addresses a ++ addresses_all k rest

  abbrev pub items : Kind A → Kind (List A)
  items k = record {
    Contents = List k.Contents;
    contents = map k.contents;
    addresses = addresses_all k;
  }

-- A map is read by its keys.
abbrev pub dictionary : Kind (Dict String)
dictionary = record {
  Contents = String → Option String;
  contents = λ m key. lookup key m;
  addresses = λ m. [];
}

module _ {A B : Type 0} where
  -- Two fields, one after the other.
  infixr 30 ◌&◌
  abbrev pub ◌&◌ : Kind A → Kind B → Kind (A × B)
  j & k = record {
    Contents = j.Contents × k.Contents;
    contents = λ f. (j.contents f.0, k.contents f.1);
    addresses = λ f. j.addresses f.0 ++ k.addresses f.1;
  }

  -- A struct by its fields.
  abbrev pub struct : (A → B) → Kind B → Kind A
  struct fields k = record {
    Contents = k.Contents;
    contents = λ a. k.contents (fields a);
    addresses = λ a. k.addresses (fields a);
  }

-- The addresses rise from `low` on and stay below `high`: they are new, and no two are the same.
abbrev pub Ascending : ℕ → List ℕ → ℕ → Type 0
Ascending low [] high = low ≤ high
Ascending low (p ∷ ps) high = (low ≤ p) × Ascending (suc p) ps high

-- A copy has the contents of the original, at addresses that were all allocated for it.
pub record IsDeepCopy {A : Type 0} (k : Kind A) (copy : A → Alloc A) : Type 0 where
  pub same_contents : (a : A) (n : ℕ) → k.contents (copy a n).0 ≡ k.contents a
  pub new_addresses : (a : A) (n : ℕ) → Ascending n (k.addresses (copy a n).0) (copy a n).1

Ascending-widen :
    (low middle high : ℕ) (ps : List ℕ)
    → low ≤ middle
    → Ascending middle ps high
    → Ascending low ps high
Ascending-widen low middle high [] below rise = ground arith
Ascending-widen low middle high (p ∷ ps) below (next, rise) = (ground arith, rise)

Ascending-append :
    (low middle high : ℕ) (ps qs : List ℕ)
    → Ascending low ps middle
    → Ascending middle qs high
    → Ascending low (ps ++ qs) high
Ascending-append low middle high [] qs below rise = Ascending-widen low middle high qs below rise
Ascending-append low middle high (p ∷ ps) qs (next, first) second =
    (next, Ascending-append (suc p) middle high ps qs first second)

module _ {A : Type 0} where
  pub flat-IsDeepCopy : IsDeepCopy (flat {A = A}) pure
  flat-IsDeepCopy = record { same_contents = λ a n. refl; new_addresses = λ a n. ground arith }

  pub pointer-IsDeepCopy :
      {k : Kind A} {into : A → Alloc A}
      → IsDeepCopy k into
      → IsDeepCopy (pointer k) (copy_pointer into)
  pointer-IsDeepCopy {k} {into} law = record { same_contents = same; new_addresses = rising }
    where
      same : (r : Ref A) (n : ℕ) → contents_at k (copy_pointer into r n).0 ≡ contents_at k r
      same nil n = refl
      same (at p a) n = ap some (law.same_contents a (suc n))

      rising :
          (r : Ref A) (n : ℕ)
          → Ascending n (addresses_at k (copy_pointer into r n).0) (copy_pointer into r n).1
      rising nil n = ground arith
      rising (at p a) n = (ground arith, law.new_addresses a (suc n))

  pub items-IsDeepCopy :
      {k : Kind A} {into : A → Alloc A} → IsDeepCopy k into → IsDeepCopy (items k) (copy_each into)
  items-IsDeepCopy {k} {into} law = record { same_contents = same; new_addresses = rising }
    where
      same : (xs : List A) (n : ℕ) → map k.contents (copy_each into xs n).0 ≡ map k.contents xs
      same [] n = refl
      same (a ∷ rest) n = λ i. law.same_contents a n i ∷ same rest (into a n).1 i

      rising :
          (xs : List A) (n : ℕ)
          → Ascending n (addresses_all k (copy_each into xs n).0) (copy_each into xs n).1
      rising [] n = ground arith
      rising (a ∷ rest) n =
          Ascending-append n (into a n).1 _ (k.addresses (into a n).0) _ (law.new_addresses a n)
            (rising rest (into a n).1)

lookup-assign_each : (m : Dict String) (key : String) → lookup key (assign_each m) ≡ lookup key m
unfolding lookup
lookup-assign_each [] key = refl
lookup-assign_each ((k, val) ∷ rest) key =
    sym (lookup-insert k key val (assign_each rest))
    ∙ ap (λ r. if k == key then some val else r) (lookup-assign_each rest key)

pub copy_map-IsDeepCopy : IsDeepCopy (pointer dictionary) copy_map
copy_map-IsDeepCopy = pointer-IsDeepCopy {into = λ m. pure (assign_each m)} (record {
  same_contents = λ m n i key. lookup-assign_each m key i;
  new_addresses = λ m n. ground arith;
})

module _ {A B : Type 0} where
  -- The copies of two fields, one after the other.
  infixr 30 ◌then◌
  abbrev pub ◌then◌ : (A → Alloc A) → (B → Alloc B) → A × B → Alloc (A × B)
  (c then d) f n = (((c f.0 n).0, (d f.1 (c f.0 n).1).0), (d f.1 (c f.0 n).1).1)

  infixr 30 ◌both◌
  pub ◌both◌ :
      {j : Kind A} {k : Kind B} {c : A → Alloc A} {d : B → Alloc B}
      → IsDeepCopy j c
      → IsDeepCopy k d
      → IsDeepCopy (j & k) (c then d)
  ◌both◌ {j} {k} {c} {d} one two = record {
    same_contents = λ f n i. (one.same_contents f.0 n i, two.same_contents f.1 (c f.0 n).1 i);
    new_addresses = λ f n.
        Ascending-append n (c f.0 n).1 _ (j.addresses (c f.0 n).0) _ (one.new_addresses f.0 n)
          (two.new_addresses f.1 (c f.0 n).1);
  }

  -- A struct is copied deeply when its fields are, one after the other.
  pub struct-IsDeepCopy :
      {fields : A → B} {k : Kind B} {copy : A → Alloc A} {c : B → Alloc B}
      → IsDeepCopy k c
      → ((a : A) (n : ℕ) → c (fields a) n ≡ (fields (copy a n).0, (copy a n).1))
      → IsDeepCopy (struct fields k) copy
  struct-IsDeepCopy {fields} {k} law step = record {
    same_contents =
        λ a n. ap (λ r. k.contents r.0) (sym (step a n)) ∙ law.same_contents (fields a) n;
    new_addresses = λ a n.
        subst (λ r. Ascending n (k.addresses r.0) r.1) (step a n) (law.new_addresses (fields a) n);
  }
