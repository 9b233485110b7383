-- ===== src/DeepCopy/Objects.antt =====
-- The copies of the objects that clients and caches hand around: the five resources and their
-- lists.
use kidp.Prelude.{
  ℕ, suc, ◌<◌, ◌≤◌, ◌≡◌, refl, sym, subst, none, some, List, [], ◌∷◌, inl, inr, ◌⊎◌, arith,
}
use kidp.Prelude.{In, All}
use kidp.DeepCopy.{Ref, nil, at, Alloc}
use kidp.DeepCopy.Sharing.{Kind, pointer, Ascending, IsDeepCopy, pointer-IsDeepCopy}
use kidp.DeepCopy.Machinery.{Machinery}
use kidp.DeepCopy.Application.{
  kind_of_application, copy_application_into, copy_application_into-IsDeepCopy,
  kind_of_application_list, copy_application_list_into, copy_application_list_into-IsDeepCopy,
}
use kidp.DeepCopy.Broker.{
  kind_of_broker, copy_broker_into, copy_broker_into-IsDeepCopy, kind_of_broker_list,
  copy_broker_list_into, copy_broker_list_into-IsDeepCopy,
}
use kidp.DeepCopy.Database.{
  kind_of_database, copy_database_into, copy_database_into-IsDeepCopy, kind_of_database_list,
  copy_database_list_into, copy_database_list_into-IsDeepCopy,
}
use kidp.DeepCopy.Team.{
  kind_of_team, copy_team_into, copy_team_into-IsDeepCopy, kind_of_team_list, copy_team_list_into,
  copy_team_list_into-IsDeepCopy,
}
use kidp.DeepCopy.Tenant.{
  kind_of_tenant, copy_tenant_into, copy_tenant_into-IsDeepCopy, kind_of_tenant_list,
  copy_tenant_list_into, copy_tenant_list_into-IsDeepCopy,
}
use kidp.DeepCopy.Database.{HeapDatabase, copy_database_object}

-- No address twice.
abbrev pub AllDifferent : List ℕ → Type 0
AllDifferent [] = Unit
AllDifferent (p ∷ ps) = (In p ps → ⊥) × AllDifferent ps

Ascending-above : (low high p : ℕ) (ps : List ℕ) → Ascending low ps high → In p ps → low ≤ p
Ascending-above low high p [] rise there = elim there [ ]
Ascending-above low high p (q ∷ ps) (next, rise) (inl here) = subst (λ r. low ≤ r) (sym here) next
Ascending-above low high p (q ∷ ps) (next, rise) (inr there) =
    let above = Ascending-above (suc q) high p ps rise there in ground arith

Ascending-AllDifferent : (low high : ℕ) (ps : List ℕ) → Ascending low ps high → AllDifferent ps
Ascending-AllDifferent low high [] rise = tt
Ascending-AllDifferent low high (p ∷ ps) (next, rise) = (
  λ again. let above = Ascending-above (suc p) high p ps rise again in ground arith,
  Ascending-AllDifferent (suc p) high ps rise,
)

All-In : (P : ℕ → Type 0) (p : ℕ) (ps : List ℕ) → All P ps → In p ps → P p
All-In P p [] every there = elim there [ ]
All-In P p (q ∷ ps) (first, rest) (inl here) = subst P (sym here) first
All-In P p (q ∷ ps) (first, rest) (inr there) = All-In P p ps rest there

module _ {A : Type 0} where
  -- Two values with the same contents that share no address, the second without an address twice.
  pub record Separate (k : Kind A) (original copy : A) : Type 0 where
    pub same : k.contents copy ≡ k.contents original
    pub apart : (p : ℕ) → In p (k.addresses original) → In p (k.addresses copy) → ⊥
    pub different : AllDifferent (k.addresses copy)

  -- A copy made where every address of the original is taken.
  IsDeepCopy-Separate :
      {k : Kind A} {copy : A → Alloc A}
      → IsDeepCopy k copy
      → (a : A) (n : ℕ) → All (λ p. p < n) (k.addresses a)
      → Separate k a (copy a n).0
  IsDeepCopy-Separate {k} {copy} law a n taken = record {
    same = law.same_contents a n;
    apart = λ p old new.
        let below = All-In (λ q. q < n) p (k.addresses a) taken old in
        let above =
          Ascending-above n (copy a n).1 p (k.addresses (copy a n).0) (law.new_addresses a n) new in
        ground arith;
    different =
        Ascending-AllDifferent n (copy a n).1 (k.addresses (copy a n).0) (law.new_addresses a n);
  }

-- `DeepCopyInto` of each of the five resources and of their five lists copies deeply: from every
-- next free address, the result has the contents of its argument, field by field, and every address
-- that it reaches is one of those allocated by the call, none of them twice.
pub copies_of_objects-IsDeepCopy :
    (L : Machinery)
    → IsDeepCopy (kind_of_application L) (copy_application_into L)
      × IsDeepCopy (kind_of_application_list L) (copy_application_list_into L)
      × IsDeepCopy (kind_of_broker L) (copy_broker_into L)
      × IsDeepCopy (kind_of_broker_list L) (copy_broker_list_into L)
      × IsDeepCopy (kind_of_database L) (copy_database_into L)
      × IsDeepCopy (kind_of_database_list L) (copy_database_list_into L)
      × IsDeepCopy (kind_of_team L) (copy_team_into L)
      × IsDeepCopy (kind_of_team_list L) (copy_team_list_into L)
      × IsDeepCopy (kind_of_tenant L) (copy_tenant_into L)
      × IsDeepCopy (kind_of_tenant_list L) (copy_tenant_list_into L)
copies_of_objects-IsDeepCopy L = (
  copy_application_into-IsDeepCopy L,
  copy_application_list_into-IsDeepCopy L,
  copy_broker_into-IsDeepCopy L,
  copy_broker_list_into-IsDeepCopy L,
  copy_database_into-IsDeepCopy L,
  copy_database_list_into-IsDeepCopy L,
  copy_team_into-IsDeepCopy L,
  copy_team_list_into-IsDeepCopy L,
  copy_tenant_into-IsDeepCopy L,
  copy_tenant_list_into-IsDeepCopy L,
)

-- `DeepCopyObject` of a database at address `p`, called when all addresses that the database
-- reaches and its own lie below the next free one, returns a pointer to a copy: the contents are
-- the same, no address reaches into both, and the copy reaches no address twice. For a nil pointer
-- it returns the nil object.
pub copy_database_object-Separate :
    (L : Machinery) (d : Ref (HeapDatabase L)) (n : ℕ)
    → All (λ q. q < n) ((pointer (kind_of_database L)).addresses d)
    → ((d ≡ nil) × ((copy_database_object L d n).0 ≡ none))
      ⊎ ((copy : Ref (HeapDatabase L)) × ((copy_database_object L d n).0 ≡ some copy)
          × Separate (pointer (kind_of_database L)) d copy)
copy_database_object-Separate L nil n taken = inl (refl, refl)
copy_database_object-Separate L (at p d) n taken = inr (
  _,
  refl,
  IsDeepCopy-Separate (pointer-IsDeepCopy (copy_database_into-IsDeepCopy L)) (at p d) n taken,
)
