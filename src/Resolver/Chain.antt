-- ===== src/Resolver/Chain.antt =====
-- Tenant resolution against chains of owners.
use kidp.Prelude.{ℕ, zero, suc, ◌≤◌, ◌<◌, String, ◌≡◌, refl, sym, ◌∙◌, ◌↔◌, inl, inr}
use kidp.Prelude.{Option, none, some, Option-cases, arith}
use kidp.Result.{Result, ok, err, Error}
use kidp.Api.Tenant.{Tenant}
use kidp.Client.{Object}
use kidp.Resolver.{Reader, cluster_key, named_tenant, owner_of}
use kidp.Resolver.{labelled_tenant, resolve_owner, resolve_step, resolve_from, resolve_tenant}
use kidp.Resolver.Owners.{
  NamesNone, OwnedBy, Anchors, named_tenant-some, named_tenant-none, owner_of-ok,
}
use kidp.Resolver.Owners.{owner_of-none, labelled_tenant-ok}

module _ (R : Reader) where
  -- `n` owners up from the object stands one that leads to the tenant.
  pub data Chain : ℕ → Object → Tenant → Type 0 where
    anchor : {o : Object} {t : Tenant} → Anchors R o t → Chain zero o t
    up :
        {n : ℕ} {o p : Object} {t : Tenant}
        → NamesNone o
        → OwnedBy R o p
        → Chain n p t
        → Chain (suc n) o t

module _ (R : Reader) where
  resolve_named :
      (resolve : Object → Result Tenant) (o : Object) (n : String) (t : Tenant)
      → (resolve_step R resolve o (some n) ≡ ok t) ↔ (R.get_tenant (cluster_key n) ≡ ok t)
  unfolding resolve_step
  resolve_named resolve o n t = ground arith

  resolve_named_from :
      (levels : ℕ) (o : Object) (n : String)
      → named_tenant o ≡ some n
      → resolve_from R (suc levels) o ≡ resolve_step R (resolve_from R levels) o (some n)
  unfolding resolve_from
  resolve_named_from levels o n e = rw e

  resolve_unnamed :
      (levels : ℕ) (o : Object)
      → named_tenant o ≡ none
      → resolve_from R (suc levels) o ≡ resolve_owner R (resolve_from R levels) o (owner_of R o)
  unfolding resolve_from
  resolve_unnamed levels o e = rw (e, resolve_step)

  resolve_labelled :
      (levels : ℕ) (o : Object)
      → named_tenant o ≡ none
      → owner_of R o ≡ none
      → resolve_from R (suc levels) o ≡ labelled_tenant R o
  unfolding resolve_owner
  resolve_labelled levels o e f = resolve_unnamed levels o e ∙ rw (f, resolve_owner)

  pub resolve_owned :
      (levels : ℕ) (o p : Object)
      → named_tenant o ≡ none
      → owner_of R o ≡ some (ok p)
      → resolve_from R (suc levels) o ≡ resolve_from R levels p
  unfolding resolve_owner
  resolve_owned levels o p e f = resolve_unnamed levels o e ∙ rw (f, resolve_owner)

  resolve_lost :
      (levels : ℕ) (o : Object) (x : Error)
      → named_tenant o ≡ none
      → owner_of R o ≡ some (err x)
      → resolve_from R (suc levels) o ≡ err x
  unfolding resolve_owner
  resolve_lost levels o x e f = resolve_unnamed levels o e ∙ rw (f, resolve_owner)

  resolve_anchored :
      (levels : ℕ) (o : Object) (t : Tenant) → Anchors R o t → resolve_from R (suc levels) o ≡ ok t
  resolve_anchored levels o t (n, inl names, q) =
      resolve_named_from levels o n ((named_tenant-some o n).1 names)
      ∙ (resolve_named (resolve_from R levels) o n t).1 q
  resolve_anchored levels o t (n, inr (none_named, alone, label), q) =
      resolve_labelled levels o ((named_tenant-none o).1 none_named) ((owner_of-none R o).1 alone)
      ∙ (labelled_tenant-ok R o t).1 (n, label, q)

  -- A chain that is shorter than the levels is followed to its end.
  resolve_from-Chain :
      {n : ℕ} {o : Object} {t : Tenant}
      → Chain R n o t
      → (levels : ℕ) → n < levels
      → resolve_from R levels o ≡ ok t
  resolve_from-Chain (anchor a) zero h = absurd (omega arith)
  resolve_from-Chain {o} {t} (anchor a) (suc levels) h = resolve_anchored levels o t a
  resolve_from-Chain (up u w c) zero h = absurd (omega arith)
  resolve_from-Chain {o} (up {p = p} u w c) (suc levels) h =
      resolve_owned levels o p ((named_tenant-none o).1 u) ((owner_of-ok R o p).1 w)
      ∙ resolve_from-Chain c levels (omega arith)

  -- A tenant that is found stands at the end of a chain that is shorter than the levels.
  Chain-resolve_from :
      (levels : ℕ) (o : Object) (t : Tenant)
      → resolve_from R levels o ≡ ok t
      → (n : ℕ) × (n < levels) × Chain R n o t
  unfolding resolve_from
  Chain-resolve_from zero o t h = cc
  Chain-resolve_from (suc levels) o t h = elim (Option-cases (named_tenant o)) [
    | inr (n, e) ↦ (
      0,
      omega arith,
      anchor (
        n,
        inl ((named_tenant-some o n).0 e),
        (resolve_named (resolve_from R levels) o n t).0 (sym (resolve_named_from levels o n e) ∙ h),
      ),
    )
    | inl e ↦ unnamed (λ p. Chain-resolve_from levels p t) e (owner_of R o) refl
  ]
    where
      unnamed :
          ((p : Object) → resolve_from R levels p ≡ ok t → (n : ℕ) × (n < levels) × Chain R n p t)
          → named_tenant o ≡ none
          → (w : Option (Result Object)) → owner_of R o ≡ w
          → (n : ℕ) × (n < suc levels) × Chain R n o t
      unnamed below e none f =
          let (n, label, q) =
            (labelled_tenant-ok R o t).0 (sym (resolve_labelled levels o e f) ∙ h) in
          (
            0,
            omega arith,
            anchor (n, inr ((named_tenant-none o).0 e, (owner_of-none R o).0 f, label), q),
          )
      unnamed below e (some (err x)) f = cc (resolve_lost levels o x e f)
      unnamed below e (some (ok p)) f =
          let (n, less, c) = below p (sym (resolve_owned levels o p e f) ∙ h) in
          (suc n, omega arith, up ((named_tenant-none o).0 e) ((owner_of-ok R o p).0 f) c)

-- The tenant of an object is found exactly if a chain of at most six owners leads to an object
-- that names it, or, having no owner to follow, stands in a namespace whose label names it.
pub resolve_tenant_iff :
    (R : Reader) (o : Object) (t : Tenant)
    → (resolve_tenant R o ≡ ok t) ↔ ((n : ℕ) × (n ≤ 6) × Chain R n o t)
unfolding resolve_tenant
resolve_tenant_iff R o t = (
  λ h. let (n, less, c) = Chain-resolve_from R 7 o t h in (n, omega arith, c),
  λ (n, less, c). resolve_from-Chain R c 7 (omega arith),
)
