-- ===== src/Resolver/Cycle.antt =====
-- Objects that own one another.
use kidp.Prelude.{ℕ, zero, suc, ◌≡◌, refl, ◌∙◌}
use kidp.Result.{err, errorf}
use kidp.Client.{Object}
use kidp.Resolver.{Reader, resolve_from, resolve_tenant}
use kidp.Resolver.Owners.{NamesNone, OwnedBy, named_tenant-none, owner_of-ok}
use kidp.Resolver.Chain.{resolve_owned}

module _ (R : Reader) (P : Object → Type 0)
    (closed : (o : Object) → P o → (p : Object) × NamesNone o × OwnedBy R o p × P p) where
  resolve_from_endless :
      (levels : ℕ) (o : Object)
      → P o
      → resolve_from R levels o ≡ err (errorf "tenant resolution exceeded max depth")
  unfolding resolve_from
  resolve_from_endless zero o h = refl
  resolve_from_endless (suc levels) o h =
      let (p, none_named, owned, h') = closed o h in
      resolve_owned R levels o p ((named_tenant-none o).1 none_named) ((owner_of-ok R o p).1 owned)
      ∙ resolve_from_endless levels p h'

  -- Where every object of a set names no tenant and has its owner in the set, as in a cycle of
  -- owners, the resolution of each ends with the error about the depth.
  pub resolve_tenant_endless :
      (o : Object) → P o → resolve_tenant R o ≡ err (errorf "tenant resolution exceeded max depth")
  unfolding resolve_tenant
  resolve_tenant_endless o h = resolve_from_endless 7 o h
