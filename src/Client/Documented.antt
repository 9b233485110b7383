-- ===== src/Client/Documented.antt =====
-- What the documentation of the Kubernetes libraries says of the functions in `Env`.
use kidp.Prelude.{String, ◌≡◌, true, false}
use kidp.Api.Meta.{ObjectMeta}
use kidp.Client.{Env}

-- controllerutil: a finalizer is in the list of finalizers, `AddFinalizer` puts it there and
-- `RemoveFinalizer` takes it out, and both leave the rest of the object alone.
pub record FinalizerLaws (env : Env) : Type 0 where
  pub contains-add :
      (m : ObjectMeta) (f : String) → env.contains_finalizer (env.add_finalizer m f) f ≡ true
  pub contains-remove :
      (m : ObjectMeta) (f : String) → env.contains_finalizer (env.remove_finalizer m f) f ≡ false
  pub contains_of_list :
      (m n : ObjectMeta) (f : String)
      → m.finalizers ≡ n.finalizers
      → env.contains_finalizer m f ≡ env.contains_finalizer n f

-- `AddFinalizer` touches nothing but the finalizers.
abbrev pub AddKeeps : Env → Type 0
AddKeeps env =
    (m : ObjectMeta) (f : String)
    → env.add_finalizer m f ≡ record m { finalizers = (env.add_finalizer m f).finalizers }
