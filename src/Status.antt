-- ===== src/Status.antt =====
-- internal/controller/status.go
use kidp.Prelude.{◌≡◌, ◌↔◌, ◌⊎◌, inl, inr, true, ◌∷◌, arith}
use kidp.Prelude.{if◌then◌else◌}
use kidp.Result.{Result, ok, err, Error, is_not_found, Result-cases}
use kidp.Client.{Env, Kind, Exec, Run, Call, branch, pure, ◌>>=◌}
use kidp.Client.{update_object, update_object_status}

module _ {A : Type 0} (env : Env) (kind : Kind A) where
  -- The answer is the object as the API server has it after the write, or the error.
  unfoldable pub update_status_with_fallback : A → Exec (Result A)
  update_status_with_fallback obj = do
    r ← update_object_status env kind obj
    branch r (λ e. if is_not_found e then (update_object env kind obj) else pure (err e))
        (λ saved. pure (ok saved))

-- The write is stored exactly if the status endpoint takes it, or if that endpoint answers that the
-- object is not found and the update of the whole object, sent after it, succeeds.
pub update_status_with_fallback_ok_iff :
    {A : Type 0} (env : Env) (kind : Kind A) (obj saved : A) (s : Run)
    → ((update_status_with_fallback env kind obj s).0 ≡ ok saved) ↔ (
        ((kind.endpoint env).update_status s.calls obj ≡ ok saved)
        ⊎ ((e : Error) × ((kind.endpoint env).update_status s.calls obj ≡ err e)
            × (is_not_found e ≡ true)
            × ((kind.endpoint env).update (Call.update_status (kind.object obj) ∷ s.calls) obj
                ≡ ok saved)))
unfolding update_status_with_fallback
update_status_with_fallback_ok_iff env kind obj saved s =
    elim (Result-cases ((kind.endpoint env).update_status s.calls obj)) [
      | inl (a, q) ↦ (λ h. inl (ground arith), λ h. ground arith)
      | inr (e, q) ↦ (λ h. inr (e, q, ground arith, ground arith), λ h. ground arith)
    ]
