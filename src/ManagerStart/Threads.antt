-- ===== src/ManagerStart/Threads.antt =====
-- What the two threads of cmd/manager/main.go come to.
use kidp.Prelude.{ℕ, suc, ◌≡◌, ◌≢◌, refl, sym, subst, ◌⊎◌, inl, inr, Bool, true, arith}
use kidp.Prelude.{Option, none, some}
use kidp.Result.{Error}
use kidp.ManagerStart.{
  Process, installing, returned, Ending, panic, exit, exit_of, installed, launched, Step,
  manager_installs, webhook_installs, manager_starts, webhook_starts, manager_returns,
  webhook_returns, Steps, here, later,
}

module _ (panics : ℕ → Bool) (once : (n : ℕ) → panics (suc n) ≡ true) where
  -- Without a panic, one of the two threads has not called `SetupSignalHandler` yet.
  abbrev AtMostOne : Process → Type 0
  AtMostOne p =
      (p.ending ≡ some panic)
      ⊎ (((p.manager ≡ installing) × (p.webhook ≡ installing))
          ⊎ (((p.manager ≡ installing) ⊎ (p.webhook ≡ installing))
              × ((n : ℕ) × (p.handlers ≡ suc n))))

  second_panics : (n h : ℕ) → h ≡ suc n → installed panics h ≡ some panic
  second_panics n h q = rw (q, once n) refl

  Step-AtMostOne : (p q : Process) → Step panics p q → AtMostOne p → AtMostOne q
  Step-AtMostOne p q (manager_installs live at e) (inl crashed) = cc
  Step-AtMostOne p q (manager_installs live at e) (inr (inl (m, w))) =
      subst AtMostOne (sym e) (inr (inr (inr w, (p.handlers, refl))))
  Step-AtMostOne p q (manager_installs live at e) (inr (inr (o, (n, h)))) =
      subst AtMostOne (sym e) (inl (second_panics n p.handlers h))
  Step-AtMostOne p q (webhook_installs live at e) (inl crashed) = cc
  Step-AtMostOne p q (webhook_installs live at e) (inr (inl (m, w))) =
      subst AtMostOne (sym e) (inr (inr (inl m, (p.handlers, refl))))
  Step-AtMostOne p q (webhook_installs live at e) (inr (inr (o, (n, h)))) =
      subst AtMostOne (sym e) (inl (second_panics n p.handlers h))
  Step-AtMostOne p q (manager_starts live at e) (inl crashed) = cc
  Step-AtMostOne p q (manager_starts live at e) (inr (inl (m, w))) = cc
  Step-AtMostOne p q (manager_starts live at e) (inr (inr (inl m, nh))) = cc
  Step-AtMostOne p q (manager_starts live at e) (inr (inr (inr w, nh))) =
      subst AtMostOne (sym e) (inr (inr (inr w, nh)))
  Step-AtMostOne p q (webhook_starts live at e) (inl crashed) = cc
  Step-AtMostOne p q (webhook_starts live at e) (inr (inl (m, w))) = cc
  Step-AtMostOne p q (webhook_starts live at e) (inr (inr (inr w, nh))) = cc
  Step-AtMostOne p q (webhook_starts live at e) (inr (inr (inl m, nh))) =
      subst AtMostOne (sym e) (inr (inr (inl m, nh)))
  Step-AtMostOne p q (manager_returns x live at e) (inl crashed) = cc
  Step-AtMostOne p q (manager_returns x live at e) (inr (inl (m, w))) = cc
  Step-AtMostOne p q (manager_returns x live at e) (inr (inr (inl m, nh))) = cc
  Step-AtMostOne p q (manager_returns x live at e) (inr (inr (inr w, nh))) =
      subst AtMostOne (sym e) (inr (inr (inr w, nh)))
  Step-AtMostOne p q (webhook_returns x live at e) (inl crashed) = cc
  Step-AtMostOne p q (webhook_returns x live at e) (inr (inl (m, w))) = cc
  Step-AtMostOne p q (webhook_returns x live at e) (inr (inr (inr w, nh))) = cc
  Step-AtMostOne p q (webhook_returns x live at e) (inr (inr (inl m, nh))) =
      subst AtMostOne (sym e) (inr (inr (inl m, nh)))

  Steps-AtMostOne : {p : Process} → Steps panics launched p → AtMostOne p
  Steps-AtMostOne here = inr (inl (refl, refl))
  Steps-AtMostOne (later {q} {r} s st) = Step-AtMostOne q r st (Steps-AtMostOne s)

-- Where `SetupSignalHandler` panics on each call but the first: in every state that the manager's
-- two threads reach, the process has panicked or one of the threads has yet to call it, and in a
-- state in which neither thread can go on the process has ended.
pub Steps-panic :
    (panics : ℕ → Bool) (p : Process)
    → ((n : ℕ) → panics (suc n) ≡ true)
    → Steps panics launched p
    → ((p.ending ≡ some panic) ⊎ (p.manager ≡ installing) ⊎ (p.webhook ≡ installing))
      × (((q : Process) → ¬ Step panics p q) → p.ending ≢ none)
Steps-panic panics p once steps =
    let k = Steps-AtMostOne panics once steps in
    (
      ground arith,
      λ stuck live. elim k [
        | inl crashed ↦ cc
        | inr (inl (m, w)) ↦ elim (stuck _ (manager_installs live m refl)) [ ]
        | inr (inr (inl m, nh)) ↦ elim (stuck _ (manager_installs live m refl)) [ ]
        | inr (inr (inr w, nh)) ↦ elim (stuck _ (webhook_installs live w refl)) [ ]
      ],
    )

-- The process has exited with the code that the manager's return gives it.
abbrev ExitsBy : Process → Type 0
ExitsBy p =
    (n : ℕ)
    → p.ending ≡ some (exit n)
    → (e : Option Error) × (p.manager ≡ returned e) × (exit_of e ≡ exit n)

not_exit : (panics : ℕ → Bool) (h n : ℕ) → installed panics h ≢ some (exit n)
not_exit panics h n q = ground arith

Step-ExitsBy : (panics : ℕ → Bool) (p q : Process) → Step panics p q → ExitsBy p → ExitsBy q
Step-ExitsBy panics p q (manager_installs live at e) before =
    subst ExitsBy (sym e) (λ n x. elim (not_exit panics p.handlers n x) [ ])
Step-ExitsBy panics p q (webhook_installs live at e) before =
    subst ExitsBy (sym e) (λ n x. elim (not_exit panics p.handlers n x) [ ])
Step-ExitsBy panics p q (manager_starts live at e) before = subst ExitsBy (sym e) (λ n x. cc)
Step-ExitsBy panics p q (webhook_starts live at e) before = subst ExitsBy (sym e) (λ n x. cc)
Step-ExitsBy panics p q (manager_returns o live at e) before =
    subst ExitsBy (sym e) (λ n x. (o, refl, same x))
  where
    same : {a b : Ending} → ◌≡◌ {A = Option Ending} (some a) (some b) → a ≡ b
    same x = cc
Step-ExitsBy panics p q (webhook_returns o live at e) before = subst ExitsBy (sym e) (λ n x. cc)

-- The process exits only as the manager's own run returns, with 0 if that is without an error and
-- with 1 otherwise: the end of the webhook server, by an error or not, never ends it.
pub Steps-exit :
    (panics : ℕ → Bool) (p : Process) (n : ℕ)
    → Steps panics launched p
    → p.ending ≡ some (exit n)
    → (e : Option Error) × (p.manager ≡ returned e) × (exit_of e ≡ exit n)
Steps-exit panics p n steps = exits p steps n
  where
    exits : (p : Process) → Steps panics launched p → ExitsBy p
    exits p here = λ n x. cc
    exits p (later {q} {r} s st) = Step-ExitsBy panics q r st (exits q s)
