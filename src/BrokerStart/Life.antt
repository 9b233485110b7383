-- ===== src/BrokerStart/Life.antt =====
-- `main` of cmd/broker/main.go once the broker serves: the goroutine of the HTTP server, and
-- `main`, which waits for a signal.
use kidp.Prelude.{
  ℕ, ◌≡◌, refl, sym, subst, ◌⊎◌, inl, inr, Bool, true, false, Bool-cases, if◌then◌else◌, arith,
}
use kidp.Prelude.{Option, none, some}
use kidp.Result.{Error}

-- `ListenAndServe`, which returns only with an error.
pub data Listener : Type 0 where
  listening : Listener
  closed_by : Error → Listener

-- `main` before and after `<-quit`.
pub data Main : Type 0 where
  waiting : Main
  shutting_down : Main

pub record Server : Type 0 where
  pub listener : Listener
  pub main : Main
  -- The code that the process has exited with.
  pub exited : Option ℕ

abbrev pub at_work : Server
at_work = record { listener = listening; main = waiting; exited = none }

-- `logger.Fatalf` for an error that is not `http.ErrServerClosed`.
abbrev pub fatal_exit : (Error → Bool) → Error → Option ℕ
fatal_exit server_closed e = if server_closed e then none else some 1

-- One step of the process, until it has exited. Of net/http it says what is documented: after
-- `Shutdown` has been called, `ListenAndServe` returns `http.ErrServerClosed`.
pub data Step (server_closed : Error → Bool) (p p' : Server) : Type 0 where
  listener_returns :
      (e : Error)
      → p.exited ≡ none
      → p.listener ≡ listening
      → (p.main ≡ shutting_down → server_closed e ≡ true)
      → p' ≡ record p { listener = closed_by e; exited = fatal_exit server_closed e }
      → Step server_closed p p'
  signalled :
      p.exited ≡ none
      → p.main ≡ waiting
      → p' ≡ record p { main = shutting_down }
      → Step server_closed p p'
  -- An error of `Shutdown` is only logged.
  shutdown_returns :
      (failure : Option Error)
      → p.exited ≡ none
      → p.main ≡ shutting_down
      → p' ≡ record p { exited = some 0 }
      → Step server_closed p p'

pub data Steps (server_closed : Error → Bool) (p : Server) : Server → Type 0 where
  here : Steps server_closed p p
  later :
      {q r : Server} → Steps server_closed p q → Step server_closed q r → Steps server_closed p r

main_waits : (m : Main) → (m ≡ waiting) ⊎ (m ≡ shutting_down)
main_waits waiting = inl refl
main_waits shutting_down = inr refl

module _ (server_closed : Error → Bool) where
  -- Why the process has exited with the code.
  abbrev pub Because : ℕ → Server → Type 0
  Because n p =
      ((n ≡ 0) × (p.main ≡ shutting_down))
      ⊎ ((n ≡ 1)
          × (p.main ≡ waiting)
          × ((e : Error) × (p.listener ≡ closed_by e) × (server_closed e ≡ false)))

  abbrev IsExplained : Server → Type 0
  IsExplained p = (n : ℕ) → p.exited ≡ some n → Because n p

  same : {m n : ℕ} → ◌≡◌ {A = Option ℕ} (some m) (some n) → n ≡ m
  same q = ground arith

  fatal-Because :
      (p : Server) (e : Error) (n : ℕ)
      → (p.main ≡ shutting_down → server_closed e ≡ true)
      → fatal_exit server_closed e ≡ some n
      → Because n (record p { listener = closed_by e; exited = fatal_exit server_closed e })
  fatal-Because p e n documented x = elim (Bool-cases (server_closed e)) [
    | inl closed ↦ ground arith
    | inr failed ↦ elim (main_waits p.main) [
      | inl m ↦ inr (ground arith, m, (e, refl, failed))
      | inr m ↦ let closed = documented m in ground arith
    ]
  ]

  Step-IsExplained : (p q : Server) → Step server_closed p q → IsExplained q
  Step-IsExplained p q (listener_returns e live at documented is) =
      subst IsExplained (sym is) (λ n x. fatal-Because p e n documented x)
  Step-IsExplained p q (signalled live at is) = subst IsExplained (sym is) (λ n x. cc)
  Step-IsExplained p q (shutdown_returns failure live at is) =
      subst IsExplained (sym is) (λ n x. inl (same x, at))

-- The broker exits with 0 only after a signal, whatever `Shutdown` returns, and with 1
-- only if `ListenAndServe` has failed before any signal; no other code is possible.
pub Steps-exited :
    (server_closed : Error → Bool) (p : Server) (n : ℕ)
    → Steps server_closed at_work p
    → p.exited ≡ some n
    → Because server_closed n p
Steps-exited server_closed p n here x = cc
Steps-exited server_closed p n (later {q} {r} s step) x =
    Step-IsExplained server_closed q r step n x
