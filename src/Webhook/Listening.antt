-- ===== src/Webhook/Listening.antt =====
-- `NewServer` and `Start` of internal/webhook/server.go: the goroutine of the HTTP server, and the
-- caller, which waits for its context to end.
use kidp.Prelude.{ℕ, String, ◌<>◌, ◌≡◌, ap, ◌∙◌}
use kidp.Prelude.{Option}
use kidp.Result.{Error}
use kidp.Api.Meta.{Duration}
use kidp.Time.{seconds}

-- `Server`, without its client.
pub record Server : Type 0 where
  pub port : ℕ

abbrev pub new_server : ℕ → Server
new_server port = record { port = port }

-- The address that `Start` listens at.
abbrev pub address : (ℕ → String) → Server → String
address number_text s = ":" <> number_text s.port

-- The deadline of `Shutdown`.
abbrev pub shutdown_timeout : Duration
shutdown_timeout = seconds 5

-- `ListenAndServe`, which returns only with an error.
pub data Listener : Type 0 where
  listening : Listener
  stopped_by : Error → Listener

-- `Start` before and after `<-ctx.Done()`, and as it has returned.
pub data Caller : Type 0 where
  waiting : Caller
  shutting_down : Caller
  returned : Option Error → Caller

pub record Endpoint : Type 0 where
  pub listener : Listener
  pub caller : Caller

abbrev pub started : Endpoint
started = record { listener = listening; caller = waiting }

-- One step. Any error of the listener is at most logged.
pub data Step (p p' : Endpoint) : Type 0 where
  listener_returns :
      (e : Error) → p.listener ≡ listening → p' ≡ record p { listener = stopped_by e } → Step p p'
  context_ends : p.caller ≡ waiting → p' ≡ record p { caller = shutting_down } → Step p p'
  shutdown_returns :
      (failure : Option Error)
      → p.caller ≡ shutting_down
      → p' ≡ record p { caller = returned failure }
      → Step p p'

-- `Start` does not tell of a listener that has failed: where it still waits for its context,
-- whatever error has ended the listener, the one thing that can happen next is that the context
-- ends, and `Start` then returns what `Shutdown` returns.
pub lost_listener :
    (p q r : Endpoint) (e : Error)
    → p.listener ≡ stopped_by e
    → p.caller ≡ waiting
    → Step p q
    → Step q r
    → (q ≡ record p { caller = shutting_down })
      × ((failure : Option Error) × (r ≡ record p { caller = returned failure }))
lost_listener p q r e stopped waits (listener_returns x at is) second = cc
lost_listener p q r e stopped waits (shutdown_returns x at is) second = cc
lost_listener p q r e stopped waits (context_ends at is) (listener_returns x at_too is_too) = cc
lost_listener p q r e stopped waits (context_ends at is) (context_ends at_too is_too) = cc
lost_listener p q r e stopped waits (context_ends at is) (shutdown_returns x at_too is_too) =
    (is, (x, is_too ∙ ap (λ (y : Endpoint). record y { caller = returned x }) is))
