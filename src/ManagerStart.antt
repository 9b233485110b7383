-- ===== src/ManagerStart.antt =====
-- How the manager's process starts: cmd/manager/main.go and the methods `SetupWithManager` of
-- internal/controller. After the set-up two threads run: `main` itself, and the goroutine of the
-- webhook server.
pub mod Threads
use kidp.Prelude.{
  ℕ, suc, String, ◌<>◌, ◌≡◌, ◌≢◌, refl, sym, ◌∙◌, ap, subst, ◌⊎◌, inl, inr, Bool, true, false,
  arith,
}
use kidp.Prelude.{if◌then◌else◌, Option, none, some, List, [], ◌∷◌}
use kidp.Result.{Result, ok, err, Error, wrapf}
use kidp.Api.Meta.{Duration}
use kidp.Time.{seconds}
use kidp.Registry.{Registry, new_registry}

-- How the calls of controller-runtime go: `NewManager`, `Complete` by the name of the controller,
-- `AddHealthzCheck` and `AddReadyzCheck`.
pub record Setup : Type 0 where
  pub manager_error : Option Error
  pub complete_error : String → Option Error
  pub healthz_error : Option Error
  pub readyz_error : Option Error

-- The flags that the command line gives, each at most once.
pub record Flags : Type 0 where
  pub metrics_bind_address : Option String
  pub health_probe_bind_address : Option String
  pub webhook_port : Option ℕ
  pub leader_elect : Option Bool

-- `ctrl.Options`, with the port for `webhook.NewServer`.
pub record Options : Type 0 where
  pub metrics_bind_address : String
  pub health_probe_bind_address : String
  pub leader_election : Bool
  pub leader_election_id : String
  pub webhook_port : ℕ

module _ {A : Type 0} where
  -- A flag's value, or else its default.
  abbrev given_or : A → Option A → A
  given_or default none = default
  given_or default (some a) = a

abbrev pub options : Flags → Options
options flags = record {
  metrics_bind_address = given_or ":8080" flags.metrics_bind_address;
  health_probe_bind_address = given_or ":8081" flags.health_probe_bind_address;
  leader_election = given_or false flags.leader_elect;
  leader_election_id = "kidp.platform.company.com";
  webhook_port = given_or 9090 flags.webhook_port;
}

-- A reconciler as it is set up: an event recorder by the name, a registry, the HTTP client's
-- timeout.
pub record Reconciler : Type 0 where
  pub name : String
  pub recorder : Option String
  pub registry : Option Registry
  pub http_timeout : Option Duration

abbrev pub broker_reconciler : Reconciler
broker_reconciler = record {
  name = "Broker";
  recorder = none;
  registry = none;
  http_timeout = some (seconds 10);
}

abbrev pub database_reconciler : Reconciler
database_reconciler = record {
  name = "Database";
  recorder = some "database-controller";
  registry = some new_registry;
  http_timeout = none;
}

abbrev pub team_reconciler : Reconciler
team_reconciler = record { name = "Team"; recorder = none; registry = none; http_timeout = none }

abbrev pub application_reconciler : Reconciler
application_reconciler = record {
  name = "Application";
  recorder = some "application-controller";
  registry = none;
  http_timeout = none;
}

abbrev pub tenant_reconciler : Reconciler
tenant_reconciler = record {
  name = "Tenant";
  recorder = none;
  registry = none;
  http_timeout = none;
}

module _ (setup : Setup) where
  -- `if err := ...; err != nil { os.Exit(1) }`, then the rest.
  abbrev unless : {A : Type 0} → String → Option Error → Result A → Result A
  unless message (some e) rest = err (wrapf message e)
  unless message none rest = rest

  unfoldable set_up : List Reconciler → Result (List Reconciler) → Result (List Reconciler)
  set_up [] rest = rest
  set_up (r ∷ rs) rest =
      let others = set_up rs rest in
      unless ("unable to create controller " <> r.name) (setup.complete_error r.name) others

  abbrev reconcilers : List Reconciler
  reconcilers =
      broker_reconciler ∷ database_reconciler ∷ team_reconciler ∷ application_reconciler
      ∷ tenant_reconciler ∷ []

  -- `main` up to the webhook server, with the reconcilers that are set up; an error is an exit.
  unfoldable pub boot : Result (List Reconciler)
  unfolding set_up
  boot = unless "unable to start manager" setup.manager_error (
      set_up reconcilers (
        unless "unable to set up health check" setup.healthz_error
          (unless "unable to set up ready check" setup.readyz_error (ok reconcilers))))

-- What a thread still has to do: `ctrl.SetupSignalHandler` comes first, as an argument.
pub data Stage : Type 0 where
  installing : Stage
  starting : Stage
  running : Stage
  returned : Option Error → Stage

-- How the process ends.
pub data Ending : Type 0 where
  panic : Ending
  exit : ℕ → Ending

-- `main` exits with 1 where the manager has returned an error, and returns otherwise.
abbrev pub exit_of : Option Error → Ending
exit_of none = exit 0
exit_of (some e) = exit 1

-- The process after the set-up, with the number of calls of `SetupSignalHandler` so far.
pub record Process : Type 0 where
  pub manager : Stage
  pub webhook : Stage
  pub handlers : ℕ
  pub ending : Option Ending

abbrev pub launched : Process
launched = record { manager = installing; webhook = installing; handlers = 0; ending = none }

-- `SetupSignalHandler`, where `panics` says whether it panics after so many calls.
abbrev pub installed : (ℕ → Bool) → ℕ → Option Ending
installed panics n = if panics n then some panic else none

-- One step of a thread. Nothing moves in a process that has ended. An error of the webhook server
-- is only logged.
pub data Step (panics : ℕ → Bool) (p p' : Process) : Type 0 where
  manager_installs :
      p.ending ≡ none
      → p.manager ≡ installing
      → p' ≡ record p {
        manager = starting;
        handlers = suc p.handlers;
        ending = installed panics p.handlers;
      }
      → Step panics p p'
  webhook_installs :
      p.ending ≡ none
      → p.webhook ≡ installing
      → p' ≡ record p {
        webhook = starting;
        handlers = suc p.handlers;
        ending = installed panics p.handlers;
      }
      → Step panics p p'
  manager_starts :
      p.ending ≡ none
      → p.manager ≡ starting
      → p' ≡ record p { manager = running }
      → Step panics p p'
  webhook_starts :
      p.ending ≡ none
      → p.webhook ≡ starting
      → p' ≡ record p { webhook = running }
      → Step panics p p'
  manager_returns :
      (e : Option Error)
      → p.ending ≡ none
      → p.manager ≡ running
      → p' ≡ record p { manager = returned e; ending = some (exit_of e) }
      → Step panics p p'
  webhook_returns :
      (e : Option Error)
      → p.ending ≡ none
      → p.webhook ≡ running
      → p' ≡ record p { webhook = returned e }
      → Step panics p p'

pub data Steps (panics : ℕ → Bool) (p : Process) : Process → Type 0 where
  here : Steps panics p p
  later : {q r : Process} → Steps panics p q → Step panics q r → Steps panics p r
