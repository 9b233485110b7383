-- ===== src/BrokerStart/Settings.antt =====
-- The command line of cmd/broker/main.go, and the server that it sets up.
use kidp.Prelude.{ℕ, String, ◌<>◌, Option, none, some}
use kidp.Api.Meta.{Duration}
use kidp.Time.{seconds}

pub record Config : Type 0 where
  pub port : ℕ
  pub read_timeout : Duration
  pub write_timeout : Duration
  pub shutdown_timeout : Duration
  pub log_level : String

-- The flags that the command line gives, each at most once.
pub record Flags : Type 0 where
  pub port : Option ℕ
  pub read_timeout : Option Duration
  pub write_timeout : Option Duration
  pub shutdown_timeout : Option Duration
  pub log_level : Option String

module _ {A : Type 0} where
  abbrev given_or : A → Option A → A
  given_or default none = default
  given_or default (some a) = a

abbrev pub configured : Flags → Config
configured flags = record {
  port = given_or 8080 flags.port;
  read_timeout = given_or (seconds 15) flags.read_timeout;
  write_timeout = given_or (seconds 15) flags.write_timeout;
  shutdown_timeout = given_or (seconds 30) flags.shutdown_timeout;
  log_level = given_or "info" flags.log_level;
}

-- The fields of `http.Server` but its handler; the port is written by `fmt`.
pub record HttpServer : Type 0 where
  pub address : String
  pub read_timeout : Duration
  pub write_timeout : Duration
  pub idle_timeout : Duration

abbrev pub http_server : (ℕ → String) → Config → HttpServer
http_server number_text c = record {
  address = ":" <> number_text c.port;
  read_timeout = c.read_timeout;
  write_timeout = c.write_timeout;
  idle_timeout = seconds 120;
}
