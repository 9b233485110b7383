-- ===== src/BrokerServer/Agreement.antt =====
-- The requests of internal/controller/database_controller.go against the checks of
-- pkg/broker/models.go.
use text.Mathlib.TextLemmas.{append-eq-nil_iff}
use kidp.Prelude.{String, string_dec, ne_of_test, ◌≡◌, ◌≢◌, refl, ◌↔◌, none, arith}
use kidp.Api.Database.{Database}
use kidp.Client.{Env}
use kidp.BrokerServer.{validate_provision, validate_deprovision}
use kidp.BrokerServer.Validation.{validate_provision_lem, validate_deprovision_lem}
use kidp.Controller.Database.{
  callback_url, default_callback_url, provision_request, deprovision_request,
}

module _ (env : Env) (db : Database) where
  database-nonempty : ◌≢◌ {A = String} "database" ""
  unfolding string_dec
  database-nonempty = ne_of_test "database" "" refl

  slash-nonempty : ◌≢◌ {A = String} "/" ""
  unfolding string_dec
  slash-nonempty = ne_of_test "/" "" refl

  default-nonempty : default_callback_url ≢ ""
  unfolding string_dec
  default-nonempty = ne_of_test default_callback_url "" refl

  callback_url-nonempty : callback_url env ≢ ""
  callback_url-nonempty = ground (arith, default-nonempty)

  team-nonempty : (provision_request env db).team ≢ ""
  team-nonempty e = slash-nonempty (append-eq-nil_iff.0 (append-eq-nil_iff.0 e).1).0

-- The broker's check passes the request that the controller makes for a database exactly if the
-- database has a name and a namespace: the rest is never empty.
pub provision_request-Complete :
    (env : Env) (db : Database)
    → (validate_provision (provision_request env db) ≡ none)
      ↔ ((db.meta.name ≢ "") × (db.meta.namespace ≢ ""))
provision_request-Complete env db = (
  λ h. let c = (validate_provision_lem (provision_request env db)).0 h in (c.named, c.placed),
  λ (n, p). (validate_provision_lem (provision_request env db)).1 (record {
    typed = database-nonempty env db;
    named = n;
    placed = p;
    owned = team-nonempty env db;
    answered = callback_url-nonempty env db;
    specified = λ e. ground arith;
  }),
)

-- The check passes the request for the end of a deployment exactly if the database has a name, a
-- namespace and the deployment's ID.
pub deprovision_request-Complete :
    (env : Env) (db : Database)
    → (validate_deprovision (deprovision_request env db) ≡ none)
      ↔ ((db.meta.name ≢ "") × (db.meta.namespace ≢ "") × (db.status.deployment_id ≢ ""))
deprovision_request-Complete env db = (
  λ h.
      let c = (validate_deprovision_lem (deprovision_request env db)).0 h in
      (c.named, c.placed, c.deployed),
  λ (n, p, i). (validate_deprovision_lem (deprovision_request env db)).1 (record {
    deployed = i;
    typed = database-nonempty env db;
    named = n;
    placed = p;
    answered = callback_url-nonempty env db;
  }),
)
