-- ===== src/Tests/Using.antt =====
-- A database from its creation into use.
use kidp.Prelude.{◌≡◌, refl, string_dec, ◌-ℤ◌, inl, true, none, some, [], ◌∷◌, arith}
use kidp.Result.{ok}
use kidp.Api.Database.{Database}
use kidp.Time.{seconds}
use kidp.Registry.{new_registry}
use kidp.Client.{Run, finished}
use kidp.Callbacks.{CallbackRequest, Codec}
use kidp.Webhook.{handle_health}
use kidp.Webhook.Serving.{serve}
use kidp.Notify.{Host, private_key, sign_with, sign_callback, notify_status}
use kidp.Notify.Signing.{received}
use kidp.Notify.Delivery.{first_request, response_of}
use kidp.Controller.Database.Convergence.{stored}
use kidp.Controller.Database.Liveness.{reconciled}
use kidp.Provisioning.{Route, Delivers, IsInUse, reconciled-IsInUse}
use kidp.Tests.Unary.{unary_codec, unary-CodecLaws}
use kidp.Tests.Callbacks.{ready, host, stamp, signature, public, stamped}
use kidp.Tests.Fixtures.{started, fresh, acme, local}
use kidp.Tests.Runs.{
  key, storing, storing-Stores, storing-Accepting, storing-FinalizerLaws, stocked, of_acme,
}

-- The state after the reconciliations, and the database then.
abbrev after : Run
after = (reconciled storing true 2 key started).1

abbrev deployed_now : Database
deployed_now = stored fresh after.calls

abbrev told : CallbackRequest
told = record ready { deployment_id = deployed_now.status.deployment_id }

abbrev codec : Codec
codec = unary_codec told

abbrev way : Route
way = record {
  mux = λ patterns path. some path;
  unrouted = λ path. handle_health;
  url = "http://manager/v1/callback";
  path = "/v1/callback";
}

abbrev reporting : Host
reporting = record (host 200) {
  send = λ log r.
      ok (response_of (serve storing codec way.mux way.unrouted way.path (received r) after).0);
}

signs : sign_callback reporting codec "{}" stamp ≡ ok (signature, public)
unfolding sign_callback sign_with private_key string_dec
signs = refl

told-Delivers : Delivers storing reporting codec way told after []
unfolding string_dec ◌-ℤ◌
told-Delivers = record {
  body = "{}";
  signature = signature;
  key = public;
  time = seconds 1000;
  broker = local;
  marshalled = refl;
  decoded = refl;
  made = refl;
  reaches = refl;
  routed = refl;
  signed = signs;
  stamped = stamped;
  parsed = refl;
  timely = (omega arith, omega arith);
  known = refl;
  keyed = inl refl;
}

reconciled-IsInUse_example :
    ((reconciled storing true 2 key started).0 ≡ finished)
    × ((notify_status reporting codec way.url told []).0 ≡ none)
    × IsInUse after.registry fresh told (
        stored fresh
          (serve storing codec way.mux way.unrouted way.path
            (received (first_request reporting codec way.url told told-Delivers.body []))
            after).1.calls)
reconciled-IsInUse_example =
    reconciled-IsInUse storing reporting codec way told [] fresh key new_registry true acme started
      (deployed_now ∷ []) (storing-Stores fresh) (storing-FinalizerLaws fresh) (λ m f. refl)
      (unary-CodecLaws told) (λ h bs b. (λ i. i, λ i. i)) stocked storing-Accepting of_acme refl
      refl refl told-Delivers
      (record { typed = refl; succeeded = refl; ready = refl; about = refl }) refl
      (inl (refl, refl))
