-- ===== src/Tests/Starting.antt =====
-- A broker and a manager that start, and their routes.
use kidp.Prelude.{
  ℕ, zero, suc, String, length, ◌∙◌, ◌==◌, ◌≡◌, ◌≢◌, ◌↔◌, ◌⊎◌, refl, sym, ap, string_dec,
  ne_of_test, Bool, true, false, if◌then◌else◌, any, arith,
}
use kidp.Prelude.{none, some, List, [], ◌∷◌, In}
use kidp.Result.{Result, ok, err, failed}
use kidp.Api.Broker.{Broker}
use kidp.Callbacks.{Bytes}
use kidp.BrokerStart.{
  absent, Site, serving, registered, ClusterAccess, Clients, key_path, default_key_path, start,
}
use kidp.BrokerStart.{
  client_of, find_config, config_from, new_k8s_client, prepare_key, obtain_key, generate, conclude,
}
use kidp.BrokerStart.Keys.{Kept, Registered, start-Registered}
use kidp.BrokerStart.Pairs.{PairLaws}
use kidp.BrokerStart.Signing.{start-Signs, unset_path-refused}
use kidp.BrokerServer.{Reply, plain, status_of}
use kidp.BrokerServer.Discovery.{root_document}
use kidp.BrokerServer.Routes.{Mux, MuxLaws, serve, paths, hrefs, methods_at, root_document-Served}
use kidp.Webhook.{Response, handle_callback, verify_signature}
use kidp.Webhook.Serving.{serve as serve_callbacks, callback_patterns, Writes, serve-Writes}
use kidp.Notify.{Host, sign_callback, callback_request}
use kidp.Notify.Signing.{received}
use kidp.ManagerStart.{
  Process, launched, installing, starting, panic, Step, Steps, manager_installs, webhook_installs,
  here, later,
}
use kidp.ManagerStart.Threads.{Steps-panic}
use kidp.Tests.Fixtures.{answering, started, local}
use kidp.Tests.Unary.{unary-CodecLaws, repeated}
use kidp.Tests.Callbacks.{codec, ready, host, posted}
use kidp.Tests.Brokers.{process, posted as posted_query}

abbrev key : Bytes
key = repeated 64 7

-- A broker that starts for the first time, by its name.
abbrev site : String → Site
site path = record {
  broker_name = "local";
  broker_namespace = "";
  broker_private_key_path = path;
  make_directory = λ p. none;
  stat = λ p. absent;
  read_file = λ p. err (failed p);
  write_file = λ p bytes. none;
  generate_key = ok (repeated 32 7, key);
  get_broker = λ trail k. ok local;
  update_broker_status = λ trail b. none;
}

abbrev access : ClusterAccess String String
access = record {
  in_cluster_config = ok "cluster";
  kubeconfig = "";
  user_home = ok "/root";
  build_config = λ path. ok path;
  new_for_config = λ config. ok config;
}

abbrev clients : Clients
clients = record { config_error = none; scheme_error = none; client_error = none }

serves : (start access (site "/keys/key") codec clients []).0 ≡ serving key
unfolding start new_k8s_client client_of find_config config_from prepare_key obtain_key generate
    conclude string_dec
serves = refl

start-Registered_example :
    Kept (site "/keys/key") codec key (start access (site "/keys/key") codec clients []).1
    × Registered (site "/keys/key") codec key (start access (site "/keys/key") codec clients []).1
start-Registered_example = start-Registered access (site "/keys/key") codec clients [] key serves

pairs : PairLaws (site "/keys/key") codec
pairs public made q =
    (sym (public_same q) ∙ ap codec.public_key (made_same q), ap length (sym (made_same q)))
  where
    made_same :
        ◌≡◌ {A = Result (Bytes × Bytes)} (ok (repeated 32 7, key)) (ok (public, made)) → key ≡ made
    made_same e = cc

    public_same :
        ◌≡◌ {A = Result (Bytes × Bytes)} (ok (repeated 32 7, key)) (ok (public, made))
        → repeated 32 7 ≡ public
    public_same e = cc

-- The process as its callbacks find it.
abbrev keeper : Host
keeper = record (host 200) {
  broker_private_key = "";
  broker_private_key_path = "/keys/key";
  read_file = λ p. ok key;
  text_of = λ bytes. "raw";
}

given_path : ◌≢◌ {A = String} "/keys/key" ""
unfolding string_dec
given_path = ne_of_test "/keys/key" "" refl

start-Signs_example :
    (sig public : String) × (sign_callback keeper codec "{}" "now" ≡ ok (sig, public))
    × ((b : Broker)
        → In (registered b) (start access (site "/keys/key") codec clients []).1
        → verify_signature codec "{}" "now" sig b.status.callback_public_key ≡ none)
start-Signs_example =
    start-Signs access (site "/keys/key") codec clients keeper key (failed "illegal base64 data")
      "{}" "now" (unary-CodecLaws ready) pairs serves refl refl given_path refl refl

abbrev unset : Host
unset = record (host 200) { broker_private_key = "" }

unset_path-refused_example :
    (key_path (site "") codec ≡ default_key_path)
    × ((handle_callback
          (answering 200)
          codec
          (received (callback_request unset codec "http://manager" "{}" "now"))
          started).0.status
        ≢ 200)
unset_path-refused_example =
    unset_path-refused (answering 200) (site "") unset codec "http://manager" "{}" "now" started
      refl refl refl

abbrev pub exact : Mux
exact patterns path = if any (λ p. p == path) patterns then some path else none

found : (path : String) (ps : List String) → In path ps → any (λ p. p == path) ps ≡ true
found path [] i = elim i [ ]
found path (p ∷ ps) i = ground (arith, found path ps)

pub exact-MuxLaws : MuxLaws exact
exact-MuxLaws patterns path i = rw (found path patterns i) refl

abbrev pub unrouted : String → Reply
unrouted path = plain 404 "404 page not found"

root_document-Served_example :
    (In "/v1/status" (paths (root_document process))
      → (status_of (serve process exact unrouted "/v1/status" posted_query) ≢ 404)
        × ((status_of (serve process exact unrouted "/v1/status" posted_query) ≡ 405)
            ↔ ¬ In "POST" (methods_at "/v1/status" (root_document process))))
    × (In "/v1/status" (hrefs (root_document process))
        → status_of (serve process exact unrouted "/v1/status" posted_query) ≢ 404)
root_document-Served_example =
    root_document-Served process exact unrouted "/v1/status" posted_query exact-MuxLaws

abbrev lost : String → Response
lost path = record { status = 404; body = "404 page not found\n" }

serve-Writes_example :
    ((serve_callbacks (answering 200) codec exact lost "/v1/callback" posted started).1.calls ≡ [])
    ⊎ ((exact callback_patterns "/v1/callback" ≡ some "/v1/callback")
        × Writes
            (answering 200)
            codec
            posted
            started
            (serve_callbacks
              (answering 200)
              codec
              exact
              lost
              "/v1/callback"
              posted
              started).1.calls)
serve-Writes_example = serve-Writes (answering 200) codec exact lost "/v1/callback" posted started

abbrev second : ℕ → Bool
second zero = false
second (suc n) = true

abbrev one_installed : Process
one_installed = record launched { manager = starting; handlers = 1 }

abbrev both_installed : Process
both_installed = record {
  manager = starting;
  webhook = starting;
  handlers = 2;
  ending = some panic;
}

to_panic : Steps second launched both_installed
to_panic = later (later here (manager_installs refl refl refl)) (webhook_installs refl refl refl)

Steps-panic_example :
    ((both_installed.ending ≡ some panic)
      ⊎ (both_installed.manager ≡ installing)
      ⊎ (both_installed.webhook ≡ installing))
    × (((q : Process) → ¬ Step second both_installed q) → both_installed.ending ≢ none)
Steps-panic_example = Steps-panic second both_installed (λ n. refl) to_panic
