-- ===== src/BrokerStart.antt =====
-- How a broker's process starts: the key and its registration in cmd/broker/main.go, and
-- `NewK8sClient` of pkg/broker/k8s.go. `Site` is what the process finds around it; what it is told
-- may depend on all that it has done before, which is the trail, newest first.
pub mod Keys
pub mod Pairs
pub mod Signing
pub mod Life
pub mod Settings
use kidp.Prelude.{String, ◌<>◌, ◌==◌, is_empty, eqb, if◌then◌else◌, not, length}
use kidp.Prelude.{Option, none, some, List, [], ◌∷◌}
use kidp.Result.{Result, ok, err, Error, errorf_int, wrapf}
use kidp.Api.Meta.{ObjectKey}
use kidp.Api.Broker.{Broker}
use kidp.Callbacks.{Bytes, Codec}

-- `os.Stat`: the file is there, `os.IsNotExist` holds of the error, or it does not.
pub data Stat : Type 0 where
  present : Stat
  absent : Stat
  unknown : Error → Stat

-- What the process changes: the key's file, and the status of its Broker.
pub data Effect : Type 0 where
  wrote : String → Bytes → Effect
  registered : Broker → Effect

abbrev pub Trail : Type 0
Trail = List Effect

pub record Site : Type 0 where
  -- The variables BROKER_NAME, BROKER_NAMESPACE and BROKER_PRIVATE_KEY_PATH, "" if not set.
  pub broker_name : String
  pub broker_namespace : String
  pub broker_private_key_path : String
  -- `os.MkdirAll` of the path's directory, with the mode 0700
  pub make_directory : String → Option Error
  pub stat : String → Stat
  pub read_file : String → Result Bytes
  pub write_file : String → Bytes → Option Error
  -- The public and the private part.
  pub generate_key : Result (Bytes × Bytes)
  pub get_broker : Trail → ObjectKey → Result Broker
  pub update_broker_status : Trail → Broker → Option Error

-- How the start ends: by `logger.Fatalf`, or with the private key and the server running.
pub data Start : Type 0 where
  fatal : Error → Start
  serving : Bytes → Start

abbrev pub default_key_path : String
default_key_path = "/var/run/broker/private.key"

module _ (site : Site) (codec : Codec) where
  abbrev pub key_path : String
  key_path =
      if is_empty site.broker_private_key_path
      then default_key_path
      else site.broker_private_key_path

  abbrev pub own_key : ObjectKey
  own_key = record {
    namespace = if is_empty site.broker_namespace then "default" else site.broker_namespace;
    name = site.broker_name;
  }

  abbrev pub with_public_key : String → Broker → Broker
  with_public_key key b = record b { status = record b.status { callback_public_key = key } }

  -- An update that fails is only logged, and leaves nothing behind.
  unfoldable pub store_public_key : String → Broker → Trail → Trail
  store_public_key key b trail = elim (site.update_broker_status trail (with_public_key key b)) [
    | some e ↦ trail
    | none ↦ registered (with_public_key key b) ∷ trail
  ]

  -- The registration of a key that has just been made.
  unfoldable pub register_generated : Bytes → Trail → Trail
  register_generated public trail =
      if is_empty site.broker_name then trail else elim (site.get_broker trail own_key) [
        | err e ↦ trail
        | ok b ↦ store_public_key (codec.encode64 public) b trail
      ]

  -- The registration at each start, where the stored key differs.
  unfoldable pub register_present : Bytes → Trail → Trail
  register_present key trail =
      if is_empty site.broker_name then trail else elim (site.get_broker trail own_key) [
        | err e ↦ trail
        | ok b ↦
            if not (b.status.callback_public_key == codec.encode64 (codec.public_key key))
            then store_public_key (codec.encode64 (codec.public_key key)) b trail
            else trail
      ]

  unfoldable pub generate : Trail → Start × Trail
  generate trail = elim site.generate_key [
    | err e ↦ (fatal (wrapf "Failed to generate ed25519 keypair" e), trail)
    | ok (public, key) ↦ elim (site.write_file key_path key) [
      | some e ↦ (fatal (wrapf ("Failed to write private key to " <> key_path) e), trail)
      | none ↦ (serving key, register_generated public (wrote key_path key ∷ trail))
    ]
  ]

  unfoldable pub load : Trail → Start × Trail
  load trail = elim (site.read_file key_path) [
    | err e ↦ (fatal (wrapf "Failed to read existing private key" e), trail)
    | ok key ↦
        if not (eqb (length key) 64)
        then (fatal (errorf_int ("Invalid private key size in " <> key_path) (length key)), trail)
        else (serving key, trail)
  ]

  unfoldable pub obtain_key : Trail → Start × Trail
  obtain_key trail = elim (site.stat key_path) [
    | absent ↦ generate trail
    | present ↦ load trail
    | unknown e ↦ (fatal (wrapf "Failed to stat private key" e), trail)
  ]

  -- With the key there, its public part goes to the Broker once more.
  unfoldable pub conclude : Start × Trail → Start × Trail
  conclude (fatal e, trail) = (fatal e, trail)
  conclude (serving key, trail) = (serving key, register_present key trail)

  unfoldable pub prepare_key : Trail → Start × Trail
  prepare_key trail = elim (site.make_directory key_path) [
    | some e ↦ (fatal (wrapf "Failed to create key directory" e), trail)
    | none ↦ conclude (obtain_key trail)
  ]

-- How the making of the controller-runtime client goes: `GetConfigOrDie`, `AddToScheme` and `New`.
pub record Clients : Type 0 where
  pub config_error : Option Error
  pub scheme_error : Option Error
  pub client_error : Option Error

-- client-go and os, as `NewK8sClient` uses them.
pub record ClusterAccess (Config Clientset : Type 0) : Type 0 where
  pub in_cluster_config : Result Config
  pub kubeconfig : String
  pub user_home : Result String
  pub build_config : String → Result Config
  pub new_for_config : Config → Result Clientset

pub record K8sClient (Config Clientset : Type 0) : Type 0 where
  pub clientset : Clientset
  pub config : Config

module _ {Config Clientset : Type 0} (access : ClusterAccess Config Clientset) where
  unfoldable pub config_from : Result String → Result Config
  config_from (err e) = err (wrapf "failed to get home directory" e)
  config_from (ok path) = elim (access.build_config path) [
    | ok config ↦ ok config
    | err e ↦ err (wrapf "failed to build config from kubeconfig" e)
  ]

  abbrev in_home : Result String → Result String
  in_home (ok home) = ok (home <> "/.kube/config")
  in_home (err e) = err e

  abbrev pub kubeconfig_path : Result String
  kubeconfig_path =
      if is_empty access.kubeconfig then in_home access.user_home else ok access.kubeconfig

  unfoldable pub find_config : Result Config
  unfolding config_from
  find_config = elim access.in_cluster_config [
    | ok config ↦ ok config
    | err e ↦ config_from kubeconfig_path
  ]

  unfoldable pub client_of : Result Config → Result (K8sClient Config Clientset)
  client_of (err e) = err e
  client_of (ok config) = elim (access.new_for_config config) [
    | err e ↦ err (wrapf "failed to create kubernetes clientset" e)
    | ok clients ↦ ok (record { clientset = clients; config = config })
  ]

  unfoldable pub new_k8s_client : Result (K8sClient Config Clientset)
  unfolding find_config client_of
  new_k8s_client = client_of find_config

  -- `main` up to the server: both clients, then the key. `ctrl.GetConfigOrDie` ends the process
  -- too.
  unfoldable pub start : Site → Codec → Clients → Trail → Start × Trail
  unfolding new_k8s_client
  start site codec clients trail = elim new_k8s_client [
    | err e ↦ (fatal (wrapf "Failed to create Kubernetes client" e), trail)
    | ok client ↦ elim clients.config_error [
      | some e ↦ (fatal e, trail)
      | none ↦ elim clients.scheme_error [
        | some e ↦ (fatal (wrapf "Failed to add platformv1 to scheme" e), trail)
        | none ↦ elim clients.client_error [
          | some e ↦ (fatal (wrapf "Failed to create controller-runtime client" e), trail)
          | none ↦ prepare_key site codec trail
        ]
      ]
    ]
  ]
