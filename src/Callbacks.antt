-- ===== src/Callbacks.antt =====
-- The callbacks that brokers send to the manager: `CallbackRequest` of pkg/broker/models.go, which
-- internal/webhook/server.go mirrors, and what both sides take from the Go library. A text stands
-- for the bytes of its UTF-8 form; keys and signatures are lists of bytes.
use kidp.Prelude.{ℕ, String, ◌<>◌, ◌≡◌, Bool, true, Option, some, List, Dict, length}
use kidp.Result.{Result, ok}
use kidp.Json.{Fields}
use kidp.Api.Meta.{Int32, Float64, Time, read}

pub record CallbackRequest : Type 0 where
  pub deployment_id : String
  pub resource_type : String
  pub resource_name : String
  pub namespace : String
  pub status : String
  pub phase : String
  pub message : String
  pub error : String
  pub time : Time
  pub endpoint : String
  pub port : Int32
  pub connection_secret : String
  pub details : Option Fields
  pub additional_metadata : Option (Dict String)
  pub estimated_monthly_cost : Float64

abbrev pub Bytes : Type 0
Bytes = List ℕ

-- encoding/base64, crypto/ed25519, encoding/json and the layout `time.RFC3339` of time
pub record Codec : Type 0 where
  pub encode64 : Bytes → String
  pub decode64 : String → Result Bytes
  pub public_key : Bytes → Bytes
  pub sign : Bytes → String → Bytes
  pub verify : Bytes → String → Bytes → Bool
  pub format_time : Time → String
  pub parse_time : String → Result Time
  pub marshal_callback : CallbackRequest → Result String
  pub decode_callback : String → Result CallbackRequest

-- What the packages document: base64 decodes what it encodes, and encodes no bytes but none as the
-- empty text; a signature has 64 bytes and verifies under the public part of the key that made it,
-- which has 32.
pub record CodecLaws (codec : Codec) : Type 0 where
  pub decode-encode : (bytes : Bytes) → codec.decode64 (codec.encode64 bytes) ≡ ok bytes
  pub verify-sign :
      (key : Bytes) (message : String)
      → codec.verify (codec.public_key key) message (codec.sign key message) ≡ true
  pub public_key_size : (key : Bytes) → length (codec.public_key key) ≡ 32
  pub signature_size : (key : Bytes) (message : String) → length (codec.sign key message) ≡ 64
  pub encode_nonempty : (bytes : Bytes) → codec.encode64 bytes ≡ "" → length bytes ≡ 0

-- The message that is signed.
abbrev pub signed_message : String → String → String
signed_message timestamp body = timestamp <> "." <> body

-- `Header.Get`, on headers by their canonical names
abbrev pub header : Dict String → String → String
header headers name = read (some headers) name
