-- ===== src/Platform.antt =====
-- The libraries and the outside world that the program calls, as parameters: `nostr`, `base64`,
-- `sha2`, `hex`, `bech32`, `ed25519-dalek`, the derived and generic parsers of `serde_json`, and
-- Unicode lower-casing. `Option` stands for a result whose error is not looked at.
use goblin_nip05d.Text.{Text}
use goblin_nip05d.Prelude.{Bool, List, Option, ℕ}

-- A parsed nostr event: the fields that the handlers read, keys and ids as lower-case hex.
pub record Event : Type 0 where
  pub id : Text
  pub pubkey : Text
  pub created_at : ℕ
  pub kind : ℕ
  pub tags : List (List Text)

-- The body of a registration.
pub record RegisterBody : Type 0 where
  pub name : Text
  pub pubkey : Text

-- `Event::from_json`, `Event::verify`, `Event::as_json`, base64 and SHA-256, hex, Unicode lower case.
pub record Platform : Type 0 where
  pub event_from_json : List ℕ → Option Event
  pub event_verify : Event → Bool
  pub event_as_json : Event → Text
  pub base64_decode : Text → Option (List ℕ)
  pub sha256 : List ℕ → List ℕ
  pub hex_encode : List ℕ → Text
  pub hex_decode : Text → Option (List ℕ)
  pub bech32_decode : Text → Option (Text × List ℕ)
  pub from_base32 : List ℕ → Option (List ℕ)
  pub key_from_bytes : List ℕ → Bool
  pub ed25519_verify : List ℕ → List ℕ → List ℕ → Bool
  pub to_lowercase : Text → Text
  pub parse_register : List ℕ → Option RegisterBody

-- The shape of a `serde_json::Value`.
pub data Shape (N : Type 0) : Type 0 where
  null : Shape N
  bool : Bool → Shape N
  number : N → Shape N
  string : Text → Shape N
  array : Shape N
  object : Shape N

-- `serde_json`: a value, its shape, a member of an object and an entry of an array (`None` for any
-- other value), `Value::Null`, a number as u64, the parser and the printer.
pub record Json : Type 1 where
  pub Value : Type 0
  pub Number : Type 0
  pub shape : Value → Shape Number
  pub get : Value → Text → Option Value
  pub get_index : Value → ℕ → Option Value
  pub null_value : Value
  pub as_u64 : Number → Option ℕ
  pub from_slice : List ℕ → Option Value
  pub to_string : Value → List ℕ
