-- ===== src/Proof.antt =====
-- src/proof.rs: Grin payment proofs. bech32, hex and ed25519 are parameters (Platform).
pub mod Message
pub mod Signed
use goblin_nip05d.Text.Number.{parse_u64}
use goblin_nip05d.Text.{Text, lit, text_eq, trim}
use goblin_nip05d.Prelude.{
  ◌>>=◌, Bool, List, Option, [], false, if◌then◌else◌, is_some, length, none, some, ℕ, ◌%◌, ◌&&◌,
  ◌++◌, ◌/◌, ◌==◌, ◌||◌, ◌∷◌,
}
use goblin_nip05d.Platform.{Json, Platform, Shape}

-- `normalize_grin_address`
unfoldable pub normalize_grin_address : Platform → Text → Text
unfolding trim
normalize_grin_address pf address = pf.to_lowercase (trim address)

-- `GRIN_HRPS.contains`
unfoldable pub is_grin_hrp : Text → Bool
unfolding text_eq lit
is_grin_hrp hrp = text_eq (lit "grin") hrp || text_eq (lit "tgrin") hrp

-- A vector as an array of the given length, `try_into`.
unfoldable pub sized : ℕ → List ℕ → Option (List ℕ)
sized n bytes = if length bytes == n then some bytes else none

unfoldable pub decode_grin_address : Platform → Text → Option (List ℕ)
unfolding sized is_grin_hrp normalize_grin_address
decode_grin_address pf address = do
  (hrp, body) ← pf.bech32_decode (normalize_grin_address pf address)
  if is_grin_hrp hrp then pf.from_base32 body >>= sized 32 else none

-- `u64::to_be_bytes`
unfoldable pub amount_to_be_u64 : ℕ → List ℕ
amount_to_be_u64 n =
    (n / 72057594037927936 % 256)
    ∷ (n / 281474976710656 % 256)
    ∷ (n / 1099511627776 % 256)
    ∷ (n / 4294967296 % 256)
    ∷ (n / 16777216 % 256)
    ∷ (n / 65536 % 256)
    ∷ (n / 256 % 256)
    ∷ (n % 256)
    ∷ []

unfoldable pub payment_proof_message : Platform → ℕ → Text → List ℕ → Option (List ℕ)
unfolding sized
payment_proof_message pf amount excess_hex sender_pubkey = do
  raw ← pf.hex_decode excess_hex
  excess ← sized 33 raw
  some (amount_to_be_u64 amount ++ (excess ++ sender_pubkey))

pub record ParsedPaymentProof : Type 0 where
  pub amount : ℕ
  pub excess_hex : Text
  pub recipient_address : Text
  pub recipient_sig_hex : Text
  pub sender_address : Text
  pub sender_sig_hex : Text

unfoldable pub verify_ed25519 : Platform → List ℕ → List ℕ → List ℕ → Bool
unfolding sized
verify_ed25519 pf pubkey message sig =
    pf.key_from_bytes pubkey && (is_some (sized 64 sig) && pf.ed25519_verify pubkey message sig)

unfoldable pub both_signed : Platform → ParsedPaymentProof → Option Bool
both_signed pf proof = do
  recipient_pub ← decode_grin_address pf proof.recipient_address
  sender_pub ← decode_grin_address pf proof.sender_address
  msg ← payment_proof_message pf proof.amount proof.excess_hex sender_pub
  recipient_sig ← pf.hex_decode proof.recipient_sig_hex
  sender_sig ← pf.hex_decode proof.sender_sig_hex
  some (
      verify_ed25519 pf recipient_pub msg recipient_sig
      && verify_ed25519 pf sender_pub msg sender_sig)

-- `let … else { return false }`
unfoldable pub verify_signatures : Platform → ParsedPaymentProof → Bool
unfolding both_signed
verify_signatures pf proof = elim (both_signed pf proof) [ none ↦ false | some b ↦ b ]

module _ (js : Json) where
  open js use {Value, Number, shape, as_u64}

  unfoldable pub value_str : Value → Option Text
  value_str v = elim (shape v) [ Shape.string s ↦ some s | _ ↦ none ]

  amount_of : Value → Option ℕ
  amount_of v = elim (shape v) [
    | Shape.number n ↦ as_u64 n
    | Shape.string s ↦ parse_u64 (trim s)
    | _ ↦ none
  ]

  -- `value.as_object()`
  as_object : Value → Option Value
  as_object v = elim (shape v) [ Shape.object ↦ some v | _ ↦ none ]

  unfoldable pub text_field : Value → Text → Option Text
  text_field obj key = js.get obj key >>= value_str

  unfoldable pub parse_payment_proof : Platform → Value → Option ParsedPaymentProof
  unfolding value_str amount_of as_object text_field
  parse_payment_proof pf value = do
    obj ← as_object value
    amount_raw ← js.get obj (lit "amount")
    excess ← text_field obj (lit "excess")
    recipient_address ← text_field obj (lit "recipient_address")
    recipient_sig ← text_field obj (lit "recipient_sig")
    sender_address ← text_field obj (lit "sender_address")
    sender_sig ← text_field obj (lit "sender_sig")
    amount ← amount_of amount_raw
    some (record {
      amount = amount;
      excess_hex = pf.to_lowercase excess;
      recipient_address = recipient_address;
      recipient_sig_hex = pf.to_lowercase recipient_sig;
      sender_address = sender_address;
      sender_sig_hex = pf.to_lowercase sender_sig;
    })
