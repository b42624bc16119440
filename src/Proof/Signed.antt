-- ===== src/Proof/Signed.antt =====
-- What `verify_signatures` of src/proof.rs has checked when it holds.
use goblin_nip05d.Proof.{
  ParsedPaymentProof, both_signed, decode_grin_address, payment_proof_message, verify_ed25519,
  verify_signatures,
}
use goblin_nip05d.Prelude.{
  >>=-eq-some, List, Option-cases, arith, inl, inr, some, true, ℕ, ◌&&◌, ◌≡◌,
}
use goblin_nip05d.Platform.{Platform}

-- One message, of the amount, the excess and the sender's key, that both keys have signed.
pub record Signed (pf : Platform) (proof : ParsedPaymentProof) : Type 0 where
  pub recipient_pub : List ℕ
  pub sender_pub : List ℕ
  pub message : List ℕ
  pub recipient_sig : List ℕ
  pub sender_sig : List ℕ
  pub recipient : decode_grin_address pf proof.recipient_address ≡ some recipient_pub
  pub sender : decode_grin_address pf proof.sender_address ≡ some sender_pub
  pub content : payment_proof_message pf proof.amount proof.excess_hex sender_pub ≡ some message
  pub recipient_hex : pf.hex_decode proof.recipient_sig_hex ≡ some recipient_sig
  pub sender_hex : pf.hex_decode proof.sender_sig_hex ≡ some sender_sig
  pub by_recipient : pf.ed25519_verify recipient_pub message recipient_sig ≡ true
  pub by_sender : pf.ed25519_verify sender_pub message sender_sig ≡ true

signed-some :
    (pf : Platform) (proof : ParsedPaymentProof)
    → verify_signatures pf proof ≡ true
    → both_signed pf proof ≡ some true
unfolding verify_signatures
signed-some pf proof h = elim (Option-cases (both_signed pf proof)) [
  | inl n ↦ absurd (cc (rw (n, verify_signatures) at h))
  | inr (b, e) ↦ ground arith
]

verified :
    (pf : Platform) (key message sig : List ℕ)
    → verify_ed25519 pf key message sig ≡ true
    → pf.ed25519_verify key message sig ≡ true
unfolding verify_ed25519
verified pf key message sig h = ground arith

pub verify_signatures-Signed :
    (pf : Platform) (proof : ParsedPaymentProof)
    → verify_signatures pf proof ≡ true
    → Signed pf proof
unfolding both_signed
verify_signatures-Signed pf proof h =
    let h0 = signed-some pf proof h in
    let (recipient_pub, recipient, h1) =
      >>=-eq-some (decode_grin_address pf proof.recipient_address) _ h0 in
    let (sender_pub, sender, h2) = >>=-eq-some (decode_grin_address pf proof.sender_address) _ h1 in
    let (message, content, h3) =
      >>=-eq-some (payment_proof_message pf proof.amount proof.excess_hex sender_pub) _ h2 in
    let (recipient_sig, recipient_hex, h4) =
      >>=-eq-some (pf.hex_decode proof.recipient_sig_hex) _ h3 in
    let (sender_sig, sender_hex, h5) = >>=-eq-some (pf.hex_decode proof.sender_sig_hex) _ h4 in
    let both : (verify_ed25519 pf recipient_pub message recipient_sig
          && verify_ed25519 pf sender_pub message sender_sig)
        ≡ true =
      cc h5 in
    record {
      recipient_pub = recipient_pub;
      sender_pub = sender_pub;
      message = message;
      recipient_sig = recipient_sig;
      sender_sig = sender_sig;
      recipient = recipient;
      sender = sender;
      content = content;
      recipient_hex = recipient_hex;
      sender_hex = sender_hex;
      by_recipient = verified pf recipient_pub message recipient_sig (ground arith);
      by_sender = verified pf sender_pub message sender_sig (ground arith);
    }
