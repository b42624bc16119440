-- ===== src/Proof/Message.antt =====
-- The message that both parties of a payment sign: its fields can be read back.
use goblin_nip05d.Text.{Text}
use goblin_nip05d.Platform.{Platform}
use goblin_nip05d.Prelude.Int.{u64_mod}
use goblin_nip05d.Proof.{amount_to_be_u64, payment_proof_message, sized}
use goblin_nip05d.Prelude.{
  arith, length, refl, ℕ, ◌<◌, ◌≡◌, List, Option, [], ap, length-append, none, some, sym, ◌++◌, ◌+◌,
  ◌∙◌, ◌∷◌,
}

-- The bytes of a u64 give it back.
amount_injective :
    (a b : ℕ) → a < u64_mod → b < u64_mod → amount_to_be_u64 a ≡ amount_to_be_u64 b → a ≡ b
unfolding amount_to_be_u64
amount_injective a b h k e = ground arith

length-amount : (a : ℕ) → length (amount_to_be_u64 a) ≡ 8
unfolding amount_to_be_u64
length-amount a = refl

append-cancel :
    (xs ys us vs : List ℕ) → length xs ≡ length ys → xs ++ us ≡ ys ++ vs → (xs ≡ ys) × (us ≡ vs)
append-cancel [] [] us vs h e = (refl, e)
append-cancel [] (y ∷ ys) us vs h e = absurd (omega (arith, h))
append-cancel (x ∷ xs) [] us vs h e = absurd (omega (arith, h))
append-cancel (x ∷ xs) (y ∷ ys) us vs h e =
    let (p, q) = append-cancel xs ys us vs (omega (arith, h)) (cc) in (cc, q)

-- The parts of a message that was built.
message-parts :
    (pf : Platform) (amount : ℕ) (excess_hex : Text) (sender msg : List ℕ)
    → payment_proof_message pf amount excess_hex sender ≡ some msg
    → (excess : List ℕ) × (pf.hex_decode excess_hex ≡ some excess)
      × (length excess ≡ 33)
      × (amount_to_be_u64 amount ++ (excess ++ sender) ≡ msg)
unfolding payment_proof_message sized
message-parts pf amount excess_hex sender msg h = go (pf.hex_decode excess_hex) refl
  where
    go :
        (o : Option (List ℕ))
        → pf.hex_decode excess_hex ≡ o
        → (excess : List ℕ) × (pf.hex_decode excess_hex ≡ some excess)
          × (length excess ≡ 33)
          × (amount_to_be_u64 amount ++ (excess ++ sender) ≡ msg)
    go none p = absurd (ground arith)
    go (some raw) p = (raw, p, ground arith, ground arith)

-- Two payments with one signed message agree in the amount, the bytes of the excess and the sender's
-- key, if the amounts are below 2^64: a signature cannot be moved to another payment. The message has
-- 41 bytes before the sender's key.
pub payment_proof_message_injective :
    (pf : Platform) (a b : ℕ) (x y : Text) (s t msg : List ℕ)
    → a < u64_mod
    → b < u64_mod
    → payment_proof_message pf a x s ≡ some msg
    → payment_proof_message pf b y t ≡ some msg
    → (a ≡ b) × (pf.hex_decode x ≡ pf.hex_decode y) × (s ≡ t) × (length msg ≡ 41 + length s)
payment_proof_message_injective pf a b x y s t msg ha hb ea eb =
    let (ex, dx, lx, px) = message-parts pf a x s msg ea in
    let (ey, dy, ly, py) = message-parts pf b y t msg eb in
    let (amounts, rest) =
      append-cancel (amount_to_be_u64 a) (amount_to_be_u64 b) (ex ++ s) (ey ++ t)
        (length-amount a ∙ sym (length-amount b)) (px ∙ sym py) in
    let (excesses, senders) = append-cancel ex ey s t (lx ∙ sym ly) rest in
    (
      amount_injective a b ha hb amounts,
      dx ∙ ap some excesses ∙ sym dy,
      senders,
      ap length (sym px)
          ∙ length-append (amount_to_be_u64 a) (ex ++ s)
          ∙ omega (arith, length-amount a, length-append ex s, lx),
    )
