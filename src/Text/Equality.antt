-- ===== src/Text/Equality.antt =====
-- The equality of texts decides equality, and the bytes of a text.
use goblin_nip05d.Prelude.{
  ℕ, ◌+◌, ◌/◌, ◌≤◌, ◌≡◌, refl, sym, ◌∙◌, ◌↔◌, ◌≢◌, Bool, true, false, [], ◌∷◌, arith, all,
  all-append, Bool-cases, inl, inr, some, ◌++◌,
}
use goblin_nip05d.Text.{Text, text_eq, as_bytes, utf8_char, strip_prefix}

pub text_eq_refl : (s : Text) → text_eq s s ≡ true
unfolding text_eq
text_eq_refl [] = refl
text_eq_refl (x ∷ xs) = ground (arith, text_eq_refl xs)

pub eq-of-text_eq : (s t : Text) → text_eq s t ≡ true → s ≡ t
unfolding text_eq
eq-of-text_eq [] [] h = refl
eq-of-text_eq [] (y ∷ ys) h = absurd (cc)
eq-of-text_eq (x ∷ xs) [] h = absurd (cc)
eq-of-text_eq (x ∷ xs) (y ∷ ys) h = ground (arith, eq-of-text_eq xs ys)

pub text_eq-of-eq : {s t : Text} → s ≡ t → text_eq s t ≡ true
text_eq-of-eq {s} e = rw (← e) (text_eq_refl s)

pub text_eq_iff : (s t : Text) → (text_eq s t ≡ true) ↔ (s ≡ t)
text_eq_iff s t = (eq-of-text_eq s t, text_eq-of-eq)

pub ne-of-text_eq : (s t : Text) → text_eq s t ≡ false → s ≢ t
ne-of-text_eq s t h e = cc (text_eq-of-eq e)

pub text_eq-of-ne : (s t : Text) → s ≢ t → text_eq s t ≡ false
text_eq-of-ne s t h = ground (arith, text_eq_iff s t)

pub text_eq_symm : (s t : Text) → text_eq s t ≡ text_eq t s
text_eq_symm s t = elim (Bool-cases (text_eq s t)) [
  | inl e ↦ let p = eq-of-text_eq s t e in rw e (sym (text_eq-of-eq (sym p)))
  | inr e ↦ rw e (sym (text_eq-of-ne t s (λ p. ne-of-text_eq s t e (sym p))))
]

-- A test that only ASCII bytes pass sees the bytes of a text as it sees its code points.
utf8_char-all :
    (p : ℕ → Bool) → ((c : ℕ) → 128 ≤ c → p c ≡ false) → (c : ℕ) → all p (utf8_char c) ≡ p c
unfolding utf8_char
utf8_char-all p h c =
    ground (arith, h c, h (0xc0 + c / 64), h (0xe0 + c / 4096), h (0xf0 + c / 262144))

pub as_bytes-all :
    (p : ℕ → Bool) → ((c : ℕ) → 128 ≤ c → p c ≡ false) → (s : Text) → all p (as_bytes s) ≡ all p s
unfolding as_bytes
as_bytes-all p h [] = refl
as_bytes-all p h (c ∷ s) =
    all-append p (utf8_char c) (as_bytes s)
    ∙ ground (arith, utf8_char-all p h c, as_bytes-all p h s)

-- A stripped prefix stood in front.
pub strip_prefix-append : (p s t : Text) → strip_prefix p s ≡ some t → s ≡ p ++ t
unfolding strip_prefix
strip_prefix-append [] s t h = cc
strip_prefix-append (c ∷ p) [] t h = absurd (cc)
strip_prefix-append (c ∷ p) (d ∷ s) t h = ground (arith, strip_prefix-append p s t)
