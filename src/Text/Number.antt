-- ===== src/Text/Number.antt =====
-- `str::parse` for u64 and i64: an optional sign, at least one digit, digits only, and in range.
use goblin_nip05d.Prelude.{
  ℕ, ◌+◌, ◌-◌, ◌*◌, ◌<◌, ◌≡◌, [], ◌∷◌, Option, none, some, arith, ltb, leb, ◌==◌, if◌then◌else◌,
}
use goblin_nip05d.Prelude.Int.{ℤ, pos, negsuc, u64_mod, i64_half}
use goblin_nip05d.Text.{Text, is_ascii_digit}

-- The digits, most significant first; `none` at any other character.
unfoldable pub parse_digits : ℕ → Text → Option ℕ
unfolding is_ascii_digit
parse_digits acc [] = some acc
parse_digits acc (c ∷ s) =
    let rest = parse_digits (acc * 10 + (c - b'0')) s in if is_ascii_digit c then rest else none

-- At least one digit.
unfoldable pub parse_number : Text → Option ℕ
unfolding parse_digits
parse_number [] = none
parse_number (c ∷ s) = parse_digits 0 (c ∷ s)

below : ℕ → Option ℕ → Option ℕ
below bound none = none
below bound (some n) = if ltb n bound then some n else none

unfoldable pub parse_u64 : Text → Option ℕ
unfolding parse_number below
parse_u64 [] = none
parse_u64 (c ∷ s) = below u64_mod (if c == b'+' then parse_number s else parse_number (c ∷ s))

negate : Option ℕ → Option ℤ
negate none = none
negate (some n) =
    if n == 0 then some (pos 0) else if leb n i64_half then some (negsuc (n - 1)) else none

positive : Option ℕ → Option ℤ
positive none = none
positive (some n) = if ltb n i64_half then some (pos n) else none

unfoldable pub parse_i64 : Text → Option ℤ
unfolding parse_number negate positive
parse_i64 [] = none
parse_i64 (c ∷ s) =
    if c == b'-'
    then negate (parse_number s)
    else positive (if c == b'+' then parse_number s else parse_number (c ∷ s))

below-lt : (bound : ℕ) (o : Option ℕ) (n : ℕ) → below bound o ≡ some n → n < bound
unfolding below
below-lt bound none n h = absurd (cc)
below-lt bound (some m) n h = ground arith

-- A parsed u64 fits into 64 bits.
pub parse_u64-lt : (s : Text) (n : ℕ) → parse_u64 s ≡ some n → n < u64_mod
unfolding parse_u64
parse_u64-lt [] n h = absurd (cc)
parse_u64-lt (c ∷ s) n h =
    below-lt u64_mod (if c == b'+' then parse_number s else parse_number (c ∷ s)) n h
