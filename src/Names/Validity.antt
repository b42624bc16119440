-- ===== src/Names/Validity.antt =====
-- What `valid_name` and `valid_pubkey_hex` accept.
use goblin_nip05d.Text.Equality.{as_bytes-all}
use goblin_nip05d.Prelude.{
  ℕ, ◌≤◌, ◌<◌, ◌≡◌, refl, true, false, ◌&&◌, List, [], ◌∷◌, arith, all, length, some, get_elem?,
  head_or, last_or, All, All-of-all, Bool-cases, all-of-All, inl, inr, leb, none, ◌↔◌, ◌≢◌, ◌==◌,
}
use goblin_nip05d.Text.{Text, as_bytes, is_ascii_digit, is_ascii_lowercase}
use goblin_nip05d.Names.{ok_char, is_alnum, checked_valid_name, valid_name}

-- A letter from a to z, or a digit.
pub data IsLetterOrDigit (c : ℕ) : Type 0 where
  letter : 97 ≤ c → c ≤ 122 → IsLetterOrDigit c
  digit : 48 ≤ c → c ≤ 57 → IsLetterOrDigit c

-- A letter from a to z, a digit, a dot, an underscore or a dash.
pub data IsNameChar (c : ℕ) : Type 0 where
  alnum : IsLetterOrDigit c → IsNameChar c
  dot : c ≡ 46 → IsNameChar c
  underscore : c ≡ 95 → IsNameChar c
  dash : c ≡ 45 → IsNameChar c

-- The regular expression of the README, `^[a-z0-9._-]{min,max}$` with alphanumeric ends.
pub record IsName (name : Text) (name_min name_max : ℕ) : Type 0 where
  pub long : name_min ≤ length name
  pub short : length name ≤ name_max
  pub charset : All IsNameChar name
  pub starts : IsLetterOrDigit (head_or 0 name)
  pub ends : IsLetterOrDigit (last_or 0 name)

is_alnum_sound : (c : ℕ) → is_alnum c ≡ true → IsLetterOrDigit c
unfolding is_alnum is_ascii_lowercase is_ascii_digit
is_alnum_sound c h = elim (Bool-cases (leb 97 c && leb c 122)) [
  | inl e ↦ letter (ground arith) (ground arith)
  | inr e ↦ digit (ground arith) (ground arith)
]

is_alnum_complete : (c : ℕ) → IsLetterOrDigit c → is_alnum c ≡ true
unfolding is_alnum is_ascii_lowercase is_ascii_digit
is_alnum_complete c (letter h k) = ground arith
is_alnum_complete c (digit h k) = ground arith

ok_char_sound : (c : ℕ) → ok_char c ≡ true → IsNameChar c
unfolding ok_char is_alnum
ok_char_sound c h = elim (Bool-cases (is_alnum c)) [
  | inl e ↦ alnum (is_alnum_sound c e)
  | inr e ↦ elim (Bool-cases (c == 46)) [
    | inl d ↦ dot (ground arith)
    | inr d ↦ elim (Bool-cases (c == 95)) [
      | inl u ↦ underscore (ground arith)
      | inr u ↦ dash (ground arith)
    ]
  ]
]

ok_char_complete : (c : ℕ) → IsNameChar c → ok_char c ≡ true
unfolding ok_char is_alnum
ok_char_complete c (alnum a) = ground (arith, is_alnum_complete c a)
ok_char_complete c (dot e) = ground arith
ok_char_complete c (underscore e) = ground arith
ok_char_complete c (dash e) = ground arith

ok_char-ascii : (c : ℕ) → 128 ≤ c → ok_char c ≡ false
unfolding ok_char
ok_char-ascii c h = ground arith

ok_char-lt : (c : ℕ) → ok_char c ≡ true → c < 128
unfolding ok_char
ok_char-lt c h = ground arith

-- A text of valid characters is its own UTF-8 encoding.
as_bytes_of_ok : (s : Text) → all ok_char s ≡ true → as_bytes s ≡ s
unfolding as_bytes
as_bytes_of_ok [] h = refl
as_bytes_of_ok (c ∷ s) h = ground (arith, ok_char-lt c, as_bytes_of_ok s)

get_elem?-last : (x : ℕ) (xs : List ℕ) → get_elem? (x ∷ xs) (length xs) ≡ some (last_or x xs)
get_elem?-last x [] = refl
get_elem?-last x (y ∷ ys) = get_elem?-last y ys

-- With a text of valid characters that is not empty the two index expressions are in bounds.
checked-cons :
    (c : ℕ) (s : Text) (lo hi : ℕ)
    → lo ≤ length (c ∷ s)
    → length (c ∷ s) ≤ hi
    → all ok_char (c ∷ s) ≡ true
    → checked_valid_name (c ∷ s) lo hi ≡ some (is_alnum c && is_alnum (last_or c s))
unfolding checked_valid_name
checked-cons c s lo hi h k fine =
    rw (as_bytes_of_ok (c ∷ s) fine, fine) (ground (arith, get_elem?-last c s))

-- Any other text is refused before an index is taken.
checked-refused :
    (name : Text) (lo hi : ℕ)
    → (leb lo (length name) && leb (length name) hi && all ok_char name) ≡ false
    → checked_valid_name name lo hi ≡ some false
unfolding checked_valid_name
checked-refused name lo hi h = ground (arith, as_bytes-all ok_char ok_char-ascii name)

-- The value of `valid_name` in one expression over code points.
checked-cases :
    (c : ℕ) (s : Text) (lo hi : ℕ)
    → checked_valid_name (c ∷ s) lo hi
      ≡ some (
          leb lo (length (c ∷ s))
          && leb (length (c ∷ s)) hi
          && all ok_char (c ∷ s)
          && (is_alnum c && is_alnum (last_or c s)))
checked-cases c s lo hi =
    elim (Bool-cases (leb lo (length (c ∷ s)) && leb (length (c ∷ s)) hi && all ok_char (c ∷ s))) [
      | inl e ↦ rw e (checked-cons c s lo hi (ground arith) (ground arith) (ground arith))
      | inr e ↦ rw e (checked-refused (c ∷ s) lo hi e)
    ]

-- With a positive minimum length, which `Config::validate` demands, neither index expression of
-- `valid_name` is ever out of bounds, whatever the text.
pub checked_valid_name-ne-none :
    (name : Text) (lo hi : ℕ) → 1 ≤ lo → checked_valid_name name lo hi ≢ none
checked_valid_name-ne-none [] lo hi h = rw (checked-refused [] lo hi (ground arith)) (cc)
checked_valid_name-ne-none (c ∷ s) lo hi h = rw (checked-cases c s lo hi) (cc)

-- With a positive minimum length `valid_name`, which counts code points and tests UTF-8 bytes, accepts
-- exactly the texts within the bounds that are made of a-z, 0-9, dot, underscore and dash and begin and
-- end with a letter or a digit.
pub valid_name_iff :
    (name : Text) (lo hi : ℕ) → 1 ≤ lo → (valid_name name lo hi ≡ true) ↔ IsName name lo hi
unfolding valid_name
valid_name_iff [] lo hi h = (
  rw (checked-refused [] lo hi (ground arith), valid_name) (λ e. absurd (cc)),
  λ v. absurd (omega (arith, v.long)),
)
valid_name_iff (c ∷ s) lo hi h =
    rw (checked-cases c s lo hi, valid_name)
      (
        λ e. record {
          long = ground arith;
          short = ground arith;
          charset = All-of-all IsNameChar ok_char (c ∷ s) ok_char_sound (ground arith);
          starts = is_alnum_sound c (ground arith);
          ends = is_alnum_sound (last_or c s) (ground arith);
        },
        λ v. ground (
          arith,
          v.long,
          v.short,
          is_alnum_complete c v.starts,
          is_alnum_complete (last_or c s) v.ends,
          all-of-All IsNameChar ok_char (c ∷ s) ok_char_complete v.charset,
        ),
      )
