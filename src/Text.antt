-- ===== src/Text.antt =====
-- Text as the list of its code points, and the operations of Rust's `str` that the program calls
-- (equality, ASCII classes, `trim`, `trim_end_matches`, `strip_prefix`, `split`, `as_bytes` and
-- `parse`). No file of the repository is modelled here.
pub mod Equality
pub mod Number
use Prim.Native.Char.{code}
use goblin_nip05d.Prelude.{
  ℕ, ◌+◌, ◌-◌, ◌*◌, ◌/◌, ◌%◌, ◌≤◌, ◌≡◌, refl, Bool, true, false, not, ◌&&◌, ◌||◌, List, [], ◌∷◌,
  ◌++◌, map, Option, none, some, arith, ltb, leb, ◌==◌, if◌then◌else◌, String, length, all, any,
}
use mathlib.Core.List.{reverse, flat_map}

abbrev pub Text : Type 0
Text = List ℕ

-- The code points of a literal.
unfoldable pub lit : String → Text
lit String.[] = []
lit (String.◌∷◌ c s) = code c ∷ lit s

unfoldable pub text_eq : Text → Text → Bool
text_eq [] [] = true
text_eq (x ∷ xs) (y ∷ ys) = x == y && text_eq xs ys
text_eq _ _ = false

unfoldable pub is_ascii_lowercase : ℕ → Bool
is_ascii_lowercase c = leb b'a' c && leb c b'z'

unfoldable pub is_ascii_uppercase : ℕ → Bool
is_ascii_uppercase c = leb b'A' c && leb c b'Z'

unfoldable pub is_ascii_digit : ℕ → Bool
is_ascii_digit c = leb b'0' c && leb c b'9'

unfoldable pub is_ascii_hexdigit : ℕ → Bool
unfolding is_ascii_digit
is_ascii_hexdigit c = is_ascii_digit c || (leb b'a' c && leb c b'f') || (leb b'A' c && leb c b'F')

unfoldable pub to_ascii_lowercase : ℕ → ℕ
unfolding is_ascii_uppercase
to_ascii_lowercase c = if is_ascii_uppercase c then c + 32 else c

unfoldable pub eq_ignore_ascii_case : Text → Text → Bool
unfolding text_eq to_ascii_lowercase
eq_ignore_ascii_case s t = text_eq (map to_ascii_lowercase s) (map to_ascii_lowercase t)

-- The Unicode White_Space property, `char::is_whitespace`.
unfoldable pub is_whitespace : ℕ → Bool
is_whitespace c =
    (leb 0x9 c && leb c 0xd)
    || c == 0x20
    || c == 0x85
    || c == 0xa0
    || c == 0x1680
    || (leb 0x2000 c && leb c 0x200a)
    || c == 0x2028
    || c == 0x2029
    || c == 0x202f
    || c == 0x205f
    || c == 0x3000

-- `trim_start_matches` by a test, and `trim_end_matches`.
unfoldable pub drop_while : (ℕ → Bool) → Text → Text
drop_while p [] = []
drop_while p (c ∷ s) = if p c then drop_while p s else c ∷ s

unfoldable pub drop_end_while : (ℕ → Bool) → Text → Text
drop_end_while p [] = []
drop_end_while p (c ∷ s) = if all p (c ∷ s) then [] else c ∷ drop_end_while p s

unfoldable pub trim : Text → Text
unfolding drop_while drop_end_while is_whitespace
trim s = drop_end_while is_whitespace (drop_while is_whitespace s)

unfoldable pub trim_end_matches : ℕ → Text → Text
unfolding drop_end_while
trim_end_matches c s = drop_end_while (λ x. x == c) s

unfoldable pub strip_prefix : Text → Text → Option Text
strip_prefix [] s = some s
strip_prefix (p ∷ ps) [] = none
strip_prefix (p ∷ ps) (c ∷ s) = if p == c then strip_prefix ps s else none

-- The loop of `split`: `cur` is the part that is being read.
unfoldable pub split_from : (ℕ → Bool) → Text → Text → List Text
split_from p cur [] = cur ∷ []
split_from p cur (c ∷ s) =
    let closed = cur ∷ split_from p [] s in
    let longer = split_from p (cur ++ c ∷ []) s in if p c then closed else longer

unfoldable pub split : (ℕ → Bool) → Text → List Text
unfolding split_from
split p s = split_from p [] s

-- UTF-8: the bytes of one code point, and `as_bytes`.
unfoldable pub utf8_char : ℕ → List ℕ
utf8_char c =
    if ltb c 0x80
    then c ∷ []
    else if ltb c 0x800
    then (0xc0 + c / 64) ∷ (0x80 + c % 64) ∷ []
    else if ltb c 0x10000
    then (0xe0 + c / 4096) ∷ (0x80 + c / 64 % 64) ∷ (0x80 + c % 64) ∷ []
    else (0xf0 + c / 262144) ∷ (0x80 + c / 4096 % 64) ∷ (0x80 + c / 64 % 64) ∷ (0x80 + c % 64) ∷ []

unfoldable pub as_bytes : Text → List ℕ
unfolding utf8_char
as_bytes [] = []
as_bytes (c ∷ s) = utf8_char c ++ as_bytes s
