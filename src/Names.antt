-- ===== src/Names.antt =====
-- src/names.rs: which names are valid, the reserved list, look-alike folding, the labels of the
-- operator's domain, and the shape of a public key.
pub mod Validity
pub mod Reserved
use mathlib.Core.List.{filter_map}
use goblin_nip05d.Prelude.{
  ℕ, ◌+◌, ◌-◌, ◌≤◌, ◌≡◌, refl, Bool, true, false, not, ◌&&◌, ◌||◌, List, [], ◌∷◌, ◌++◌, map, Option,
  none, some, arith, ltb, leb, ◌==◌, if◌then◌else◌, length, all, any, keep, head_or, last_or,
  get_elem?, ◌>>=◌, is_none,
}
use goblin_nip05d.Text.{
  Text, lit, text_eq, is_ascii_lowercase, is_ascii_uppercase, is_ascii_digit, is_ascii_hexdigit,
  as_bytes, trim, trim_end_matches, split,
}

-- `RESERVED`
unfoldable pub reserved_terms : List Text
unfolding lit
reserved_terms =
    lit "admin"
    ∷ lit "administrator"
    ∷ lit "root"
    ∷ lit "support"
    ∷ lit "help"
    ∷ lit "info"
    ∷ lit "mail"
    ∷ lit "email"
    ∷ lit "www"
    ∷ lit "relay"
    ∷ lit "nostr"
    ∷ lit "pay"
    ∷ lit "payment"
    ∷ lit "payments"
    ∷ lit "wallet"
    ∷ lit "official"
    ∷ lit "security"
    ∷ lit "abuse"
    ∷ lit "postmaster"
    ∷ lit "hostmaster"
    ∷ lit "webmaster"
    ∷ lit "contact"
    ∷ lit "team"
    ∷ lit "staff"
    ∷ lit "mod"
    ∷ lit "moderator"
    ∷ lit "moderators"
    ∷ lit "system"
    ∷ lit "bot"
    ∷ lit "api"
    ∷ lit "app"
    ∷ lit "dev"
    ∷ lit "developer"
    ∷ lit "test"
    ∷ lit "testing"
    ∷ lit "anonymous"
    ∷ lit "anon"
    ∷ lit "null"
    ∷ lit "void"
    ∷ lit "owner"
    ∷ lit "ceo"
    ∷ lit "register"
    ∷ lit "registration"
    ∷ lit "account"
    ∷ lit "accounts"
    ∷ lit "verify"
    ∷ lit "verified"
    ∷ lit "billing"
    ∷ lit "donate"
    ∷ lit "treasury"
    ∷ lit "faucet"
    ∷ lit "exchange"
    ∷ lit "swap"
    ∷ lit "bank"
    ∷ lit "money"
    ∷ lit "cash"
    ∷ lit "fees"
    ∷ lit "fee"
    ∷ lit "node"
    ∷ lit "miner"
    ∷ lit "mining"
    ∷ lit "explorer"
    ∷ lit "status"
    ∷ lit "blog"
    ∷ lit "news"
    ∷ lit "docs"
    ∷ lit "wiki"
    ∷ lit "store"
    ∷ lit "shop"
    ∷ []

-- The closure `ok_char` of `valid_name`.
unfoldable pub ok_char : ℕ → Bool
unfolding is_ascii_lowercase is_ascii_digit
ok_char c = is_ascii_lowercase c || is_ascii_digit c || (c == b'.' || c == b'_' || c == b'-')

unfoldable pub is_alnum : ℕ → Bool
unfolding is_ascii_lowercase is_ascii_digit
is_alnum c = is_ascii_lowercase c || is_ascii_digit c

-- `valid_name` with its two index expressions: `none` is the panic of an index out of bounds.
unfoldable pub checked_valid_name : Text → ℕ → ℕ → Option Bool
unfolding ok_char is_alnum as_bytes
checked_valid_name name name_min name_max =
    let bytes = as_bytes name in
    let len = length name in
    if not (leb name_min len && leb len name_max)
    then some false
    else if not (all ok_char bytes)
    then some false
    else do
      first ← get_elem? bytes 0
      last ← get_elem? bytes (length bytes - 1)
      some (is_alnum first && is_alnum last)

-- The answer of `valid_name`; a handler that panics gives no answer, which counts as a refusal.
unfoldable pub valid_name : Text → ℕ → ℕ → Bool
unfolding checked_valid_name
valid_name name name_min name_max = elim (checked_valid_name name name_min name_max) [
  | some b ↦ b
  | none ↦ false
]

-- One character under `fold_lookalike`; `none` drops it.
unfoldable pub fold_char : ℕ → Option ℕ
fold_char c =
    if c == b'.' || c == b'_' || c == b'-'
    then none
    else some (
        if c == b'0'
        then b'o'
        else if c == b'1'
        then b'i'
        else if c == b'3'
        then b'e'
        else if c == b'4'
        then b'a'
        else if c == b'5'
        then b's'
        else if c == b'7'
        then b't'
        else if c == b'8'
        then b'b'
        else if c == b'9'
        then b'g'
        else c)

fold_cons : Option ℕ → Text → Text
fold_cons none s = s
fold_cons (some c) s = c ∷ s

unfoldable pub fold_lookalike : Text → Text
unfolding fold_char fold_cons
fold_lookalike [] = []
fold_lookalike (c ∷ s) = fold_cons (fold_char c) (fold_lookalike s)

unfoldable pub is_reserved : Text → List Text → Bool
is_reserved name extra =
    let folded = fold_lookalike name in
    if any (λ r. text_eq r name) reserved_terms || any (λ r. text_eq r name) extra
    then true
    else any (λ r. text_eq (fold_lookalike r) folded) reserved_terms
      || any (λ r. text_eq (fold_lookalike r) folded) extra

abbrev is_empty : Text → Bool
is_empty [] = true
is_empty (c ∷ s) = false

-- All entries but the last.
abbrev pub init : List Text → List Text
init [] = []
init (l ∷ []) = []
init (l ∷ l' ∷ ls) = l ∷ init (l' ∷ ls)

-- `str::to_lowercase`, which follows the Unicode tables, is a parameter.
unfoldable pub domain_reserved : (Text → Text) → Text → List Text
unfolding trim trim_end_matches split
domain_reserved to_lowercase domain =
    let labels =
      keep (λ l. not (is_empty l)) (split (λ c. c == b'.') (trim_end_matches b'.' (trim domain))) in
    let kept = if ltb 1 (length labels) then init labels else labels in map to_lowercase kept

unfoldable pub valid_pubkey_hex : Text → Bool
unfolding as_bytes is_ascii_hexdigit is_ascii_uppercase
valid_pubkey_hex pk =
    let bytes = as_bytes pk in
    length bytes == 64 && all (λ c. is_ascii_hexdigit c && not (is_ascii_uppercase c)) bytes
