-- ===== src/App.antt =====
-- The shared state of src/db.rs, `App`, and handlers over it: a handler reads and changes the state,
-- and ends in a response, early or at its last line. The three mutexes are held for one call each,
-- and a handler is modelled as one request that runs alone between those calls.
pub mod Moment
pub mod Rules
pub mod Passes
pub mod Unless
use goblin_nip05d.Prelude.Int.{ℤ}
use goblin_nip05d.RateLimit.{RateMap, SeenMap}
use goblin_nip05d.Text.{Text}
use goblin_nip05d.Prelude.{Bool, List, Option, String, [], false, none, some, true, ℕ, ◌∷◌}
use goblin_nip05d.Config.{Config}
use goblin_nip05d.Db.{Db}

-- `App`: the database, the rate map, the replay set and the configuration. The chain source stands in
-- the request's `Moment`, since what it answers depends on the time.
pub record App : Type 0 where
  pub db : Db
  pub rate : RateMap
  pub seen : SeenMap
  pub cfg : Config

-- A field of a JSON body.
pub data Datum : Type 0 where
  text : Text → Datum
  int : ℤ → Datum
  flag : Bool → Datum
  -- The JSON value of a stored text, null if it has none.
  parsed : Text → Datum
  -- A map of one text to one text, or to a list of texts; empty without an entry.
  text_map : Option (Text × Text) → Datum
  texts_map : Option (Text × List Text) → Datum

pub record Response : Type 0 where
  pub status : ℕ
  pub body : List (String × Datum)

-- `err`, and the same pair written out.
unfoldable pub err : ℕ → Text → Response
err code msg = record { status = code; body = ("error", text msg) ∷ [] }

pub data Outcome {ℓ} (A : Type ℓ) : Type ℓ where
  next : A → App → Outcome A
  reply : Response → App → Outcome A

abbrev pub Handler {ℓ} : Type ℓ → Type ℓ
Handler A = App → Outcome A

abbrev pub continue {ℓ κ} : {A : Type ℓ} {B : Type κ} → Outcome A → (A → Handler B) → Outcome B
continue (next a s) f = f a s
continue (reply r s) f = reply r s

infixl 5 ◌>>=◌ ◌>>◌
unfoldable pub ◌>>=◌ {ℓ κ} : {A : Type ℓ} {B : Type κ} → Handler A → (A → Handler B) → Handler B
◌>>=◌ m f s = continue (m s) f

abbrev pub ◌>>◌ {ℓ} : {B : Type ℓ} → Handler (Unit {0}) → Handler B → Handler B
m >> k = m >>= λ _. k

unfoldable pub pure {ℓ} : {A : Type ℓ} → A → Handler A
pure a s = next a s

-- `return r`
unfoldable pub respond {ℓ} : {A : Type ℓ} → Response → Handler A
respond r s = reply r s

-- `if !b { return r }`
unfoldable pub require : Bool → Response → Handler (Unit {0})
require true r s = next tt s
require false r s = reply r s

-- `let Some(a) = o else { return r }`
unfoldable pub unwrap_or {ℓ} : {A : Type ℓ} → Option A → Response → Handler A
unwrap_or (some a) r s = next a s
unwrap_or none r s = reply r s

-- A value of the state.
unfoldable pub gets {ℓ} : {A : Type ℓ} → (App → A) → Handler A
gets f s = next (f s) s

-- A change of the state with a result.
unfoldable pub modify {ℓ} : {A : Type ℓ} → (App → App × A) → Handler A
modify f s = let (s', a) = f s in next a s'

-- The response of a handler, and the state that it leaves.
unfoldable pub run : Handler Response → App → App × Response
run h s = elim (h s) [ next r s' ↦ (s', r) | reply r s' ↦ (s', r) ]
