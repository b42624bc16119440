-- ===== src/RateLimit.antt =====
-- src/ratelimit.rs: the sliding-window limiter, the cooldowns and the replay set. The two hash maps
-- are association lists with one entry for each key. An `Instant` is a number of nanoseconds on one
-- monotonic clock; `duration_since` saturates at zero, as `-` on ℕ does.
pub mod Entries
pub mod Window
pub mod Cooldown
pub mod Calls
pub mod Replay
use goblin_nip05d.Prelude.Int.{cast_u64, u64_mod, ℤ}
use goblin_nip05d.Text.{Text, text_eq}
use goblin_nip05d.Prelude.{
  Bool, List, Option, [], any, false, if◌then◌else◌, is_some, keep, leb, length, ltb, none, not,
  some, true, ℕ, ◌%◌, ◌*◌, ◌++◌, ◌+◌, ◌-◌, ◌∷◌,
}
use mathlib.Core.List.{filter}

abbrev pub Instant : Type 0
Instant = ℕ

abbrev pub RateMap : Type 0
RateMap = List (Text × List Instant)

abbrev pub SeenMap : Type 0
SeenMap = List (Text × Instant)

-- `Duration::from_secs`
abbrev pub from_secs : ℕ → ℕ
from_secs s = s * 1000000000

-- `now.duration_since(*t) < window`
abbrev pub recent : Instant → ℕ → Instant → Bool
recent now window t = ltb (now - t) window

-- `format!("{bucket}:{key}")`
unfoldable pub rate_key : Text → Text → Text
rate_key bucket key = bucket ++ b':' ∷ key

module _ {V : Type 0} where
  unfoldable pub get_entry : Text → List (Text × V) → Option V
  get_entry k [] = none
  get_entry k ((j, v) ∷ m) = if text_eq j k then some v else get_entry k m

  unfoldable pub put_entry : Text → V → List (Text × V) → List (Text × V)
  put_entry k v [] = (k, v) ∷ []
  put_entry k v ((j, w) ∷ m) = if text_eq j k then (k, v) ∷ m else (j, w) ∷ put_entry k v m

abbrev pub or_empty : Option (List Instant) → List Instant
or_empty none = []
or_empty (some hits) = hits

-- `map.entry(key).or_default()`
unfoldable pub hits_of : Text → RateMap → List Instant
hits_of k m = or_empty (get_entry k m)

-- Some hit of the entry is recent.
abbrev pub has_recent : Instant → ℕ → Text × List Instant → Bool
has_recent now window e = any (recent now window) e.1

abbrev pub max_entries : ℕ
max_entries = 50000

-- The opportunistic cleanup of `allow`, with the window of the call at hand.
unfoldable pub cleanup : RateMap → Instant → ℕ → RateMap
cleanup m now window = if ltb max_entries (length m) then keep (has_recent now window) m else m

unfoldable pub allow : RateMap → Text → Text → ℕ → ℕ → Instant → RateMap × Bool
allow m bucket ip max window now =
    let key = rate_key bucket ip in
    let hits = keep (recent now window) (hits_of key m) in
    if leb max (length hits)
    then (put_entry key hits m, false)
    else (cleanup (put_entry key (hits ++ now ∷ []) m) now window, true)

unfoldable pub cooldown_active : RateMap → Text → Text → ℕ → Instant → RateMap × Bool
cooldown_active m bucket key window now =
    let k = rate_key bucket key in
    elim (get_entry k m) [
      | none ↦ (m, false)
      | some hits ↦
          let left = keep (recent now window) hits in
          (put_entry k left m, not (leb (length left) 0))
    ]

unfoldable pub record_op : RateMap → Text → Text → Instant → RateMap
record_op m bucket key now = let k = rate_key bucket key in put_entry k (hits_of k m ++ now ∷ []) m

-- `Duration::from_secs(self.cfg.auth_max_age_secs as u64 + 5)`, with the wrap-around of u64.
unfoldable pub replay_window : ℤ → ℕ
replay_window max_age = from_secs ((cast_u64 max_age + 5) % u64_mod)

unfoldable pub auth_event_fresh : SeenMap → Text → ℤ → Instant → SeenMap × Bool
auth_event_fresh seen id max_age now =
    let kept = keep (λ (e : Text × Instant). recent now (replay_window max_age) e.1) seen in
    if is_some (get_entry id kept) then (kept, false) else (put_entry id now kept, true)
