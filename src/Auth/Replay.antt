-- ===== src/Auth/Replay.antt =====
-- Whether an authorization event can be used twice: the age test and the replay set together.
use goblin_nip05d.Prelude.Int.{pos, u64_mod, -ℤ_parts}
use goblin_nip05d.Auth.Freshness.{age_small, is_stale-bounds, replay_window_small}
use goblin_nip05d.RateLimit.Replay.{after_uses, auth_event_fresh_again, auth_event_fresh_once}
use goblin_nip05d.RateLimit.{Instant, SeenMap, auth_event_fresh, from_secs, recent, replay_window}
use goblin_nip05d.Auth.{is_stale}
use goblin_nip05d.Text.{Text}
use goblin_nip05d.Prelude.{All, List, arith, false, lt→ltb, true, ℕ, ◌+◌, ◌-◌, ◌<◌, ◌≡◌, ◌≤◌}

abbrev pub clock_bound : ℕ
clock_bound = 4611686018427387904

-- An event that is accepted while it is post-dated by at most four seconds is refused at every later
-- moment at which it still passes the age test, whatever recent uses came in between. The clocks are
-- below 2^62 - 1, and the monotonic clock runs with the wall clock to the precision of a second.
pub single_use :
    (max_age c wall wall' : ℕ) (t t' : Instant) (id : Text) (seen : SeenMap)
    (cs : List (Text × Instant))
    → c < u64_mod
    → wall' < clock_bound
    → wall ≤ wall'
    → max_age ≤ wall
    → c ≤ wall + 4
    → is_stale wall' c (pos max_age) ≡ false
    → t' < t + from_secs (wall' - wall + 1)
    → (auth_event_fresh seen id (pos max_age) t).1 ≡ true
    → All (λ e. recent e.1 (replay_window (pos max_age)) t ≡ true) cs
    → (auth_event_fresh
        (after_uses (pos max_age) (auth_event_fresh seen id (pos max_age) t).0 cs)
        id
        (pos max_age)
        t').1
      ≡ false
single_use max_age c wall wall' t t' id seen cs hc hw hle hm early passes clock accepted between =
    let bounds = is_stale-bounds wall' c max_age hc hw (omega arith) passes in
    auth_event_fresh_once (pos max_age) seen id t t' cs accepted between (
      rw (replay_window_small max_age (omega arith))
        (lt→ltb (t' - t) (from_secs (max_age + 5)) (omega arith)))

-- The replay window is one second short of the age test: an event used when it is post-dated by five
-- seconds is accepted again `max_age + 5` seconds later, when it is exactly `max_age` seconds old.
pub replayed :
    (max_age wall : ℕ) (t : Instant) (id : Text) (seen : SeenMap)
    → wall + max_age + 5 < clock_bound
    → (auth_event_fresh seen id (pos max_age) t).1 ≡ true
    → (is_stale wall (wall + 5) (pos max_age) ≡ false)
      × (is_stale (wall + max_age + 5) (wall + 5) (pos max_age) ≡ false)
      × ((auth_event_fresh
            (auth_event_fresh seen id (pos max_age) t).0
            id
            (pos max_age)
            (t + from_secs (max_age + 5))).1
          ≡ true)
unfolding is_stale
replayed max_age wall t id seen h accepted = (
  (let age = age_small wall (wall + 5) (omega arith) (omega arith) in
      let parts = -ℤ_parts (pos wall) (pos (wall + 5)) in ground (arith, age, parts)),
  (let age = age_small (wall + max_age + 5) (wall + 5) (omega arith) (omega arith) in
      let parts = -ℤ_parts (pos (wall + max_age + 5)) (pos (wall + 5)) in
      ground (arith, age, parts)),
  auth_event_fresh_again (pos max_age) seen id t (t + from_secs (max_age + 5)) accepted
      (rw (replay_window_small max_age (omega arith)) (ground arith)),
)
