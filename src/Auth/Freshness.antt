-- ===== src/Auth/Freshness.antt =====
-- The age test of NIP-98 events, and how it fits the window of the replay set.
use goblin_nip05d.Prelude.Int.{
  -ℤ-IsI64, -ℤ_parts, cast_i64, cast_i64_small, cast_u64, i64_half, pos, u64_mod, wrap_i64,
  wrap_i64_of_IsI64, ◌-ℤ◌,
}
use goblin_nip05d.RateLimit.{from_secs, replay_window}
use goblin_nip05d.Auth.{age_of, is_stale}
use goblin_nip05d.Prelude.{ap, arith, dec_lt, false, true, ℕ, ◌+◌, ◌<◌, ◌≡◌, ◌≤◌}

-- An age in range is the difference of the two times.
pub age_small : (now c : ℕ) → now < i64_half → c < i64_half → age_of now c ≡ pos now -ℤ pos c
age_small now c h k =
    rw (cast_i64_small now h, cast_i64_small c k)
      (wrap_i64_of_IsI64 (pos now -ℤ pos c) (-ℤ-IsI64 now c h k))

-- The replay window in nanoseconds.
pub replay_window_small :
    (max_age : ℕ) → max_age < i64_half → replay_window (pos max_age) ≡ from_secs (max_age + 5)
unfolding replay_window cast_u64
replay_window_small max_age h = ap from_secs (omega arith)

-- A timestamp from 2^63 on is read as a negative number; its age is out of bounds.
age_large :
    (now c max_age : ℕ)
    → i64_half ≤ c
    → c < u64_mod
    → now < 4611686018427387904
    → max_age ≤ now
    → is_stale now c (pos max_age) ≡ true
unfolding is_stale wrap_i64 cast_i64 cast_u64 ◌-ℤ◌
age_large now c max_age h k small m = ground arith

-- Whatever 64-bit timestamp an event carries, one that passes the age test was made at most `max_age`
-- seconds ago and at most 5 seconds ahead, if the clock is below 2^62 and not less than `max_age`.
pub is_stale-bounds :
    (now c max_age : ℕ)
    → c < u64_mod
    → now < 4611686018427387904
    → max_age ≤ now
    → is_stale now c (pos max_age) ≡ false
    → (now ≤ c + max_age) × (c ≤ now + 5)
unfolding is_stale
is_stale-bounds now c max_age k small m e = elim (dec_lt c i64_half) [
  | yes lt ↦
      let age = age_small now c (omega arith) lt in
      let parts = -ℤ_parts (pos now) (pos c) in ground (arith, age, parts)
  | no ge ↦ absurd (ground (arith, age_large now c max_age (omega arith) k small m, e))
]
