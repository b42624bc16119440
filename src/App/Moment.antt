-- ===== src/App/Moment.antt =====
-- What a request meets: its headers, the readings of the clocks, the answers of the Grin node, the
-- failures of SQLite, and the calls of the limiter, the replay set, the authorization and the
-- database that the handlers share (src/ratelimit.rs, src/util.rs).
use goblin_nip05d.Prelude.Int.{cast_i64, ℤ}
use goblin_nip05d.ClaimTxn.{Faults, Site}
use goblin_nip05d.RateLimit.{Instant, allow, auth_event_fresh, cooldown_active, record_op}
use goblin_nip05d.Auth.{Headers}
use goblin_nip05d.Text.{Text, lit}
use goblin_nip05d.Prelude.{Bool, Option, false, if◌then◌else◌, none, some, ℕ}
use goblin_nip05d.App.{App, Handler, gets, modify}
use goblin_nip05d.Db.{Db, Exec, changed, constraint}

-- src/node.rs, `KernelResult`
pub record KernelResult : Type 0 where
  pub found : Bool
  pub confirmations : ℕ
  pub height : Option ℕ

-- src/node.rs, `ChainSource`: `none` is the error of a query, whose text is only logged.
pub record ChainSource : Type 0 where
  pub kernel : Text → Option KernelResult
  pub tip_height : Option ℕ

pub record Moment : Type 0 where
  pub headers : Headers
  -- `unix_now()`, and `Timestamp::now()` in `verify_nip98`, in seconds.
  pub unix : ℕ
  pub auth_time : ℕ
  -- `Instant::now()` in `allow`, `auth_event_fresh`, `cooldown_active` and `record_op`.
  pub allow_at : Instant
  pub fresh_at : Instant
  pub cooldown_at : Instant
  pub record_at : Instant
  pub node : Option ChainSource
  pub fails : Faults

-- `client_ip`
unfoldable pub client_ip : Headers → Text
client_ip h = elim h.x_real_ip [ none ↦ lit "unknown" | some ip ↦ ip ]

-- `unix_now` as i64
unfoldable pub unix_now : Moment → ℤ
unix_now mo = cast_i64 mo.unix

-- A statement by itself: the number of changed rows, a constraint, or a failure.
pub data Written : Type 0 where
  rows : ℕ → Written
  violation : Written
  failure : Written

abbrev pub settle : App → Exec → App × Written
settle s (changed n db) = (record s { db = db }, rows n)
settle s constraint = (s, violation)

module _ (mo : Moment) where
  unfoldable pub allow_read : Handler Bool
  unfolding modify
  allow_read = modify λ s.
      let (rate, allowed) =
        allow s.rate (lit "read") (client_ip mo.headers) s.cfg.read_rate_max s.cfg.read_rate_window
          mo.allow_at in
      (record s { rate = rate }, allowed)

  unfoldable pub allow_write : Text → Handler Bool
  unfolding modify
  allow_write bucket = modify λ s.
      let (rate, allowed) =
        allow s.rate bucket (client_ip mo.headers) s.cfg.write_rate_max s.cfg.write_rate_window
          mo.allow_at in
      (record s { rate = rate }, allowed)

  unfoldable pub auth_fresh : Text → Handler Bool
  unfolding modify
  auth_fresh id = modify λ s.
      let (seen, fresh) = auth_event_fresh s.seen id s.cfg.auth_max_age_secs mo.fresh_at in
      (record s { seen = seen }, fresh)

  unfoldable pub in_cooldown : Text → Handler Bool
  unfolding modify
  in_cooldown pubkey = modify λ s.
      let (rate, active) =
        cooldown_active s.rate (lit "namechange") pubkey s.cfg.name_change_cooldown
          mo.cooldown_at in
      (record s { rate = rate }, active)

  -- `record_op("namechange", …)`
  unfoldable pub arm_cooldown : Text → Handler (Unit {0})
  unfolding modify
  arm_cooldown pubkey =
      modify λ s. (record s { rate = record_op s.rate (lit "namechange") pubkey mo.record_at }, tt)

  -- A query that fails reads as a row that is not there: `.ok()` and `.is_ok()`.
  unfoldable pub query : {A : Type 0} → Site → (Db → Option A) → Handler (Option A)
  unfolding gets
  query site f = gets λ s. if mo.fails site then none else f s.db

  unfoldable pub query_any : Site → (Db → Bool) → Handler Bool
  unfolding gets
  query_any site f = gets λ s. if mo.fails site then false else f s.db

  unfoldable pub execute : Site → (Db → Exec) → Handler Written
  unfolding modify
  execute site f = modify λ s. if mo.fails site then (s, failure) else settle s (f s.db)
