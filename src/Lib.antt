-- ===== src/Lib.antt =====
-- goblin-nip05d: a registry of NIP-05 names with transfers of names against Grin payments.
--
-- The server keeps three tables (names, offers, transfers) in SQLite, a map of rate limits and
-- cooldowns, and a set of used authorization events, each behind a mutex. A request is authorized by a
-- signed event (NIP-98), passes the limiter and the replay set, and reads and changes the tables; a
-- transfer is an offer that the seller lodges and that the buyer claims with a proof of payment.
--
-- Which file models which part:
--   Names          src/names.rs: the name grammar, reserved terms, look-alikes, keys.
--   Db             src/db.rs, and the statements in src/handlers/registry.rs and transfer.rs. A table is
--                  a list of rows, a statement a function that gives the changed database or a
--                  constraint error; `Keys` holds the unique keys of the schema as an invariant.
--   ClaimTxn       `run_claim_txn` of src/handlers/transfer.rs, with rollback.
--   RateLimit      src/ratelimit.rs: `allow`, `cooldown_active`, `record_op`, `auth_event_fresh`.
--   Config         src/config.rs: the record, `validate` and the node endpoints; `Env` loads it from the
--                  environment (`from_env`), which is an input, as are the files.
--   Auth           src/auth.rs: `verify_nip98`.
--   Proof          src/proof.rs: payment proofs and their two signatures.
--   App            `App` of src/db.rs and the handlers as functions of it: `require` and `unwrap_or`
--                  are the early returns. `Moment` is what a request meets (src/util.rs: headers and
--                  clocks; src/node.rs: the chain source; the failures of SQLite).
--   Registry       src/handlers/registry.rs: `availability`, `register`, `unregister`.
--   Transfer       src/handlers/transfer.rs: `lodge_offer`, `read_offer`, `revoke_offer`, `settle_expiry`
--                  and, in `Claim`, `claim`, whose steps from the third on are `decide_claim`.
--   Pages          src/handlers/profile.rs, wellknown.rs and misc.rs: the public pages.
--   Node           src/node.rs: `rpc`, `kernel_one` and the failover of `NodeClient` over an HTTP call that
--                  is a parameter, and the scripted `TestChainSource`.
--   History        The statements that change the database, in any order: what every interleaving of
--                  requests keeps; `Holdings` and `Moves` see a statement through the lookup.
--   Server         The routes of src/handlers/mod.rs, `App::open`, and the states that sequences of
--                  requests and restarts lead to; `Effects`, `Lasting`, `Once`, `Honoured`, `Buried`
--                  and `Refused` join the components.
--   Platform       The libraries that the program calls, as parameters: nostr events, base64, SHA-256,
--                  hex, bech32, ed25519, serde_json and Unicode lower-casing.
--   Text, Prelude  Texts as lists of code points, i64 and u64 with their casts, lists and tests.
--   Tests          Requests and components at concrete inputs.
--
-- Numbers: u64 and i64 wrap around at 2^64 as casts and release builds do; instants are nanoseconds
-- without an upper bound. No definition has fuel: every loop runs over a list.
--
-- Not modelled: HTTP, response headers, logging and the listener (src/main.rs), `Config::summary`, whose
-- text is logged, and `grin_address_from_pubkey`, which only tests call. A handler runs as one request
-- between its own statements; what other requests do in between is seen in `History`, where
-- statements follow each other in any order.
pub mod Prelude
pub mod Text
pub mod Names
pub mod Db
pub mod RateLimit
pub mod Config
pub mod Platform
pub mod Auth
pub mod App
pub mod Registry
pub mod Proof
pub mod ClaimTxn
pub mod Transfer
pub mod Tests
pub mod Server
pub mod Pages
pub mod Node
pub mod History
