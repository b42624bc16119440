-- ===== src/Tests/Scene.antt =====
-- A server, a request and libraries that answer in the simplest way: one signed event authorizes every
-- request, keys and signatures are all valid, and a body is read without looking at its bytes.
use goblin_nip05d.Prelude.Int.{pos}
use goblin_nip05d.App.Moment.{ChainSource, Moment}
use goblin_nip05d.Auth.{http_auth}
use goblin_nip05d.Text.{Text, lit, text_eq, to_ascii_lowercase}
use goblin_nip05d.Prelude.{
  List, Option, [], false, if◌then◌else◌, length, map, none, some, suc, true, zero, ℕ, ◌++◌, ◌==◌,
  ◌∷◌,
}
use goblin_nip05d.Config.{Config}
use goblin_nip05d.App.{App}
use goblin_nip05d.Platform.{Event, Json, Platform, Shape}
use goblin_nip05d.Db.{Db, NameRow, OfferRow, live}

abbrev pub zeros : ℕ → List ℕ
zeros zero = []
zeros (suc n) = 0 ∷ zeros n

abbrev pub alice : Text
alice = lit "1111111111111111111111111111111111111111111111111111111111111111"

abbrev pub bob : Text
bob = lit "2222222222222222222222222222222222222222222222222222222222222222"

-- An event for one URL path and one method, signed by a key.
abbrev pub auth_event : Text → Text → Text → Event
auth_event pubkey method path = record {
  id = lit "e";
  pubkey = pubkey;
  created_at = 1000;
  kind = http_auth;
  tags =
      (lit "u" ∷ (lit "https://goblin.st" ++ path) ∷ [])
      ∷ (lit "method" ∷ method ∷ [])
      ∷ (lit "payload" ∷ [] ∷ [])
      ∷ [];
}

abbrev pub libraries : Event → Platform
libraries event = record {
  event_from_json = λ _. some event;
  event_verify = λ _. true;
  event_as_json = λ _. [];
  base64_decode = λ _. some [];
  sha256 = λ bytes. bytes;
  hex_encode = λ _. [];
  hex_decode = λ s. some (zeros (if length s == 0 then 33 else 64));
  bech32_decode = λ _. some (lit "grin", []);
  from_base32 = λ _. some (zeros 32);
  key_from_bytes = λ _. true;
  ed25519_verify = λ _ _ _. true;
  to_lowercase = map to_ascii_lowercase;
  parse_register = λ _. some (record { name = lit "alice"; pubkey = alice });
}

abbrev pub node : ChainSource
node = record {
  kernel = λ _. some (record { found = true; confirmations = 10; height = some 50 });
  tip_height = some 60;
}

abbrev pub moment : Moment
moment = record {
  headers = record { authorization = some (lit "Nostr e"); x_real_ip = none };
  unix = 1000;
  auth_time = 1000;
  allow_at = 0;
  fresh_at = 0;
  cooldown_at = 0;
  record_at = 0;
  node = some node;
  fails = λ _. false;
}

abbrev pub config : Config
config = record {
  domain = lit "goblin.st";
  base_url = lit "https://goblin.st";
  relays = [];
  bind_addr = [];
  db_path = [];
  name_change_cooldown = 3600000000000;
  auth_max_age_secs = pos 60;
  name_min = 3;
  name_max = 20;
  read_rate_max = 60;
  read_rate_window = 60000000000;
  write_rate_max = 10;
  write_rate_window = 3600000000000;
  extra_reserved = [];
  allow_transfers = true;
  grin_node_url = some (lit "http://127.0.0.1:3413");
  transfer_min_conf = 10;
  transfer_max_offer_ttl = pos 2592000;
  transfer_claim_grace = pos 86400;
}

abbrev pub server : Db → App
server db = record { db = db; rate = []; seen = []; cfg = config }

abbrev pub alice_row : NameRow
alice_row = record { name = lit "alice"; pubkey = alice; created_at = pos 900; released_at = none }

abbrev pub offer_id : Text
offer_id = lit "abababababababababababababababababababababababababababababababab"

abbrev pub offer : OfferRow
offer = record {
  offer_id = offer_id;
  event_json = [];
  name = lit "alice";
  seller_pubkey = alice;
  buyer_pubkey = bob;
  price_nanogrin = pos 5;
  proof_address = lit "grin1";
  expiration = pos 2000;
  status = live;
  end_height = none;
  state_changed_at = none;
  created_at = pos 950;
}

-- Alice holds the name "alice" and has offered it to Bob.
abbrev pub stocked : Db
stocked = record { names = alice_row ∷ []; offers = offer ∷ []; transfers = [] }

-- A body with the offer's id and a proof: 0 is the body, 1 the id, 2 the proof, 3 the amount, 4 the
-- excess, 5 a signature or an address.
abbrev pub json_get : ℕ → Text → Option ℕ
json_get v key =
    if v == 0
    then (if text_eq key (lit "proof") then some 2 else some 1)
    else if text_eq key (lit "amount")
    then some 3
    else if text_eq key (lit "excess")
    then some 4
    else some 5

abbrev pub json_shape : ℕ → Shape ℕ
json_shape v =
    if v == 1
    then Shape.string offer_id
    else if v == 3
    then Shape.number 5
    else if v == 4
    then Shape.string []
    else if v == 5
    then Shape.string (lit "grin1")
    else Shape.object

abbrev pub json : Json
json = record {
  Value = ℕ;
  Number = ℕ;
  shape = json_shape;
  get = json_get;
  get_index = λ _ _. none;
  null_value = 6;
  as_u64 = some;
  from_slice = λ _. some 0;
  to_string = λ _. [];
}
