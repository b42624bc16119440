-- ===== src/Transfer/Sound.antt =====
-- What a claim that answers 201 has checked and done.
use goblin_nip05d.Transfer.Paid.{Paid, decide_claim-Paid}
use goblin_nip05d.Transfer.Expiry.{Expires, Settlement, get_offer-own_id}
use goblin_nip05d.ClaimTxn.{at_get_offer}
use goblin_nip05d.History.Offers.{SameTerms}
use goblin_nip05d.Transfer.Steps.{check_consumed-Ended, settle_expiry-Ended, query-found}
use goblin_nip05d.Proof.{ParsedPaymentProof, parse_payment_proof}
use goblin_nip05d.Auth.{authorized, verify_nip98}
use goblin_nip05d.Platform.{Json, Platform}
use mathlib.Core.Path.{subst}
use goblin_nip05d.Transfer.Claim.{claim, claimed_id, decide_claim}
use goblin_nip05d.App.Rules.{Ended, gets-Ended, modify-Ended, require-Ended, unwrap_or-Ended}
use goblin_nip05d.App.Moment.{Moment, query, allow_write, auth_fresh, unix_now}
use goblin_nip05d.Db.Keys.{IsKeyed}
use goblin_nip05d.Text.{Text, lit}
use goblin_nip05d.Prelude.{◌≡◌, arith, some, ◌≢◌, List, ℕ, sym}
use goblin_nip05d.Db.{OfferRow, consumed, get_offer}
use goblin_nip05d.App.{App, Response, err, run}
use goblin_nip05d.Registry.Register.{authenticate-Ended}

module _ (mo : Moment) (pf : Platform) (js : Json) where
  -- The steps before: a signed request with an offer's id and a proof, and an offer that is not
  -- consumed once its expiry has been settled.
  pub record Begun (body : List ℕ) (s s' : App) (r : Response) : Type 1 where
    pub req : js.Value
    pub offer_id : Text
    pub proof_val : js.Value
    pub proof : ParsedPaymentProof
    pub stored : OfferRow
    pub offer : OfferRow
    pub pubkey : Text
    pub auth_id : Text
    pub s1 : App
    pub asked : js.from_slice body ≡ some req
    pub names_offer : claimed_id pf js req ≡ some offer_id
    pub gives_proof : js.get req (lit "proof") ≡ some proof_val
    pub parsed : parse_payment_proof js pf proof_val ≡ some proof
    pub signed :
        verify_nip98 pf mo.auth_time mo.headers
          (lit "POST")
          (lit "/api/v1/transfer/claim")
          body
          s.cfg.base_url
          s.cfg.auth_max_age_secs
        ≡ authorized (pubkey, auth_id)
    pub is_stored : get_offer s.db offer_id ≡ some stored
    pub terms : SameTerms stored offer
    pub settlement : Settlement mo (unix_now mo) stored offer
    pub unspent : offer.status ≢ consumed
    pub expiry : Expires s s1
    pub decided : Ended (decide_claim mo pf s.cfg pubkey proof offer) s1 s' r

  claim-Begun :
      (body : List ℕ) (s s' : App) (r : Response)
      → run (claim mo pf js body) s ≡ (s', r)
      → r.status ≡ 201
      → Begun body s s' r
  unfolding claim allow_write auth_fresh query err
  claim-Begun body s s' r e created =
      let h1 = modify-Ended _ _ s s' r e in
      let (_, h2) = require-Ended _ _ _ _ s' r h1 (omega arith) in
      let h3 = gets-Ended _ _ _ s' r h2 in
      let ((pubkey, id), signed, h4) = authenticate-Ended _ _ _ s' r h3 (omega arith) in
      let h5 = modify-Ended _ _ _ s' r h4 in
      let (_, h6) = require-Ended _ _ _ _ s' r h5 (omega arith) in
      let (req, asked, h7) = unwrap_or-Ended _ _ _ _ s' r h6 (omega arith) in
      let (offer_id, names_offer, h8) = unwrap_or-Ended _ _ _ _ s' r h7 (omega arith) in
      let (proof_val, gives_proof, h9) = unwrap_or-Ended _ _ _ _ s' r h8 (omega arith) in
      let (proof, parsed, h10) = unwrap_or-Ended _ _ _ _ s' r h9 (omega arith) in
      let h11 = gets-Ended _ _ _ s' r h10 in
      let (stored, read, h12) = unwrap_or-Ended _ _ _ _ s' r h11 (omega arith) in
      let is_stored : get_offer s.db offer_id ≡ some stored =
        query-found (mo.fails at_get_offer) _ read in
      let (offer, s1, h13, expiry, outcome) =
        settle_expiry-Ended mo stored (unix_now mo) _ _ s' r h12 in
      let (unspent, h14) = check_consumed-Ended mo _ _ _ _ _ s1 s' r h13 created in
      record {
        req = req;
        offer_id = offer_id;
        proof_val = proof_val;
        proof = proof;
        stored = stored;
        offer = offer;
        pubkey = pubkey;
        auth_id = id;
        s1 = s1;
        asked = asked;
        names_offer = names_offer;
        gives_proof = gives_proof;
        parsed = parsed;
        signed = signed;
        is_stored = is_stored;
        terms = (outcome (get_offer-own_id s.db offer_id stored is_stored)).0;
        settlement = (outcome (get_offer-own_id s.db offer_id stored is_stored)).1;
        unspent = unspent;
        expiry = record {
          names = expiry.names;
          transfers = expiry.transfers;
          cfg = expiry.cfg;
          keyed = expiry.keyed;
        };
        decided = h14;
      }

  -- The steps of `claim` together.
  pub record Claimed (body : List ℕ) (s s' : App) (r : Response) : Type 1 where
    pub begun : Begun body s s' r
    pub paid : Paid mo pf begun.pubkey begun.proof begun.offer begun.s1 s'

  -- In a database with unique keys, a claim that answers 201 carries an authorization by the offer's
  -- buyer and a proof in its body. The offer is the row that is stored under the id in the body, or, where
  -- that row was live and past its expiration and no fault hid it, the same row expired at the tip of
  -- the chain. It was not consumed; if it was revoked or expired, the kernel's height is at most the
  -- height of its death and the grace period has not passed. Sender and
  -- recipient of the proof have signed its amount and excess, its recipient is the offer's address, its
  -- amount is the offer's price, and the node has found its kernel with at least the configured
  -- confirmations. The name has moved from the seller, who owned it, to the
  -- buyer, the excess and the offer are spent for the first time, and no other name and no other offer
  -- has changed since the expiry was settled.
  pub claim-Claimed :
      (body : List ℕ) (s s' : App) (r : Response)
      → IsKeyed s.db
      → run (claim mo pf js body) s ≡ (s', r)
      → r.status ≡ 201
      → Claimed body s s' r
  claim-Claimed body s s' r keyed e created =
      let b = claim-Begun body s s' r e created in
      record {
        begun = b;
        paid =
            decide_claim-Paid mo pf b.pubkey b.proof b.offer b.s1 s' r (b.expiry.keyed keyed)
              (subst (λ cfg. Ended (decide_claim mo pf cfg b.pubkey b.proof b.offer) b.s1 s' r)
                (sym b.expiry.cfg) b.decided)
              created;
      }
