-- ===== src/Server/Effects.antt =====
-- What each request does to the holders of the names, and by which right.
use goblin_nip05d.Server.Quiet.{
  SameNames, SameNames-IsClosedFor, alone_before, same_lookup, upsert_name-takes,
}
use goblin_nip05d.App.Rules.{Keeps, run-keeps}
use goblin_nip05d.App.Moment.{Moment}
use goblin_nip05d.Transfer.Sound.{Claimed, claim-Claimed}
use goblin_nip05d.Transfer.Invariant.{
  Keeps-lodge_offer, Keeps-read_offer, Keeps-revoke_offer, claim-IsKeyed,
}
use goblin_nip05d.Transfer.Claim.{claim}
use goblin_nip05d.Pages.Invariant.{
  Keeps-by_pubkey, Keeps-health, Keeps-landing, Keeps-profile, Keeps-well_known,
}
use goblin_nip05d.Server.Refused.{Refused-Same}
use goblin_nip05d.Db.Holders.{unheld}
use goblin_nip05d.Db.Keys.{IsKeyed}
use goblin_nip05d.Registry.Invariant.{Keeps-availability}
use goblin_nip05d.Registry.Register.{Registered, register-Registered}
use goblin_nip05d.Registry.Release.{Released, unregister-Released}
use goblin_nip05d.Registry.{register, unregister}
use goblin_nip05d.Server.{
  Keeps-transfer_route, Reachable, Reachable-IsKeyed, Request, availability_of, claiming,
  front_page, handle, health_check, lodging, name_held_by, profile_of, reading, registration,
  release, resolution, revocation, transfer_route,
}
use goblin_nip05d.Text.{Text}
use goblin_nip05d.Prelude.{
  Bool-cases, List, [], ap, inl, inr, none, refl, some, sym, true, ℕ, ◌∙◌, ◌≡◌, ◌≢◌, ◌⊎◌,
}
use goblin_nip05d.Platform.{Json, Platform}
use goblin_nip05d.Db.{Db, lookup}
use goblin_nip05d.App.{◌>>=◌, App, Handler, Response, gets, respond, run}
use mathlib.Core.Path.{subst}

-- One name passes from a seller, who held it, to a buyer, who held no other.
pub record Passes (name seller buyer : Text) (db db' : Db) : Type 0 where
  pub held : lookup db name ≡ some seller
  pub alone : (n : Text) → n ≢ name → lookup db n ≢ some buyer
  pub moved : lookup db' name ≡ some buyer
  pub others : (n : Text) → n ≢ name → lookup db' n ≡ lookup db n

routed :
    (h : Handler Response) (s : App)
    → ((s.cfg.allow_transfers ≡ true) × (run (transfer_route h) s ≡ run h s))
      ⊎ ((run (transfer_route h) s).0 ≡ s)
unfolding transfer_route gets respond ◌>>=◌ run
routed h s = elim (Bool-cases s.cfg.allow_transfers) [
  | inl e ↦ inl (e, rw e refl)
  | inr e ↦ inr (rw e refl)
]

module _ (pf : Platform) (js : Json) where
  -- What a request may do to the names: nothing; or it is a registration, signed by a key without a
  -- name, of a free name; or a release, signed by the holder; or, where transfers are allowed, a claim with
  -- its evidence, which moves the name of the offer from its seller to its buyer.
  pub data Effect (mo : Moment) (q : Request) (s t : App) : Type 1 where
    stays : ((n : Text) → lookup t.db n ≡ lookup s.db n) → Effect mo q s t
    takes :
        (body : List ℕ)
        → q ≡ registration body
        → (e : Registered pf mo body s t) → lookup s.db (pf.to_lowercase e.req.name) ≡ none
        → ((n : Text) → lookup s.db n ≢ some e.pubkey)
        → Effect mo q s t
    gives_up :
        (raw_name : Text) → q ≡ release raw_name → Released pf mo raw_name s t → Effect mo q s t
    passes :
        (body : List ℕ) (r : Response)
        → q ≡ claiming body
        → s.cfg.allow_transfers ≡ true
        → (c : Claimed mo pf js body s t r)
        → Passes c.begun.stored.name c.begun.stored.seller_pubkey c.begun.pubkey s.db t.db
        → Effect mo q s t

  quiet :
      (mo : Moment) (q : Request) (s : App) (h : Handler Response)
      → Keeps (SameNames s.db) h
      → Effect mo q s (run h s).0
  quiet mo q s h k = stays (same_lookup s.db (run h s).0.db (run-keeps h s k refl))

  quiet_route :
      (mo : Moment) (q : Request) (s : App) (h : Handler Response)
      → Keeps (SameNames s.db) h
      → Effect mo q s (run (transfer_route h) s).0
  quiet_route mo q s h k = quiet mo q s (transfer_route h) (Keeps-transfer_route pf js h k)

  registration-Effect :
      (mo : Moment) (body : List ℕ) (s : App)
      → IsKeyed s.db
      → Effect mo (registration body) s (run (register pf mo body) s).0
  registration-Effect mo body s keyed = elim (Refused-Same mo pf js s body []).0 [
    | inl same ↦ stays (same_lookup s.db _ same.0)
    | inr created ↦
        let e = register-Registered pf mo body s _ _ refl created in
        let (unheld, alone) = upsert_name-takes s.db _ _ _ _ keyed e.written in
        takes body refl e unheld (λ n held. alone n (held ∙ ap some (sym e.own_key)))
  ]

  release-Effect :
      (mo : Moment) (raw_name : Text) (s : App)
      → Effect mo (release raw_name) s (run (unregister pf mo raw_name) s).0
  release-Effect mo raw_name s = elim (Refused-Same mo pf js s [] raw_name).1 [
    | inl same ↦ stays (same_lookup s.db _ same.0)
    | inr done ↦ gives_up raw_name refl (unregister-Released pf mo raw_name s _ _ refl done)
  ]

  claimed-Passes :
      (mo : Moment) (body : List ℕ) (s t : App) (r : Response) (c : Claimed mo pf js body s t r)
      → IsKeyed t.db
      → Passes c.begun.stored.name c.begun.stored.seller_pubkey c.begun.pubkey s.db t.db
  claimed-Passes mo body s t r c keyed =
      let terms = c.begun.terms in
      let done = c.paid.settled in
      let before = same_lookup s.db c.begun.s1.db c.begun.expiry.names in
      let moved : lookup t.db c.begun.stored.name ≡ some c.begun.pubkey =
        subst (λ n. lookup t.db n ≡ some c.begun.pubkey) terms.name
          (done.moved ∙ ap some (sym c.paid.buyer)) in
      let others : (n : Text) → n ≢ c.begun.stored.name → lookup t.db n ≡ lookup s.db n =
        λ n ne. done.others n (λ e. ne (e ∙ terms.name)) ∙ before n in
      record {
        held =
            subst (λ n. lookup s.db n ≡ some c.begun.stored.seller_pubkey) terms.name
              (sym (before c.begun.offer.name) ∙ done.owned ∙ ap some terms.seller_pubkey);
        alone = alone_before s.db t.db _ _ keyed moved others;
        moved = moved;
        others = others;
      }

  claiming-Effect :
      (mo : Moment) (body : List ℕ) (s : App)
      → IsKeyed s.db
      → Effect mo (claiming body) s (run (transfer_route (claim mo pf js body)) s).0
  claiming-Effect mo body s keyed = elim (routed (claim mo pf js body) s) [
    | inr same ↦ stays (λ n. ap (λ (t : App). lookup t.db n) same)
    | inl (allowed, e) ↦
        subst (λ (o : App × Response). Effect mo (claiming body) s o.0) (sym e)
          (elim (Refused-Same mo pf js s body []).2 [
            | inl same ↦ stays (same_lookup s.db _ same.0)
            | inr created ↦
                let c = claim-Claimed mo pf js body s _ _ keyed refl created in
                passes body _ refl allowed c
                  (claimed-Passes mo body s _ _ c (claim-IsKeyed mo pf js body s keyed))
          ])
  ]

  handle-Effect :
      (mo : Moment) (q : Request) (s : App)
      → IsKeyed s.db
      → Effect mo q s (run (handle pf js mo q) s).0
  unfolding handle
  handle-Effect mo (resolution name) s k =
      quiet mo _ s _ (Keeps-well_known (SameNames-IsClosedFor s.db) pf mo name)
  handle-Effect mo (availability_of name) s k =
      quiet mo _ s _ (Keeps-availability (SameNames-IsClosedFor s.db) pf mo name)
  handle-Effect mo (registration body) s k = registration-Effect mo body s k
  handle-Effect mo (release name) s k = release-Effect mo name s
  handle-Effect mo (profile_of name) s k =
      quiet mo _ s _ (Keeps-profile (SameNames-IsClosedFor s.db) pf mo name)
  handle-Effect mo (name_held_by pubkey) s k =
      quiet mo _ s _ (Keeps-by_pubkey (SameNames-IsClosedFor s.db) pf mo pubkey)
  handle-Effect mo health_check s k = quiet mo _ s _ Keeps-health
  handle-Effect mo front_page s k = quiet mo _ s _ Keeps-landing
  handle-Effect mo (lodging body) s k =
      quiet_route mo _ s _
        (Keeps-lodge_offer (SameNames-IsClosedFor s.db) (λ st o. o) mo pf js body)
  handle-Effect mo (reading id) s k =
      quiet_route mo _ s _ (Keeps-read_offer (SameNames-IsClosedFor s.db) (λ st o. o) mo id)
  handle-Effect mo (revocation id) s k =
      quiet_route mo _ s _ (Keeps-revoke_offer (SameNames-IsClosedFor s.db) (λ st o. o) mo pf id)
  handle-Effect mo (claiming body) s k = claiming-Effect mo body s k

  -- In every state that requests and restarts lead to from an empty database, a request of any route, at
  -- any moment and with any fault, does one of four things to the names: it changes no lookup; or it
  -- is a registration, signed by a key that held no name, of a name that no key held, and the name
  -- resolves to that key; or a release, signed for this name by the key that held it, and the name
  -- resolves to none; or, where transfers are allowed, a claim with the evidence of a settled payment,
  -- signed by the buyer of the stored offer, who held no other name, and the name of the offer passes
  -- to the buyer from its seller, who held it. In the last three, no other lookup changes.
  pub Reachable-Effect :
      (s : App) (mo : Moment) (q : Request)
      → Reachable pf js s
      → Effect mo q s (run (handle pf js mo q) s).0
  Reachable-Effect s mo q r = handle-Effect mo q s (Reachable-IsKeyed pf js s r)
