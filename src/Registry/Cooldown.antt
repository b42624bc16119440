-- ===== src/Registry/Cooldown.antt =====
-- A release, and a registration after it.
use goblin_nip05d.RateLimit.Calls.{
  Calls, Calls-HasHit, HasHit, HasHit-active, recorded-HasHit, then_allow,
}
use mathlib.Core.Path.{subst}
use goblin_nip05d.App.Moment.{Moment, client_ip}
use goblin_nip05d.Registry.Register.{register-Registered}
use goblin_nip05d.Registry.Release.{unregister-Released}
use goblin_nip05d.Registry.{register, unregister}
use goblin_nip05d.RateLimit.{rate_key, recent, allow, cooldown_active, record_op}
use goblin_nip05d.Text.{Text, lit}
use goblin_nip05d.Prelude.{List, some, true, ℕ, ◌≡◌, ◌≢◌, ap, arith, head_or, sym, ◌∙◌}
use goblin_nip05d.App.{App, Response, run}
use goblin_nip05d.Platform.{Platform, RegisterBody}
use goblin_nip05d.Db.{lookup}

-- The entries of the write limit and of the cooldown are apart.
pub reg-apart : (ip key : Text) → rate_key (lit "reg") ip ≢ rate_key (lit "namechange") key
unfolding lit rate_key
reg-apart ip key e = let heads : 114 ≡ 110 = ap (head_or 0) e in absurd (omega (arith, heads))

module _ (pf : Platform) (mo mo' : Moment) where
  open pf use {to_lowercase, parse_register}

  -- After a release that answers 200, in any state whose rate map comes from the one after the release by
  -- calls of the limiter (limits with other keys and cooldown tests, with windows that cover the
  -- moment of the release, and recorded changes), a registration for the key that held the name is
  -- not created as long as the cooldown has not passed; the window of its write limit must cover the
  -- release too, as the cleanup of the rate map might forget it otherwise.
  pub register-after-unregister :
      (raw_name : Text) (body : List ℕ) (s s' u t : App) (r q : Response) (pk : Text)
      (req : RegisterBody)
      → run (unregister pf mo raw_name) s ≡ (s', r)
      → r.status ≡ 200
      → lookup s.db (to_lowercase raw_name) ≡ some pk
      → Calls (rate_key (lit "namechange") pk) mo.record_at s'.rate u.rate
      → parse_register body ≡ some req
      → to_lowercase req.pubkey ≡ pk
      → recent mo'.allow_at u.cfg.write_rate_window mo.record_at ≡ true
      → recent mo'.cooldown_at u.cfg.name_change_cooldown mo.record_at ≡ true
      → run (register pf mo' body) u ≡ (t, q)
      → q.status ≢ 201
  register-after-unregister raw_name body s s' u t r q pk req e done owned calls asked own covers
        active e' created =
      let g = unregister-Released pf mo raw_name s s' r e done in
      let h = register-Registered pf mo' body u t q e' created in
      let asked_same : h.req ≡ req = cc (h.asked, asked) in
      let owned_same : g.pubkey ≡ pk = cc (g.owned, owned) in
      let same : h.pubkey ≡ pk =
        sym h.own_key ∙ ap (λ (q : RegisterBody). to_lowercase q.pubkey) asked_same ∙ own in
      let key = rate_key (lit "namechange") pk in
      let armed : s'.rate ≡ record_op g.rate (lit "namechange") pk mo.record_at =
        g.armed ∙ ap (λ k. record_op g.rate (lit "namechange") k mo.record_at) owned_same in
      let recorded : HasHit key mo.record_at s'.rate =
        subst (HasHit key mo.record_at) (sym armed)
          (recorded-HasHit g.rate (lit "namechange") pk mo.record_at) in
      let held =
        Calls-HasHit key mo.record_at s'.rate _
          (then_allow u.rate (lit "reg") (client_ip mo'.headers) u.cfg.write_rate_max
            u.cfg.write_rate_window mo'.allow_at calls (reg-apart (client_ip mo'.headers) pk)
            covers)
          recorded in
      absurd (
        cc (
          sym h.rested
          ∙ ap
              (λ k.
                (cooldown_active
                  (allow u.rate (lit "reg") (client_ip mo'.headers) u.cfg.write_rate_max
                    u.cfg.write_rate_window mo'.allow_at).0
                  (lit "namechange") k u.cfg.name_change_cooldown mo'.cooldown_at).1)
              same
          ∙ HasHit-active _ (lit "namechange") pk mo.record_at mo'.cooldown_at
              u.cfg.name_change_cooldown held active))
