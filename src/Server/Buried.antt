-- ===== src/Server/Buried.antt =====
-- The claim and the node client together.
use goblin_nip05d.Config.{Config, grin_node_endpoints}
use mathlib.Core.Path.{subst}
use goblin_nip05d.App.Moment.{Moment, ChainSource, KernelResult}
use goblin_nip05d.Transfer.Sound.{Claimed, claim-Claimed}
use goblin_nip05d.Transfer.Claim.{ask_kernel, claim, confirmed}
use goblin_nip05d.Node.Depth.{Buried, node_client-Buried}
use goblin_nip05d.Db.Keys.{IsKeyed}
use goblin_nip05d.Text.{Text}
use goblin_nip05d.Prelude.{
  List, Option, ℕ, ◌≡◌, ◌≤◌, Bool-cases, inl, inr, none, refl, some, true, ◌∙◌, ◌≢◌, ◌⊎◌,
}
use goblin_nip05d.Node.{Rpc, node_of, Reply, node_client}
use goblin_nip05d.App.{App, Response, run}
use goblin_nip05d.Platform.{Json, Platform}

asked-node :
    (mo : Moment) (excess : Text) (node : ChainSource) {k : KernelResult}
    → mo.node ≡ some node
    → ask_kernel mo excess ≡ some k
    → node.kernel excess ≡ some k
unfolding ask_kernel
asked-node mo excess node h e = rw h at e

asked-nothing :
    (mo : Moment) (excess : Text) {k : KernelResult}
    → mo.node ≡ none
    → ask_kernel mo excess ≢ some k
unfolding ask_kernel
asked-nothing mo excess h e = absurd (cc (rw h at e))

node_of-cases :
    (js : Json) (post : Text → Rpc → Option (Reply js)) (cfg : Config)
    → (node_of js post cfg ≡ none)
      ⊎ (node_of js post cfg ≡ some (node_client js post (grin_node_endpoints cfg)))
unfolding node_of
node_of-cases js post cfg = elim (Bool-cases cfg.allow_transfers) [
  | inl t ↦ inr (rw (t, node_of) refl)
  | inr f ↦ inl (rw (f, node_of) refl)
]

module _ (mo : Moment) (pf : Platform) (js : Json) (post : Text → Rpc → Option (Reply js)) where
  -- With at least two confirmations configured and the node client of `App::open`, in a database with
  -- unique keys: the kernel of the proof of a claim that answers 201 was reported by one endpoint of the
  -- configured list at a height that is at least that deep under the tip that the same endpoint reported.
  pub claim-Buried :
      (body : List ℕ) (s s' : App) (r : Response)
      → IsKeyed s.db
      → mo.node ≡ node_of js post s.cfg
      → 2 ≤ s.cfg.transfer_min_conf
      → run (claim mo pf js body) s ≡ (s', r)
      → r.status ≡ 201
      → (c : Claimed mo pf js body s s' r) × Buried js post
          (grin_node_endpoints s.cfg)
          s.cfg.transfer_min_conf
          c.begun.proof.excess_hex
          c.paid.kernel
  claim-Buried body s s' r keyed client two e created =
      let c = claim-Claimed mo pf js body s s' r keyed e created in
      (
        c,
        elim (node_of-cases js post s.cfg) [
          | inl off ↦
              absurd (asked-nothing mo c.begun.proof.excess_hex (client ∙ off) c.paid.on_chain)
          | inr on ↦
              node_client-Buried js post (grin_node_endpoints s.cfg) c.begun.proof.excess_hex
                s.cfg.transfer_min_conf c.paid.kernel two
                (asked-node mo c.begun.proof.excess_hex _ (client ∙ on) c.paid.on_chain)
                (subst (λ cfg. confirmed cfg.transfer_min_conf c.paid.kernel ≡ true)
                  c.begun.expiry.cfg c.paid.confirms)
        ],
      )
