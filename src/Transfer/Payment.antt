-- ===== src/Transfer/Payment.antt =====
-- What the tests of `claim` on the amount, the kernel and the time say, in numbers.
use goblin_nip05d.Prelude.Int.{
  cast_i64, cast_u64, leb_ℤ, ltb_ℤ, negsuc, pos, u64_mod, wrap_i64, ℤ, ◌-ℤ◌, ◌≤ℤ◌,
}
use goblin_nip05d.App.Moment.{KernelResult}
use goblin_nip05d.Transfer.Claim.{amount_matches, confirmed, death_height, is_dead, settled_before}
use goblin_nip05d.Prelude.{
  Bool-cases, Option, ap, arith, false, inl, inr, none, refl, some, true, ℕ, ◌%◌, ◌≡◌, ◌≢◌, ◌≤◌,
  ◌⊎◌,
}
use goblin_nip05d.Db.{OfferRow, Status, consumed, expired, live, revoked}
use mathlib.Core.Option
use mathlib.Core.Path.{subst}

-- An offer that is not dead may be paid at any time. One that was revoked or has expired may be paid
-- at or below the height of its death, and claimed while the grace period lasts.
pub data InTime (grace now : ℤ) (offer : OfferRow) (kernel : KernelResult) : Type 0 where
  not_dead : offer.status ≢ revoked → offer.status ≢ expired → InTime grace now offer kernel
  paid_before :
      (offer.status ≡ revoked) ⊎ (offer.status ≡ expired)
      → (end_height : ℤ) → offer.end_height ≡ some end_height
      → (height : ℕ) → kernel.height ≡ some height
      → cast_i64 height ≤ℤ end_height
      → ((at : ℤ) → offer.state_changed_at ≡ some at → wrap_i64 (now -ℤ at) ≤ℤ grace)
      → InTime grace now offer kernel

pub amount_matches-price :
    (price : ℤ) (amount : ℕ)
    → amount_matches price amount ≡ true
    → (p : ℕ) × (price ≡ pos p) × (amount ≡ p % u64_mod)
unfolding amount_matches cast_u64
amount_matches-price (pos p) amount h = (p, refl, ground arith)
amount_matches-price (negsuc n) amount h = absurd (ground arith)

pub confirmed-found : (n : ℕ) (k : KernelResult) → confirmed n k ≡ true → k.found ≡ true
unfolding confirmed
confirmed-found n k h = ground arith

pub confirmed-deep : (n : ℕ) (k : KernelResult) → confirmed n k ≡ true → n ≤ k.confirmations
unfolding confirmed
confirmed-deep n k h = ground arith

dead-cases : (t : Status) → is_dead t ≡ true → (t ≡ revoked) ⊎ (t ≡ expired)
unfolding is_dead
dead-cases live h = absurd (cc)
dead-cases consumed h = absurd (cc)
dead-cases revoked h = inl refl
dead-cases expired h = inr refl

undead : (t : Status) → is_dead t ≡ false → (t ≢ revoked) × (t ≢ expired)
unfolding is_dead
undead t h = (λ e. absurd (cc (h, ap is_dead e)), λ e. absurd (cc (h, ap is_dead e)))

ltb_ℤ-≤ℤ : (a b : ℤ) → ltb_ℤ a b ≡ false → b ≤ℤ a
ltb_ℤ-≤ℤ a b h = ground arith

leb_ℤ-≤ℤ : (a b : ℤ) → leb_ℤ a b ≡ true → a ≤ℤ b
leb_ℤ-≤ℤ a b h = ground arith

-- A dead offer that passes the test of the grace period has a height of death.
graced-parts :
    (grace now : ℤ) (offer : OfferRow) (death : Option ℤ)
    → is_dead offer.status ≡ true
    → death_height grace offer now ≡ some death
    → (e : ℤ) × (offer.end_height ≡ some e)
      × (death ≡ some e)
      × ((at : ℤ) → offer.state_changed_at ≡ some at → wrap_i64 (now -ℤ at) ≤ℤ grace)
unfolding death_height
graced-parts grace now offer death dead h = go offer.state_changed_at refl offer.end_height refl
  where
    go :
        (c : Option ℤ)
        → offer.state_changed_at ≡ c
        → (q : Option ℤ) → offer.end_height ≡ q
        → (e : ℤ) × (offer.end_height ≡ some e)
          × (death ≡ some e)
          × ((at : ℤ) → offer.state_changed_at ≡ some at → wrap_i64 (now -ℤ at) ≤ℤ grace)
    go c p none q = absurd (ground arith)
    go none p (some e) q = (e, q, ground arith, λ at k. absurd (cc (p, k)))
    go (some x) p (some e) q = (
      e,
      q,
      ground arith,
      λ at k.
          let same : x ≡ at = cc (p, k) in
          subst (λ y. wrap_i64 (now -ℤ y) ≤ℤ grace) same
            (ltb_ℤ-≤ℤ grace (wrap_i64 (now -ℤ x)) (ground arith)),
    )

settled-parts :
    (e : ℤ) (h : Option ℕ)
    → settled_before (some e) (Option.map cast_i64 h) ≡ true
    → (k : ℕ) × (h ≡ some k) × (cast_i64 k ≤ℤ e)
unfolding settled_before
settled-parts e none h = absurd (cc)
settled-parts e (some k) h = (k, refl, leb_ℤ-≤ℤ (cast_i64 k) e h)

pub InTime-intro :
    (grace now : ℤ) (offer : OfferRow) (kernel : KernelResult) (death : Option ℤ)
    → death_height grace offer now ≡ some death
    → settled_before death (Option.map cast_i64 kernel.height) ≡ true
    → InTime grace now offer kernel
InTime-intro grace now offer kernel death graced before = elim (Bool-cases (is_dead offer.status)) [
  | inl d ↦
      let (e, at_end, same, while_grace) = graced-parts grace now offer death d graced in
      let (k, height, below) = settled-parts e kernel.height (rw same at before) in
      paid_before (dead-cases offer.status d) e at_end k height below while_grace
  | inr n ↦ let (a, b) = undead offer.status n in not_dead a b
]
