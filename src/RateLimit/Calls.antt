-- ===== src/RateLimit/Calls.antt =====
-- Any calls of the rate limiter (src/ratelimit.rs), one after another, and a recorded change that
-- survives them.
use goblin_nip05d.Text.Equality.{eq-of-text_eq}
use goblin_nip05d.RateLimit.Entries.{hits-put, hits-put_self}
use goblin_nip05d.RateLimit.Cooldown.{allow-spares, cooldown_active_iff}
use goblin_nip05d.RateLimit.{
  Instant, RateMap, allow, cooldown_active, get_entry, hits_of, or_empty, put_entry, rate_key,
  recent, record_op,
}
use goblin_nip05d.Text.{Text, text_eq}
use goblin_nip05d.Prelude.{
  Bool, Bool-cases, List, Option-cases, [], any, any-append, ap, arith, inl, inr, keep, refl, some,
  sym, true, ℕ, ◌++◌, ◌==◌, ◌∙◌, ◌∷◌, ◌≡◌, ◌≢◌,
}
use mathlib.Core.Path.{subst}

-- Calls that lead from one rate map to another. Each test has a window that still covers the
-- change of the key `k` that was recorded at `at`, and a call of `allow` is of another key.
pub data Calls (k : Text) (at : Instant) (m : RateMap) : RateMap → Type 0 where
  no_calls : Calls k at m m
  then_allow :
      (n : RateMap) (bucket ip : Text) (max window : ℕ) (now : Instant)
      → Calls k at m n
      → rate_key bucket ip ≢ k
      → recent now window at ≡ true
      → Calls k at m (allow n bucket ip max window now).0
  then_test :
      (n : RateMap) (bucket key : Text) (window : ℕ) (now : Instant)
      → Calls k at m n
      → recent now window at ≡ true
      → Calls k at m (cooldown_active n bucket key window now).0
  then_record :
      (n : RateMap) (bucket key : Text) (now : Instant)
      → Calls k at m n
      → Calls k at m (record_op n bucket key now)

-- The change is among the hits of the key.
abbrev pub HasHit : Text → Instant → RateMap → Type 0
HasHit k at m = any (λ t. t == at) (hits_of k m) ≡ true

any-kept :
    (p : Instant → Bool) (at : Instant) (ts : List Instant)
    → p at ≡ true
    → any (λ t. t == at) ts ≡ true
    → any (λ t. t == at) (keep p ts) ≡ true
any-kept p at [] h e = absurd (cc)
any-kept p at (t ∷ ts) h e = elim (Bool-cases (t == at)) [
  | inl same ↦
      let it : t ≡ at = ground arith in
      let passes : p t ≡ true = ap p it ∙ h in rw (passes, same) refl
  | inr other ↦
      let later = any-kept p at ts h (ground arith) in
      elim (Bool-cases (p t)) [
        | inl stays_in ↦ rw (stays_in, other, later) refl
        | inr falls_out ↦ rw falls_out later
      ]
]

pub any-recent :
    (p : Instant → Bool) (at : Instant) (ts : List Instant)
    → p at ≡ true
    → any (λ t. t == at) ts ≡ true
    → any p ts ≡ true
any-recent p at [] h e = absurd (cc)
any-recent p at (t ∷ ts) h e = elim (Bool-cases (t == at)) [
  | inl same ↦
      let it : t ≡ at = ground arith in let passes : p t ≡ true = ap p it ∙ h in rw passes refl
  | inr other ↦ ground (arith, any-recent p at ts h)
]

any-appended :
    (p : Instant → Bool) (ts us : List Instant) → any p ts ≡ true → any p (ts ++ us) ≡ true
any-appended p ts us h = any-append p ts us ∙ ground arith

record_op-HasHit :
    (k : Text) (at : Instant) (m : RateMap) (bucket key : Text) (now : Instant)
    → HasHit k at m
    → HasHit k at (record_op m bucket key now)
unfolding record_op
record_op-HasHit k at m bucket key now h =
    let j = rate_key bucket key in
    elim (Bool-cases (text_eq j k)) [
      | inl e ↦
          let same : j ≡ k = eq-of-text_eq j k e in
          rw (hits-put j k (hits_of j m ++ now ∷ []) m, e)
            (any-appended (λ t. t == at) (hits_of j m) (now ∷ [])
              (subst (λ i. HasHit i at m) (sym same) h))
      | inr e ↦ rw (hits-put j k (hits_of j m ++ now ∷ []) m, e) h
    ]

cooldown_active-HasHit :
    (k : Text) (at : Instant) (m : RateMap) (bucket key : Text) (window : ℕ) (now : Instant)
    → recent now window at ≡ true
    → HasHit k at m
    → HasHit k at (cooldown_active m bucket key window now).0
unfolding cooldown_active hits_of
cooldown_active-HasHit k at m bucket key window now covers h =
    elim (Option-cases (get_entry (rate_key bucket key) m)) [
      | inl none_yet ↦ rw (none_yet, cooldown_active) h
      | inr (hits, found) ↦ rw (found, cooldown_active) (go (rate_key bucket key) hits found)
    ]
  where
    go :
        (j : Text) (hits : List Instant)
        → get_entry j m ≡ some hits
        → HasHit k at (put_entry j (keep (recent now window) hits) m)
    go j hits found = elim (Bool-cases (text_eq j k)) [
      | inl e ↦
          let same : j ≡ k = eq-of-text_eq j k e in
          let held : any (λ t. t == at) hits ≡ true =
            ap (λ o. any (λ t. t == at) (or_empty o))
              (sym (ap (λ i. get_entry i m) (sym same) ∙ found))
            ∙ h in
          rw (hits-put j k (keep (recent now window) hits) m, e)
            (any-kept (recent now window) at hits covers held)
      | inr e ↦ rw (hits-put j k (keep (recent now window) hits) m, e) h
    ]

-- The change survives the calls.
pub Calls-HasHit :
    (k : Text) (at : Instant) (m n : RateMap) → Calls k at m n → HasHit k at m → HasHit k at n
Calls-HasHit k at m n no_calls h = h
Calls-HasHit k at m n (then_allow o bucket ip max window now c apart covers) h =
    let held = Calls-HasHit k at m o c h in
    ap (any (λ t. t == at)) (
      allow-spares o bucket ip max window now k apart
        (any-recent (recent now window) at (hits_of k o) covers held))
    ∙ held
Calls-HasHit k at m n (then_test o bucket key window now c covers) h =
    cooldown_active-HasHit k at o bucket key window now covers (Calls-HasHit k at m o c h)
Calls-HasHit k at m n (then_record o bucket key now c) h =
    record_op-HasHit k at o bucket key now (Calls-HasHit k at m o c h)

pub recorded-HasHit :
    (m : RateMap) (bucket key : Text) (at : Instant)
    → HasHit (rate_key bucket key) at (record_op m bucket key at)
unfolding record_op
recorded-HasHit m bucket key at =
    rw (hits-put_self (rate_key bucket key) (hits_of (rate_key bucket key) m ++ at ∷ []) m)
      (any-append (λ t. t == at) (hits_of (rate_key bucket key) m) (at ∷ []) ∙ ground arith)

-- The cooldown of a change that survived is active until its window has passed.
pub HasHit-active :
    (m : RateMap) (bucket key : Text) (at now : Instant) (window : ℕ)
    → HasHit (rate_key bucket key) at m
    → recent now window at ≡ true
    → (cooldown_active m bucket key window now).1 ≡ true
HasHit-active m bucket key at now window h active =
    cooldown_active_iff m bucket key window now
    ∙ any-recent (recent now window) at (hits_of (rate_key bucket key) m) active h
