-- ===== src/RateLimit/Cooldown.antt =====
-- The cooldown of a name change: `record_op`, `cooldown_active`, and what `allow` does to them.
use goblin_nip05d.RateLimit.Entries.{hits-put_self, hits-put_ne}
use goblin_nip05d.RateLimit.{
  Instant, RateMap, cooldown_active, get_entry, hits_of, or_empty, rate_key, recent, record_op,
  allow, cleanup, has_recent, max_entries, put_entry,
}
use goblin_nip05d.Text.{Text}
use goblin_nip05d.Prelude.{
  Bool, Bool-cases, List, Option, [], any, arith, inl, inr, keep, leb, length, none, not, refl,
  some, true, ℕ, ◌++◌, ◌∷◌, ◌≡◌, ltb, ◌∙◌, ◌≢◌,
}

-- The cooldown is active exactly while some recorded change is recent.
pub cooldown_active_iff :
    (m : RateMap) (bucket key : Text) (window : ℕ) (now : Instant)
    → (cooldown_active m bucket key window now).1
      ≡ any (recent now window) (hits_of (rate_key bucket key) m)
unfolding cooldown_active hits_of
cooldown_active_iff m bucket key window now = go (get_entry (rate_key bucket key) m) refl
  where
    some_left :
        (hits : List Instant)
        → not (leb (length (keep (recent now window) hits)) 0) ≡ any (recent now window) hits
    some_left [] = refl
    some_left (t ∷ ts) = ground (arith, some_left ts)

    go :
        (o : Option (List Instant))
        → get_entry (rate_key bucket key) m ≡ o
        → (cooldown_active m bucket key window now).1 ≡ any (recent now window) (or_empty o)
    go none e = rw (e, cooldown_active) refl
    go (some hits) e = rw (e, cooldown_active) (some_left hits)

any-last :
    (p : Instant → Bool) (ts : List Instant) (t : Instant)
    → p t ≡ true
    → any p (ts ++ t ∷ []) ≡ true
any-last p [] t h = ground arith
any-last p (x ∷ xs) t h = ground (arith, any-last p xs t h)

-- A recorded change is a recent one until its window has passed.
record_op-recent :
    (m : RateMap) (bucket key : Text) (window : ℕ) (at now : Instant)
    → recent now window at ≡ true
    → any (recent now window) (hits_of (rate_key bucket key) (record_op m bucket key at)) ≡ true
unfolding record_op
record_op-recent m bucket key window at now h =
    rw (hits-put_self (rate_key bucket key) (hits_of (rate_key bucket key) m ++ at ∷ []) m)
      (any-last (recent now window) (hits_of (rate_key bucket key) m) at h)

kept-entry :
    (q : List Instant → Bool) (k : Text) (m : RateMap) (v : List Instant)
    → get_entry k m ≡ some v
    → q v ≡ true
    → get_entry k (keep (λ e. q e.1) m) ≡ some v
unfolding get_entry
kept-entry q k [] v h t = absurd (cc)
kept-entry q k ((j, w) ∷ m) v h t = ground (arith, kept-entry q k m v)

-- The cleanup of a call spares an entry with a hit that is recent for its window.
cleanup-spares :
    (m : RateMap) (now : Instant) (window : ℕ) (k : Text)
    → any (recent now window) (hits_of k m) ≡ true
    → hits_of k (cleanup m now window) ≡ hits_of k m
unfolding cleanup hits_of
cleanup-spares m now window k h = elim (Bool-cases (ltb max_entries (length m))) [
  | inl over ↦ rw (over, cleanup) (go (get_entry k m) refl)
  | inr under ↦ rw (under, cleanup) refl
]
  where
    go :
        (o : Option (List Instant))
        → get_entry k m ≡ o
        → or_empty (get_entry k (keep (has_recent now window) m)) ≡ or_empty (get_entry k m)
    go none e = absurd (cc (rw e at h))
    go (some v) e = rw (kept-entry (any (recent now window)) k m v e (rw e at h), e) refl

-- A call of another bucket leaves the hits of a key, if one is recent for the window of the call.
pub allow-spares :
    (m : RateMap) (bucket ip : Text) (max window : ℕ) (now : Instant) (k : Text)
    → rate_key bucket ip ≢ k
    → any (recent now window) (hits_of k m) ≡ true
    → hits_of k (allow m bucket ip max window now).0 ≡ hits_of k m
unfolding allow
allow-spares m bucket ip max window now k ne h =
    let key = rate_key bucket ip in
    let hits = keep (recent now window) (hits_of key m) in
    elim (Bool-cases (leb max (length hits))) [
      | inl full ↦ rw (full, allow) (hits-put_ne key k hits m ne)
      | inr room ↦
          let same = hits-put_ne key k (hits ++ now ∷ []) m ne in
          rw (room, allow)
            (cleanup-spares (put_entry key (hits ++ now ∷ []) m) now window k (rw same h) ∙ same)
    ]
