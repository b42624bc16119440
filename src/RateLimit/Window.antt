-- ===== src/RateLimit/Window.antt =====
-- The limiter lets at most `max` calls of a caller through in any window.
use goblin_nip05d.Text.Equality.{eq-of-text_eq, text_eq_iff}
use goblin_nip05d.RateLimit.Entries.{hits-put}
use goblin_nip05d.RateLimit.{
  Instant, RateMap, allow, cleanup, get_entry, has_recent, hits_of, rate_key, recent, put_entry,
}
use goblin_nip05d.Text.{Text, text_eq}
use goblin_nip05d.Prelude.{
  Bool, List, [], any, arith, count_if, false, if◌then◌else◌, keep, length, refl, true, ℕ, ◌&&◌,
  ◌++◌, ◌+◌, ◌<◌, ◌∷◌, ◌≡◌, ◌≤◌, Bool-cases, inl, inr,
}
use native.Mathlib.Nat.{le_trans}

pub record Call : Type 0 where
  pub bucket : Text
  pub ip : Text
  pub now : Instant

abbrev pub call_key : Call → Text
call_key c = rate_key c.bucket c.ip

-- The rate map, and the calls that were let through, newest first.
pub record Served : Type 0 where
  pub rate : RateMap
  pub granted : List (Text × Instant)

abbrev pub latest : List Call → Instant
latest [] = 0
latest (c ∷ cs) = c.now

-- Calls newest first, in the order of the clock.
abbrev pub InOrder : List Call → Type 0
InOrder [] = Unit
InOrder (c ∷ cs) = (latest cs ≤ c.now) × InOrder cs

abbrev pub granted_to : Text → Instant → ℕ → Text × Instant → Bool
granted_to key now window e = text_eq e.0 key && recent now window e.1

recent_earlier :
    (t now window x : ℕ) → t ≤ now → recent now window x ≡ true → recent t window x ≡ true
recent_earlier t now window x h r = ground arith

-- Pruning at an earlier time loses nothing that is still recent.
count-keep :
    (t now window : ℕ) (hits : List Instant)
    → t ≤ now
    → count_if (recent now window) (keep (recent t window) hits) ≡ count_if (recent now window) hits
count-keep t now window [] h = refl
count-keep t now window (x ∷ xs) h =
    ground (arith, recent_earlier t now window x h, count-keep t now window xs h)

length-keep : {A : Type 0} (p : A → Bool) (xs : List A) → length (keep p xs) ≡ count_if p xs
length-keep p [] = refl
length-keep p (x ∷ xs) = ground (arith, length-keep p xs)

count-snoc :
    (p : Instant → Bool) (xs : List Instant) (x : Instant)
    → count_if p (xs ++ x ∷ []) ≡ count_if p xs + (if p x then 1 else 0)
count-snoc p [] x = ground arith
count-snoc p (y ∷ ys) x = ground (arith, count-snoc p ys x)

grants_later :
    (t now window : ℕ) (k : Text) (log : List (Text × Instant))
    → t ≤ now
    → count_if (granted_to k now window) log ≤ count_if (granted_to k t window) log
grants_later t now window k [] h = omega arith
grants_later t now window k ((j, x) ∷ log) h =
    ground (arith, recent_earlier t now window x h, grants_later t now window k log h)

none-recent :
    (t now window : ℕ) (hits : List Instant)
    → t ≤ now
    → any (recent t window) hits ≡ false
    → count_if (recent now window) hits ≡ 0
none-recent t now window [] h e = refl
none-recent t now window (x ∷ xs) h e =
    ground (arith, recent_earlier t now window x h, none-recent t now window xs h)

-- The cleanup of a call never lowers the count of recent hits of a key.
kept-hits :
    (t now window : ℕ) (k : Text) (m : RateMap)
    → t ≤ now
    → count_if (recent now window) (hits_of k m)
      ≤ count_if (recent now window) (hits_of k (keep (has_recent t window) m))
unfolding hits_of get_entry
kept-hits t now window k [] h = omega arith
kept-hits t now window k ((j, hits) ∷ m) h =
    ground (arith, none-recent t now window hits h, kept-hits t now window k m h)

cleanup-hits :
    (t now window : ℕ) (k : Text) (m : RateMap)
    → t ≤ now
    → count_if (recent now window) (hits_of k m)
      ≤ count_if (recent now window) (hits_of k (cleanup m t window))
unfolding cleanup
cleanup-hits t now window k m h = ground (arith, kept-hits t now window k m h)

-- The counts after one call, by its key.
module _ (m : RateMap) (bucket ip : Text) (max window : ℕ) (t now : Instant) (h : t ≤ now) where
  abbrev key : Text
  key = rate_key bucket ip

  abbrev left : List Instant
  left = keep (recent t window) (hits_of key m)

  abbrev after : RateMap × Bool
  after = allow m bucket ip max window t

  -- A call that is let through is recorded, and there was room for it.
  allowed-hits :
      after.1 ≡ true
      → (count_if (recent t window) (hits_of key m) < max)
        × ((k : Text)
            → count_if (recent now window) (hits_of k m)
                + (if text_eq key k && recent now window t then 1 else 0)
              ≤ count_if (recent now window) (hits_of k after.0))
  unfolding allow
  allowed-hits e = (
    ground (arith, length-keep (recent t window) (hits_of key m)),
    λ k. ground (
      arith,
      hits-put key k (left ++ t ∷ []) m,
      cleanup-hits t now window k (put_entry key (left ++ t ∷ []) m) h,
      count-snoc (recent now window) left t,
      count-keep t now window (hits_of key m) h,
      text_eq_iff key k,
    ),
  )

  refused-hits :
      after.1 ≡ false
      → (k : Text)
      → count_if (recent now window) (hits_of k m)
        ≤ count_if (recent now window) (hits_of k after.0)
  unfolding allow
  refused-hits e k =
      ground
        (arith, hits-put key k left m, count-keep t now window (hits_of key m) h, text_eq_iff key k)

-- One limiter, with the same ceiling and window for each of its calls.
module _ (max window : ℕ) where
  step : Served → Call → Served
  step s c =
      let (rate, allowed) = allow s.rate c.bucket c.ip max window c.now in
      record {
        rate = rate;
        granted = if allowed then (call_key c, c.now) ∷ s.granted else s.granted;
      }

  unfoldable pub serve : List Call → Served
  unfolding step
  serve [] = record { rate = []; granted = [] }
  serve (c ∷ cs) = step (serve cs) c

  -- What was granted and is still recent stands among the hits.
  granted-hits :
      (cs : List Call) (k : Text) (now : Instant)
      → InOrder cs
      → latest cs ≤ now
      → count_if (granted_to k now window) (serve cs).granted
        ≤ count_if (recent now window) (hits_of k (serve cs).rate)
  unfolding serve
  granted-hits [] k now o h = omega arith
  granted-hits (c ∷ cs) k now o h =
      let s = serve cs in
      let ih = granted-hits cs k now o.1 (le_trans o.0 h) in
      elim (Bool-cases (allow s.rate c.bucket c.ip max window c.now).1) [
        | inl e ↦
            rw e
              (ground (arith, ih, (allowed-hits s.rate c.bucket c.ip max window c.now now h e).1 k))
        | inr e ↦ rw e (le_trans ih (refused-hits s.rate c.bucket c.ip max window c.now now h e k))
      ]

  -- From an empty map, with calls in the order of the clock that all have the limits `max` and
  -- `window`: at no later moment were more than `max` calls of one key let through within the window
  -- before it, whatever the other buckets and callers did.
  pub serve-le-max :
      (cs : List Call) (k : Text) (now : Instant)
      → InOrder cs
      → latest cs ≤ now
      → count_if (granted_to k now window) (serve cs).granted ≤ max
  unfolding serve
  serve-le-max [] k now o h = omega arith
  serve-le-max (c ∷ cs) k now o h =
      let s = serve cs in
      elim (Bool-cases (allow s.rate c.bucket c.ip max window c.now).1) [
        | inl e ↦ rw e (elim (Bool-cases (text_eq (call_key c) k)) [
          | inl same ↦ ground (
            arith,
            eq-of-text_eq (call_key c) k same,
            granted-hits cs (call_key c) c.now o.1 o.0,
            grants_later c.now now window (call_key c) s.granted h,
            (allowed-hits s.rate c.bucket c.ip max window c.now now h e).0,
          )
          | inr other ↦ rw other (serve-le-max cs k now o.1 (le_trans o.0 h))
        ])
        | inr e ↦ rw e (serve-le-max cs k now o.1 (le_trans o.0 h))
      ]
