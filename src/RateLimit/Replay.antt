-- ===== src/RateLimit/Replay.antt =====
-- The replay set: an authorization event is accepted once within the window of the set.
use goblin_nip05d.Text.Equality.{eq-of-text_eq, ne-of-text_eq, text_eq_iff, text_eq_refl}
use goblin_nip05d.Prelude.Int.{ℤ}
use goblin_nip05d.RateLimit.Entries.{get-put_ne, get-put_self}
use goblin_nip05d.RateLimit.{
  Instant, SeenMap, auth_event_fresh, get_entry, put_entry, recent, replay_window,
}
use goblin_nip05d.Text.{Text, text_eq}
use goblin_nip05d.Prelude.{
  All, Bool, Bool-cases, List, [], arith, false, inl, inr, keep, none, some, true, ℕ, ◌∷◌, ◌≡◌,
}

-- The uses of events after one another, oldest first.
unfoldable pub after_uses : ℤ → SeenMap → List (Text × Instant) → SeenMap
after_uses max_age seen [] = seen
after_uses max_age seen ((id, t) ∷ cs) =
    after_uses max_age (auth_event_fresh seen id max_age t).0 cs

module _ (max_age : ℤ) where
  abbrev window : ℕ
  window = replay_window max_age

  abbrev fresh_at : Instant → Text × Instant → Bool
  fresh_at now e = recent now window e.1

  -- A recent entry survives the pruning.
  kept-entry :
      (seen : SeenMap) (id : Text) (t now : Instant)
      → get_entry id seen ≡ some t
      → recent now window t ≡ true
      → get_entry id (keep (fresh_at now) seen) ≡ some t
  unfolding get_entry
  kept-entry [] id t now e r = cc
  kept-entry ((j, u) ∷ seen) id t now e r =
      ground (arith, text_eq_iff j id, kept-entry seen id t now)

  -- It survives any use, of the same event or another.
  used-entry :
      (seen : SeenMap) (id other : Text) (t now : Instant)
      → get_entry id seen ≡ some t
      → recent now window t ≡ true
      → get_entry id (auth_event_fresh seen other max_age now).0 ≡ some t
  unfolding auth_event_fresh
  used-entry seen id other t now e r =
      let kept = kept-entry seen id t now e r in
      elim (Bool-cases (text_eq other id)) [
        | inl same ↦ rw (eq-of-text_eq other id same, kept) kept
        | inr differ ↦ ground (
          arith,
          kept,
          get-put_ne other id now (keep (fresh_at now) seen) (ne-of-text_eq other id differ),
        )
      ]

  uses-entry :
      (seen : SeenMap) (id : Text) (t : Instant) (cs : List (Text × Instant))
      → get_entry id seen ≡ some t
      → All (λ c. recent c.1 window t ≡ true) cs
      → get_entry id (after_uses max_age seen cs) ≡ some t
  unfolding after_uses
  uses-entry seen id t [] e h = e
  uses-entry seen id t ((other, now) ∷ cs) e h =
      uses-entry (auth_event_fresh seen other max_age now).0 id t cs
        (used-entry seen id other t now e h.0) h.1

  accepted-entry :
      (seen : SeenMap) (id : Text) (t : Instant)
      → (auth_event_fresh seen id max_age t).1 ≡ true
      → get_entry id (auth_event_fresh seen id max_age t).0 ≡ some t
  unfolding auth_event_fresh
  accepted-entry seen id t e = ground (arith, get-put_self id t (keep (fresh_at t) seen))

  known-refused :
      (seen : SeenMap) (id : Text) (t now : Instant)
      → get_entry id seen ≡ some t
      → recent now window t ≡ true
      → (auth_event_fresh seen id max_age now).1 ≡ false
  unfolding auth_event_fresh
  known-refused seen id t now e r = ground (arith, kept-entry seen id t now e r)

  -- An event that was accepted at `t` is refused while less than the replay window has passed, whatever
  -- other uses, of this event or of others, came in between.
  pub auth_event_fresh_once :
      (seen : SeenMap) (id : Text) (t now : Instant) (cs : List (Text × Instant))
      → (auth_event_fresh seen id max_age t).1 ≡ true
      → All (λ c. recent c.1 window t ≡ true) cs
      → recent now window t ≡ true
      → (auth_event_fresh
          (after_uses max_age (auth_event_fresh seen id max_age t).0 cs)
          id
          max_age
          now).1
        ≡ false
  auth_event_fresh_once seen id t now cs e h r =
      known-refused _ id t now (uses-entry _ id t cs (accepted-entry seen id t e) h) r

  -- No entry of the event is left once its only entry is old.
  dropped-entry :
      (seen : SeenMap) (id : Text) (t now : Instant)
      → get_entry id seen ≡ none
      → recent now window t ≡ false
      → get_entry id (keep (fresh_at now) (put_entry id t seen)) ≡ none
  unfolding get_entry put_entry
  dropped-entry [] id t now e r = ground (arith, text_eq_refl id)
  dropped-entry ((j, u) ∷ seen) id t now e r = ground (arith, dropped-entry seen id t now)

  -- Once the window has passed the event is accepted again.
  pub auth_event_fresh_again :
      (seen : SeenMap) (id : Text) (t now : Instant)
      → (auth_event_fresh seen id max_age t).1 ≡ true
      → recent now window t ≡ false
      → (auth_event_fresh (auth_event_fresh seen id max_age t).0 id max_age now).1 ≡ true
  unfolding auth_event_fresh
  auth_event_fresh_again seen id t now e r =
      ground (arith, dropped-entry (keep (fresh_at t) seen) id t now)
