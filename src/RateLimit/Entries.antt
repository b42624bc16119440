-- ===== src/RateLimit/Entries.antt =====
-- Entries of the maps, and the keys of the rate map.
use goblin_nip05d.Text.Equality.{text_eq_iff, text_eq_refl, eq-of-text_eq, ne-of-text_eq}
use goblin_nip05d.RateLimit.{Instant, RateMap, get_entry, hits_of, put_entry, rate_key, or_empty}
use goblin_nip05d.Text.{Text, text_eq}
use goblin_nip05d.Prelude.{
  All, List, [], arith, refl, some, ◌∷◌, ◌≡◌, ◌≢◌, ap, Bool-cases, if◌then◌else◌, inl, inr,
}

module _ {V : Type 0} where
  pub get-put_self :
      (k : Text) (v : V) (m : List (Text × V)) → get_entry k (put_entry k v m) ≡ some v
  unfolding get_entry put_entry
  get-put_self k v [] = ground (arith, text_eq_refl k)
  get-put_self k v ((j, w) ∷ m) = ground (arith, text_eq_refl k, get-put_self k v m)

  pub get-put_ne :
      (k j : Text) (v : V) (m : List (Text × V))
      → k ≢ j
      → get_entry j (put_entry k v m) ≡ get_entry j m
  unfolding get_entry put_entry
  get-put_ne k j v [] h = ground (arith, text_eq_iff k j)
  get-put_ne k j v ((i, w) ∷ m) h =
      ground (arith, text_eq_iff k j, text_eq_iff i k, text_eq_iff i j, get-put_ne k j v m)

pub hits-put_self : (k : Text) (v : List Instant) (m : RateMap) → hits_of k (put_entry k v m) ≡ v
unfolding hits_of
hits-put_self k v m = ap or_empty (get-put_self k v m)

pub hits-put_ne :
    (k j : Text) (v : List Instant) (m : RateMap)
    → k ≢ j
    → hits_of j (put_entry k v m) ≡ hits_of j m
unfolding hits_of
hits-put_ne k j v m h = ap or_empty (get-put_ne k j v m h)

-- No bucket name holds a colon.
abbrev pub NoColon : Text → Type 0
NoColon s = All (λ c. c ≢ b':') s

-- Different callers, or different buckets, never share an entry, if no bucket name holds a colon: the
-- key can be taken apart at its first one.
pub rate_key_injective :
    (b c s t : Text) → NoColon b → NoColon c → rate_key b s ≡ rate_key c t → (b ≡ c) × (s ≡ t)
unfolding rate_key
rate_key_injective [] [] s t h k e = (refl, cc)
rate_key_injective [] (y ∷ ys) s t h k e = absurd (k.0 (cc))
rate_key_injective (x ∷ xs) [] s t h k e = absurd (h.0 (cc))
rate_key_injective (x ∷ xs) (y ∷ ys) s t h k e =
    let (tails, ends) = rate_key_injective xs ys s t h.1 k.1 (cc) in (cc, ends)

-- The hits of any key after a write, in one equation.
pub hits-put :
    (key k : Text) (v : List Instant) (m : RateMap)
    → hits_of k (put_entry key v m) ≡ (if text_eq key k then v else hits_of k m)
hits-put key k v m = elim (Bool-cases (text_eq key k)) [
  | inl e ↦ rw (e, ← eq-of-text_eq key k e) (hits-put_self key v m)
  | inr e ↦ rw e (hits-put_ne key k v m (ne-of-text_eq key k e))
]
