-- ===== src/Prelude/Lists.antt =====
-- Lists measured by native numbers and searched by Boolean tests.
use Prim.Native.Nat.{ℕ, zero, suc, ◌+◌, ◌≤◌}
use mathlib.Core.Path.{◌≡◌, refl, subst}
use mathlib.Core.Bool.{Bool, true, false, ◌&&◌, ◌||◌}
use mathlib.Core.List.{List, [], ◌∷◌, ◌++◌}
use mathlib.Core.Option.{Option, none, some}
use native.Mathlib.Omega.{arith}
use goblin_nip05d.Prelude.Tests.{if◌then◌else◌, Bool-cases}
use mathlib.Core.Logic.{inl, inr}

module _ {ℓ} {A : Type ℓ} where
  abbrev pub length : List A → ℕ
  length [] = 0
  length (x ∷ xs) = suc (length xs)

  abbrev pub all : (A → Bool) → List A → Bool
  all p [] = true
  all p (x ∷ xs) = p x && all p xs

  abbrev pub any : (A → Bool) → List A → Bool
  any p [] = false
  any p (x ∷ xs) = p x || any p xs

  -- The entries that pass, in order.
  abbrev pub keep : (A → Bool) → List A → List A
  keep p [] = []
  keep p (x ∷ xs) = if p x then x ∷ keep p xs else keep p xs

  -- The first entry that passes.
  abbrev pub find : (A → Bool) → List A → Option A
  find p [] = none
  find p (x ∷ xs) = if p x then some x else find p xs

  -- The entries that pass, counted.
  abbrev pub count_if : (A → Bool) → List A → ℕ
  count_if p [] = 0
  count_if p (x ∷ xs) = if p x then suc (count_if p xs) else count_if p xs

  -- Every entry that passes is changed.
  abbrev pub update_where : (A → Bool) → (A → A) → List A → List A
  update_where p f [] = []
  update_where p f (x ∷ xs) = (if p x then f x else x) ∷ update_where p f xs

  abbrev pub last_or : A → List A → A
  last_or d [] = d
  last_or d (x ∷ xs) = last_or x xs

  abbrev pub head_or : A → List A → A
  head_or d [] = d
  head_or d (x ∷ xs) = x

  abbrev pub get_elem? : List A → ℕ → Option A
  get_elem? [] i = none
  get_elem? (x ∷ xs) zero = some x
  get_elem? (x ∷ xs) (suc i) = get_elem? xs i

  pub length-append : (xs ys : List A) → length (xs ++ ys) ≡ length xs + length ys
  length-append [] ys = omega arith
  length-append (x ∷ xs) ys = omega (arith, length-append xs ys)

  pub length-keep-le : (p : A → Bool) (xs : List A) → length (keep p xs) ≤ length xs
  length-keep-le p [] = omega arith
  length-keep-le p (x ∷ xs) = ground (arith, length-keep-le p xs)

  pub all-append : (p : A → Bool) (xs ys : List A) → all p (xs ++ ys) ≡ (all p xs && all p ys)
  all-append p [] ys = refl
  all-append p (x ∷ xs) ys = ground (arith, all-append p xs ys)

  pub any-append : (p : A → Bool) (xs ys : List A) → any p (xs ++ ys) ≡ (any p xs || any p ys)
  any-append p [] ys = refl
  any-append p (x ∷ xs) ys = ground (arith, any-append p xs ys)

  -- What `find` returns passes the test.
  pub find-holds : (p : A → Bool) (xs : List A) {a : A} → find p xs ≡ some a → p a ≡ true
  find-holds p [] h = absurd (cc)
  find-holds p (x ∷ xs) {a} h = ground (arith, find-holds p xs {a = a})

  -- `find` misses exactly when no entry passes.
  pub find-none : (p : A → Bool) (xs : List A) → find p xs ≡ none → any p xs ≡ false
  find-none p [] h = refl
  find-none p (x ∷ xs) h = ground (arith, find-none p xs)

  pub find_of_any-false : (p : A → Bool) (xs : List A) → any p xs ≡ false → find p xs ≡ none
  find_of_any-false p [] h = refl
  find_of_any-false p (x ∷ xs) h = ground (arith, find_of_any-false p xs)

  pub keep_idem : (p : A → Bool) (xs : List A) → keep p (keep p xs) ≡ keep p xs
  keep_idem p [] = refl
  keep_idem p (x ∷ xs) = ground (arith, keep_idem p xs)

-- A predicate on every entry, as a tuple.
abbrev pub All {ℓ κ} : {A : Type ℓ} → (A → Type κ) → List A → Type κ
All P [] = Unit
All P (x ∷ xs) = P x × All P xs

module _ {ℓ κ} {A : Type ℓ} where
  pub All-of-all :
      (P : A → Type κ) (p : A → Bool) (xs : List A)
      → ((a : A) → p a ≡ true → P a)
      → all p xs ≡ true
      → All P xs
  All-of-all P p [] f h = tt
  All-of-all P p (x ∷ xs) f h = (f x (ground arith), All-of-all P p xs f (ground arith))

  pub all-of-All :
      (P : A → Type κ) (p : A → Bool) (xs : List A)
      → ((a : A) → P a → p a ≡ true)
      → All P xs
      → all p xs ≡ true
  all-of-All P p [] f h = refl
  all-of-All P p (x ∷ xs) f h = ground (arith, f x h.0, all-of-All P p xs f h.1)

module _ {ℓ} {A : Type ℓ} where
  -- What holds of every entry holds of the one that is found.
  pub All-find :
      (P : A → Type 0) (p : A → Bool) (xs : List A) {a : A} → All P xs → find p xs ≡ some a → P a
  All-find P p [] h e = absurd (cc)
  All-find P p (x ∷ xs) {a} h e = elim (Bool-cases (p x)) [
    | inl t ↦ subst P (ground arith) h.0
    | inr t ↦ All-find P p xs {a = a} h.1 (ground arith)
  ]

  -- A change that no test sees leaves what is found.
  pub find-update_where :
      (q p : A → Bool) (f : A → A) (xs : List A)
      → ((x : A) → p x ≡ true → q x ≡ false)
      → ((x : A) → p x ≡ true → q (f x) ≡ false)
      → find q (update_where p f xs) ≡ find q xs
  find-update_where q p f [] h k = refl
  find-update_where q p f (x ∷ xs) h k = ground (arith, h x, k x, find-update_where q p f xs h k)

  -- Nothing is found where the change makes the test fail.
  pub find-update_where-none :
      (q p : A → Bool) (f : A → A) (xs : List A)
      → ((x : A) → p x ≡ true → q (f x) ≡ false)
      → ((x : A) → p x ≡ false → q x ≡ false)
      → find q (update_where p f xs) ≡ none
  find-update_where-none q p f [] h k = refl
  find-update_where-none q p f (x ∷ xs) h k =
      ground (arith, h x, k x, find-update_where-none q p f xs h k)

  pub any-update_where :
      (q p : A → Bool) (f : A → A) (xs : List A)
      → ((x : A) → q (f x) ≡ q x)
      → any q (update_where p f xs) ≡ any q xs
  any-update_where q p f [] h = refl
  any-update_where q p f (x ∷ xs) h = ground (arith, h x, any-update_where q p f xs h)

  pub count_if-pos : (p : A → Bool) (xs : List A) → any p xs ≡ false → count_if p xs ≡ 0
  count_if-pos p [] h = refl
  count_if-pos p (x ∷ xs) h = ground (arith, count_if-pos p xs)

  pub any-of-find : (p : A → Bool) (xs : List A) {a : A} → find p xs ≡ some a → any p xs ≡ true
  any-of-find p [] e = absurd (cc)
  any-of-find p (x ∷ xs) {a} e = ground (arith, any-of-find p xs {a = a})

-- Where the change keeps the test, the first entry that passes is the changed one.
pub find-update_where_map {ℓ} :
    {A : Type ℓ} (q p : A → Bool) (f : A → A) (xs : List A) {a : A}
    → ((x : A) → q (f x) ≡ q x)
    → find q xs ≡ some a
    → find q (update_where p f xs) ≡ some (if p a then f a else a)
find-update_where_map q p f [] k h = absurd (cc)
find-update_where_map q p f (x ∷ xs) {a} k h =
    ground (arith, k x, find-update_where_map q p f xs {a = a} k)
