-- ===== src/Db/Apart.antt =====
-- Rows that pairwise do not clash, and the changes that keep them apart.
use goblin_nip05d.Prelude.{
  All, Bool, List, [], any, arith, count_if, false, if◌then◌else◌, refl, update_where, ◌∷◌, ◌≡◌,
}

-- Every entry is apart from those after it.
abbrev pub Apart {ℓ} : {A : Type ℓ} → (A → A → Bool) → List A → Type 0
Apart c [] = Unit
Apart c (x ∷ xs) = All (λ y. c x y ≡ false) xs × Apart c xs

module _ {ℓ} {A : Type ℓ} where
  -- A change that makes no two rows clash keeps a row apart from a list.
  All-update :
      (c : A → A → Bool) (p : A → Bool) (f : A → A)
      → ((x y : A) → c x y ≡ false → c (if p x then f x else x) (if p y then f y else y) ≡ false)
      → (x : A) (xs : List A) → All (λ y. c x y ≡ false) xs
      → All (λ y. c (if p x then f x else x) y ≡ false) (update_where p f xs)
  All-update c p f k x [] h = tt
  All-update c p f k x (y ∷ ys) h = (k x y h.0, All-update c p f k x ys h.1)

  pub Apart-update :
      (c : A → A → Bool) (p : A → Bool) (f : A → A)
      → ((x y : A) → c x y ≡ false → c (if p x then f x else x) (if p y then f y else y) ≡ false)
      → (xs : List A) → Apart c xs
      → Apart c (update_where p f xs)
  Apart-update c p f k [] h = tt
  Apart-update c p f k (x ∷ xs) h = (All-update c p f k x xs h.0, Apart-update c p f k xs h.1)

  -- A row that clashes with none may be added in front.
  pub All-of-any-false : (p : A → Bool) (xs : List A) → any p xs ≡ false → All (λ y. p y ≡ false) xs
  All-of-any-false p [] h = tt
  All-of-any-false p (x ∷ xs) h = (ground arith, All-of-any-false p xs (ground arith))

  pub any-false-of-All : (p : A → Bool) (xs : List A) → All (λ y. p y ≡ false) xs → any p xs ≡ false
  any-false-of-All p [] h = refl
  any-false-of-All p (x ∷ xs) h = ground (arith, any-false-of-All p xs)

  pub All-imp : (P Q : A → Type 0) → ((a : A) → P a → Q a) → (xs : List A) → All P xs → All Q xs
  All-imp P Q f [] h = tt
  All-imp P Q f (x ∷ xs) h = (f x h.0, All-imp P Q f xs h.1)

  pub All-both : (P Q : A → Type 0) (xs : List A) → All P xs → All Q xs → All (λ a. P a × Q a) xs
  All-both P Q [] h k = tt
  All-both P Q (x ∷ xs) h k = ((h.0, k.0), All-both P Q xs h.1 k.1)

  -- Where no row passes, a conditional change does nothing.
  pub update_where_none :
      (p : A → Bool) (f : A → A) (xs : List A)
      → All (λ y. p y ≡ false) xs
      → update_where p f xs ≡ xs
  update_where_none p f [] h = refl
  update_where_none p f (x ∷ xs) h = rw (h.0, update_where_none p f xs h.1)

  pub count_if_none : (p : A → Bool) (xs : List A) → All (λ y. p y ≡ false) xs → count_if p xs ≡ 0
  count_if_none p [] h = refl
  count_if_none p (x ∷ xs) h = rw (h.0, count_if_none p xs h.1)
