-- ===== src/Names/Reserved.antt =====
-- Look-alike folding and the reserved list.
use goblin_nip05d.Prelude.{
  ℕ, ◌≡◌, refl, Bool, true, List, [], ◌∷◌, ◌++◌, arith, any, any-append, Bool-cases, inl, inr, some,
  Option-cases, ap, sym, ◌∙◌,
}
use goblin_nip05d.Text.{Text, text_eq}
use goblin_nip05d.Text.Equality.{eq-of-text_eq, text_eq_refl}
use goblin_nip05d.Names.{fold_char, fold_lookalike, is_reserved, reserved_terms}

-- A folded character is not folded again.
fold_char_fixed : (c d : ℕ) → fold_char c ≡ some d → fold_char d ≡ some d
unfolding fold_char
fold_char_fixed c d h = ground arith

-- Folding a second time changes nothing.
pub fold_lookalike_idem : (s : Text) → fold_lookalike (fold_lookalike s) ≡ fold_lookalike s
unfolding fold_lookalike
fold_lookalike_idem [] = refl
fold_lookalike_idem (c ∷ s) = elim (Option-cases (fold_char c)) [
  | inl e ↦ rw e (fold_lookalike_idem s)
  | inr (d, e) ↦ rw (e, fold_char_fixed c d e, fold_lookalike_idem s)
]

abbrev pub folds_onto : Text → Text → Bool
folds_onto name r = text_eq (fold_lookalike r) (fold_lookalike name)

-- A literal match is a folded match.
any-folds :
    (name : Text) (rs : List Text)
    → any (λ r. text_eq r name) rs ≡ true
    → any (folds_onto name) rs ≡ true
any-folds name [] h = absurd (cc)
any-folds name (r ∷ rs) h = elim (Bool-cases (text_eq r name)) [
  | inl e ↦ rw (eq-of-text_eq r name e, text_eq_refl (fold_lookalike name))
  | inr e ↦ ground (arith, any-folds name rs)
]

-- A name is reserved exactly when it folds onto the folded form of a built-in or an extra term: the
-- literal comparison adds nothing.
pub is_reserved-eq-fold :
    (name : Text) (extra : List Text)
    → is_reserved name extra ≡ any (folds_onto name) (reserved_terms ++ extra)
unfolding is_reserved
is_reserved-eq-fold name extra =
    rw (any-append (folds_onto name) reserved_terms extra)
      (ground (arith, any-folds name reserved_terms, any-folds name extra))

-- Look-alikes share their fate: two names with one folded form are both reserved or both free.
pub is_reserved_lookalike :
    (a b : Text) (extra : List Text)
    → fold_lookalike a ≡ fold_lookalike b
    → is_reserved a extra ≡ is_reserved b extra
is_reserved_lookalike a b extra h =
    is_reserved-eq-fold a extra
    ∙ ap (λ f. any (λ r. text_eq (fold_lookalike r) f) (reserved_terms ++ extra)) h
    ∙ sym (is_reserved-eq-fold b extra)

-- Folding onto a term of the list is enough, wherever the term stands.
any-middle :
    (p : Text → Bool) (xs ys : List Text) (r : Text) → p r ≡ true → any p (xs ++ r ∷ ys) ≡ true
any-middle p [] ys r h = rw h
any-middle p (x ∷ xs) ys r h = ground (arith, any-middle p xs ys r h)
