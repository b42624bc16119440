-- ===== src/Auth/Tags.antt =====
-- What the loop over the tags of an authorization event finds.
use goblin_nip05d.Text.Equality.{eq-of-text_eq, text_eq-of-eq}
use goblin_nip05d.Auth.{TagScan, scan_tag, scan_tags, url_matches}
use goblin_nip05d.Text.{Text, eq_ignore_ascii_case, lit, text_eq}
use goblin_nip05d.Prelude.{
  Bool, Bool-cases, List, [], ap, arith, inl, inr, some, true, ◌||◌, ◌∷◌, ◌≡◌, ◌⊎◌,
}

-- A tag of the key whose first value passes.
abbrev pub Carries : Text → (Text → Bool) → List Text → Type 0
Carries key p tag = (v : Text) × (rest : List Text) × (tag ≡ key ∷ v ∷ rest) × (p v ≡ true)

abbrev pub Some {ℓ} : {A : Type ℓ} → (A → Type 0) → List A → Type 0
Some P [] = ⊥
Some P (x ∷ xs) = P x ⊎ Some P xs

module _ (expected method : Text) where
  tag-u :
      (t : List Text) (s : TagScan)
      → (scan_tag expected method t s).u_ok ≡ true
      → (s.u_ok ≡ true) ⊎ Carries (lit "u") (λ u. url_matches u expected) t
  unfolding scan_tag
  tag-u [] s h = inl h
  tag-u (key ∷ []) s h = ground arith
  tag-u (key ∷ v ∷ rest) s h = elim (Bool-cases (text_eq key (lit "u"))) [
    | inl e ↦ inr (v, rest, ap (λ k. k ∷ v ∷ rest) (eq-of-text_eq key (lit "u") e), ground arith)
    | inr e ↦ inl (ground arith)
  ]

  tag-method :
      (t : List Text) (s : TagScan)
      → (scan_tag expected method t s).method_ok ≡ true
      → (s.method_ok ≡ true) ⊎ Carries (lit "method") (λ m. eq_ignore_ascii_case m method) t
  unfolding scan_tag
  tag-method [] s h = inl h
  tag-method (key ∷ []) s h = ground arith
  tag-method (key ∷ v ∷ rest) s h = elim (Bool-cases (text_eq key (lit "method"))) [
    | inl e ↦ elim (Bool-cases (text_eq key (lit "u"))) [
      | inl c ↦ inl (ground arith)
      | inr c ↦
          inr (v, rest, ap (λ k. k ∷ v ∷ rest) (eq-of-text_eq key (lit "method") e), ground arith)
    ]
    | inr e ↦ inl (ground arith)
  ]

  tag-payload :
      (t : List Text) (s : TagScan) (v : Text)
      → (scan_tag expected method t s).payload_hash ≡ some v
      → (s.payload_hash ≡ some v) ⊎ Carries (lit "payload") (λ x. text_eq x v) t
  unfolding scan_tag
  tag-payload [] s v h = inl h
  tag-payload (key ∷ []) s v h = ground arith
  tag-payload (key ∷ w ∷ rest) s v h = elim (Bool-cases (text_eq key (lit "payload"))) [
    | inl e ↦ elim (Bool-cases (text_eq key (lit "u") || text_eq key (lit "method"))) [
      | inl c ↦ inl (ground arith)
      | inr c ↦ inr (
        w,
        rest,
        ap (λ k. k ∷ w ∷ rest) (eq-of-text_eq key (lit "payload") e),
        text_eq-of-eq (ground arith),
      )
    ]
    | inr e ↦ inl (ground arith)
  ]

  -- A flag that the loop leaves set was set before, or some tag set it.
  pub scan-u :
      (ts : List (List Text)) (s : TagScan)
      → (scan_tags expected method ts s).u_ok ≡ true
      → (s.u_ok ≡ true) ⊎ Some (Carries (lit "u") (λ u. url_matches u expected)) ts
  unfolding scan_tags
  scan-u [] s h = inl h
  scan-u (t ∷ ts) s h = elim (scan-u ts (scan_tag expected method t s) h) [
    | inl e ↦ elim (tag-u t s e) [ inl a ↦ inl a | inr b ↦ inr (inl b) ]
    | inr r ↦ inr (inr r)
  ]

  pub scan-method :
      (ts : List (List Text)) (s : TagScan)
      → (scan_tags expected method ts s).method_ok ≡ true
      → (s.method_ok ≡ true) ⊎ Some (Carries (lit "method") (λ m. eq_ignore_ascii_case m method)) ts
  unfolding scan_tags
  scan-method [] s h = inl h
  scan-method (t ∷ ts) s h = elim (scan-method ts (scan_tag expected method t s) h) [
    | inl e ↦ elim (tag-method t s e) [ inl a ↦ inl a | inr b ↦ inr (inl b) ]
    | inr r ↦ inr (inr r)
  ]

  pub scan-payload :
      (ts : List (List Text)) (s : TagScan) (v : Text)
      → (scan_tags expected method ts s).payload_hash ≡ some v
      → (s.payload_hash ≡ some v) ⊎ Some (Carries (lit "payload") (λ x. text_eq x v)) ts
  unfolding scan_tags
  scan-payload [] s v h = inl h
  scan-payload (t ∷ ts) s v h = elim (scan-payload ts (scan_tag expected method t s) v h) [
    | inl e ↦ elim (tag-payload t s v e) [ inl a ↦ inl a | inr b ↦ inr (inl b) ]
    | inr r ↦ inr (inr r)
  ]
