-- ===== src/Pages/Escape.antt =====
-- `html_escape` of src/handlers/misc.rs: four passes over the whole text, against one pass by character.
use goblin_nip05d.Text.{Text, lit}
use goblin_nip05d.Pages.{html_escape, replace}
use goblin_nip05d.Prelude.{
  Bool, Bool-cases, [], all, all-append, ap, arith, if◌then◌else◌, inl, inr, not, refl, sym, true,
  ℕ, ◌&&◌, ◌++◌, ◌==◌, ◌∙◌, ◌∷◌, ◌≡◌,
}
use mathlib.Core.List.{append_assoc}

-- What is written for one character.
unfoldable pub escape_char : ℕ → Text
escape_char c =
    if c == b'&'
    then lit "&amp;"
    else if c == b'<'
    then lit "&lt;"
    else if c == b'>'
    then lit "&gt;"
    else if c == b'"'
    then lit "&quot;"
    else c ∷ []

unfoldable pub escape_each : Text → Text
escape_each [] = []
escape_each (c ∷ s) = escape_char c ++ escape_each s

-- No character of markup but the ampersand.
unfoldable pub is_plain : ℕ → Bool
is_plain c = not (c == b'<') && (not (c == b'>') && not (c == b'"'))

replace-append : (c : ℕ) (by s t : Text) → replace c by (s ++ t) ≡ replace c by s ++ replace c by t
unfolding replace
replace-append c by [] t = refl
replace-append c by (x ∷ s) t = elim (Bool-cases (x == c)) [
  | inl e ↦ rw e (
      ap (◌++◌ by) (replace-append c by s t)
      ∙ sym (append_assoc by (replace c by s) (replace c by t)))
  | inr e ↦ rw e (ap (◌∷◌ x) (replace-append c by s t))
]

html_escape-append : (s t : Text) → html_escape (s ++ t) ≡ html_escape s ++ html_escape t
unfolding html_escape
html_escape-append s t =
    let amp = replace b'&' (lit "&amp;") in
    let less = replace b'<' (lit "&lt;") in
    let greater = replace b'>' (lit "&gt;") in
    let quote = replace b'"' (lit "&quot;") in
    ap (λ u. quote (greater (less u))) (replace-append b'&' (lit "&amp;") s t)
    ∙ ap (λ u. quote (greater u)) (replace-append b'<' (lit "&lt;") (amp s) (amp t))
    ∙ ap quote (replace-append b'>' (lit "&gt;") (less (amp s)) (less (amp t)))
    ∙ replace-append b'"' (lit "&quot;") (greater (less (amp s))) (greater (less (amp t)))

html_escape-one : (c : ℕ) → html_escape (c ∷ []) ≡ escape_char c
unfolding html_escape escape_char replace lit
html_escape-one c = elim (Bool-cases (c == b'&')) [
  | inl e ↦ rw (e, html_escape) refl
  | inr e ↦ elim (Bool-cases (c == b'<')) [
    | inl f ↦ rw (e, f, html_escape) refl
    | inr f ↦ elim (Bool-cases (c == b'>')) [
      | inl g ↦ rw (e, f, g, html_escape) refl
      | inr g ↦ elim (Bool-cases (c == b'"')) [
        | inl h ↦ rw (e, f, g, h, html_escape) refl
        | inr h ↦ rw (e, f, g, h, html_escape) refl
      ]
    ]
  ]
]

html_escape-escape_each : (s : Text) → html_escape s ≡ escape_each s
unfolding escape_each html_escape replace
html_escape-escape_each [] = refl
html_escape-escape_each (c ∷ s) =
    html_escape-append (c ∷ []) s ∙ (λ i. html_escape-one c i ++ html_escape-escape_each s i)

escape_char-plain : (c : ℕ) → all is_plain (escape_char c) ≡ true
unfolding escape_char is_plain lit
escape_char-plain c = elim (Bool-cases (c == b'&')) [
  | inl e ↦ rw e refl
  | inr e ↦ elim (Bool-cases (c == b'<')) [
    | inl f ↦ rw (e, f) refl
    | inr f ↦ elim (Bool-cases (c == b'>')) [
      | inl g ↦ rw (e, f, g) refl
      | inr g ↦ elim (Bool-cases (c == b'"')) [
        | inl h ↦ rw (e, f, g, h) refl
        | inr h ↦ rw (e, f, g, h) (ground (arith, f, g, h))
      ]
    ]
  ]
]

escape_each-plain : (s : Text) → all is_plain (escape_each s) ≡ true
unfolding escape_each
escape_each-plain [] = refl
escape_each-plain (c ∷ s) =
    all-append is_plain (escape_char c) (escape_each s)
    ∙ ground (arith, escape_char-plain c, escape_each-plain s)

-- The four passes of `html_escape` write what one pass by character writes, so the ampersands of an
-- entity are not escaped again; and no angle bracket and no quote is left, whatever the text is.
pub html_escape_lem :
    (s : Text) → (html_escape s ≡ escape_each s) × (all is_plain (html_escape s) ≡ true)
html_escape_lem s =
    (html_escape-escape_each s, ap (all is_plain) (html_escape-escape_each s) ∙ escape_each-plain s)
