-- ===== src/Config/Host.antt =====
-- The host of the base URL, less port and path, without the loops that cut it out.
-- It is about `host_bare` in `validate` of src/config.rs.
use goblin_nip05d.Text.{Text, split, split_from, strip_prefix}
use goblin_nip05d.Prelude.{
  All, Bool, Bool-cases, [], ap, head_or, if◌then◌else◌, inl, inr, refl, sym, ℕ, ◌++◌, ◌==◌, ◌∙◌,
  ◌∷◌, ◌≡◌, ◌≢◌, arith, false, some, true, ◌↔◌,
}
use goblin_nip05d.Config.{first_part, host_bare}
use mathlib.Core.List.{append_assoc, append-nil}
use mathlib.Core.Path.{subst}

-- The text before the first character of a kind.
abbrev before : (ℕ → Bool) → Text → Text
before p [] = []
before p (c ∷ s) = if p c then [] else c ∷ before p s

split_from-before :
    (p : ℕ → Bool) (cur s : Text) (d : Text) → head_or d (split_from p cur s) ≡ cur ++ before p s
unfolding split_from
split_from-before p cur [] d = sym (append-nil cur)
split_from-before p cur (c ∷ s) d = elim (Bool-cases (p c)) [
  | inl e ↦ rw (e, split_from) (sym (append-nil cur))
  | inr e ↦
      rw (e, split_from)
        (split_from-before p (cur ++ c ∷ []) s d ∙ append_assoc cur (c ∷ []) (before p s))
]

first_part-before : (p : ℕ → Bool) (s : Text) → first_part p s ≡ before p s
unfolding first_part split
first_part-before p s = split_from-before p [] s s

-- Nothing, or a path, or a port and what comes after it.
pub data AfterHost : Text → Type 0 where
  no_more : AfterHost []
  with_path : (more : Text) → AfterHost (b'/' ∷ more)
  with_port : (more : Text) → AfterHost (b':' ∷ more)

-- The text is the host, in which there is no slash and no colon, and what may come after it.
pub record HasHost (text host : Text) : Type 0 where
  pub tail : Text
  pub after : AfterHost tail
  pub cut : text ≡ host ++ tail
  pub bare : All (λ c. (c ≢ b'/') × (c ≢ b':')) host

abbrev bare_of : Text → Text
bare_of s = before (λ c. c == b':') (before (λ c. c == b'/') s)

host_bare-bare_of : (s : Text) → host_bare s ≡ bare_of s
unfolding host_bare
host_bare-bare_of s =
    first_part-before (λ c. c == b':') (first_part (λ c. c == b'/') s)
    ∙ ap (before (λ c. c == b':')) (first_part-before (λ c. c == b'/') s)

after_slash : (c : ℕ) (s : Text) → (c == b'/') ≡ true → AfterHost (c ∷ s)
after_slash c s e =
    let same : c ≡ b'/' = ground arith in subst (λ x. AfterHost (x ∷ s)) (sym same) (with_path s)

after_colon : (c : ℕ) (s : Text) → (c == b':') ≡ true → AfterHost (c ∷ s)
after_colon c s e =
    let same : c ≡ b':' = ground arith in subst (λ x. AfterHost (x ∷ s)) (sym same) (with_port s)

all_tail : (s : Text) → AfterHost s → HasHost s []
all_tail s a = record { tail = s; after = a; cut = refl; bare = tt }

bare_of-HasHost : (s : Text) → HasHost s (bare_of s)
bare_of-HasHost [] = all_tail [] no_more
bare_of-HasHost (c ∷ s) = elim (Bool-cases (c == b'/')) [
  | inl e ↦ rw e (all_tail (c ∷ s) (after_slash c s e))
  | inr e ↦ elim (Bool-cases (c == b':')) [
    | inl f ↦ rw (e, f) (all_tail (c ∷ s) (after_colon c s f))
    | inr f ↦
        let h = bare_of-HasHost s in
        rw (e, f)
          (record {
            tail = h.tail;
            after = h.after;
            cut = ap (λ t. c ∷ t) h.cut;
            bare = ((ground arith, ground arith), h.bare);
          })
  ]
]

bare_of-append :
    (host tail : Text)
    → AfterHost tail
    → All (λ c. (c ≢ b'/') × (c ≢ b':')) host
    → bare_of (host ++ tail) ≡ host
bare_of-append [] t no_more b = refl
bare_of-append [] t (with_path more) b = refl
bare_of-append [] t (with_port more) b = refl
bare_of-append (c ∷ host) t a b =
    let no_slash : (c == b'/') ≡ false = ground (arith, b.0.0) in
    let no_colon : (c == b':') ≡ false = ground (arith, b.0.1) in
    rw (no_slash, no_colon) (ap (λ s. c ∷ s) (bare_of-append host t a b.1))

-- `host_bare` gives exactly the host.
pub host_bare_iff : (s host : Text) → (host_bare s ≡ host) ↔ HasHost s host
host_bare_iff s host = (
  λ e. subst (HasHost s) (sym (host_bare-bare_of s) ∙ e) (bare_of-HasHost s),
  λ h. host_bare-bare_of s ∙ ap bare_of h.cut ∙ bare_of-append host h.tail h.after h.bare,
)

pub strip_prefix_of_append : (p s : Text) → strip_prefix p (p ++ s) ≡ some s
unfolding strip_prefix
strip_prefix_of_append [] s = refl
strip_prefix_of_append (c ∷ p) s = ground (arith, strip_prefix_of_append p s)
