-- ===== src/History/Holdings.antt =====
-- What the registry promises, without its rows: a name has at most one holder, and the only changes are
-- that a key without a name takes a free name, that a name becomes free, and that a name passes to a
-- key without another name.
use goblin_nip05d.Db.Holders.{unheld}
use goblin_nip05d.Text.Equality.{eq-of-text_eq, ne-of-text_eq}
use goblin_nip05d.Text.{Text, text_eq}
use goblin_nip05d.Prelude.{Option, inl, inr, none, some, sym, ◌∙◌, ◌≡◌, ◌≢◌, Bool-cases, ap}

-- The holder of each name.
abbrev pub Holdings : Type 0
Holdings = Text → Option Text

-- Nothing but one name changes.
abbrev pub Elsewhere : Text → Holdings → Holdings → Type 0
Elsewhere name v w = (n : Text) → n ≢ name → w n ≡ v n

pub data Move : Holdings → Holdings → Type 0 where
  stay : (v w : Holdings) → ((n : Text) → w n ≡ v n) → Move v w
  acquire :
      (v w : Holdings) (name pk : Text)
      → v name ≡ none
      → ((n : Text) → v n ≢ some pk)
      → w name ≡ some pk
      → Elsewhere name v w
      → Move v w
  give_up :
      (v w : Holdings) (name pk : Text)
      → v name ≡ some pk
      → w name ≡ none
      → Elsewhere name v w
      → Move v w
  pass_on :
      (v w : Holdings) (name seller buyer : Text)
      → v name ≡ some seller
      → ((n : Text) → n ≢ name → v n ≢ some buyer)
      → w name ≡ some buyer
      → Elsewhere name v w
      → Move v w

-- No key holds two names.
abbrev pub IsSingle : Holdings → Type 0
IsSingle v = (n m pk : Text) → v n ≡ some pk → v m ≡ some pk → n ≡ m

-- One name gets a holder who has no other.
placed-IsSingle :
    (v w : Holdings) (name pk : Text)
    → IsSingle v
    → ((n : Text) → n ≢ name → v n ≢ some pk)
    → w name ≡ some pk
    → Elsewhere name v w
    → IsSingle w
placed-IsSingle v w name pk single alone here others n m k hn hm =
    elim (Bool-cases (text_eq n name)) [
      | inl e ↦ elim (Bool-cases (text_eq m name)) [
        | inl f ↦ eq-of-text_eq n name e ∙ sym (eq-of-text_eq m name f)
        | inr f ↦ absurd (clash n m (eq-of-text_eq n name e) (ne-of-text_eq m name f) hn hm)
      ]
      | inr e ↦ elim (Bool-cases (text_eq m name)) [
        | inl f ↦ absurd (clash m n (eq-of-text_eq m name f) (ne-of-text_eq n name e) hm hn)
        | inr f ↦
            single n m k (sym (others n (ne-of-text_eq n name e)) ∙ hn)
              (sym (others m (ne-of-text_eq m name f)) ∙ hm)
      ]
    ]
  where
    clash : (n m : Text) → n ≡ name → m ≢ name → w n ≡ some k → w m ≢ some k
    clash n m e f hn hm = alone m f (sym (others m f) ∙ hm ∙ sym hn ∙ ap w e ∙ here)

-- Every move keeps every key to one name.
pub Move-IsSingle : (v w : Holdings) → Move v w → IsSingle v → IsSingle w
Move-IsSingle v w (stay a b same) single =
    λ n m k hn hm. single n m k (sym (same n) ∙ hn) (sym (same m) ∙ hm)
Move-IsSingle v w (acquire a b name pk unheld alone here others) single =
    placed-IsSingle v w name pk single (λ n ne. alone n) here others
Move-IsSingle v w (give_up a b name pk held gone others) single =
    λ n m k hn hm. single n m k (back n k hn) (back m k hm)
  where
    back : (n k : Text) → w n ≡ some k → v n ≡ some k
    back n k h = elim (Bool-cases (text_eq n name)) [
      | inl e ↦ absurd (cc (sym h ∙ ap w (eq-of-text_eq n name e) ∙ gone))
      | inr e ↦ sym (others n (ne-of-text_eq n name e)) ∙ h
    ]
Move-IsSingle v w (pass_on a b name seller buyer held alone here others) single =
    placed-IsSingle v w name buyer single alone here others
