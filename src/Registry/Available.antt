-- ===== src/Registry/Available.antt =====
-- What the availability check answers.
use goblin_nip05d.Registry.Success.{query-answers}
use goblin_nip05d.ClaimTxn.{at_lookup}
use goblin_nip05d.App.Moment.{Moment, allow_read, query}
use goblin_nip05d.App.Passes.{gets-passes, modify-passes, require-passes, require-refuses}
use goblin_nip05d.Pages.Answers.{CanRead, pure-run}
use goblin_nip05d.Registry.{availability, unavailable}
use goblin_nip05d.Text.{Text, lit}
use goblin_nip05d.Prelude.{
  Bool, Bool-cases, List, Option, String, [], ap, false, inl, inr, none, not, refl, some, true, ◌↔◌,
  ◌∙◌, ◌∷◌, ◌≡◌, ◌≢◌, Option-cases, sym,
}
use goblin_nip05d.Platform.{Platform}
use goblin_nip05d.Names.{is_reserved, valid_name}
use goblin_nip05d.Db.{lookup}
use goblin_nip05d.App.{App, Datum, Response, flag, run, text}

-- `{"name": …, "available": true}`
abbrev pub available : Text → Response
available name = record { status = 200; body = ("name", text name) ∷ ("available", flag true) ∷ [] }

-- The four answers.
answer : Text → Bool → Bool → Option Text → Response
answer name false reserved owner = unavailable name (lit "invalid")
answer name true true owner = unavailable name (lit "reserved")
answer name true false (some owner) = unavailable name (lit "taken")
answer name true false none = available name

flag_of : Response → List Bool
flag_of r = flags r.body
  where
    flags : List (String × Datum) → List Bool
    flags [] = []
    flags ((k, flag b) ∷ ds) = b ∷ flags ds
    flags ((k, _) ∷ ds) = flags ds

unavailable-other : (name reason : Text) → unavailable name reason ≢ available name
unfolding unavailable flag_of
unavailable-other name reason e =
    let flags : false ∷ [] ≡ true ∷ [] = ap flag_of e in absurd (cc flags)

answer_iff :
    (name : Text) (shape reserved : Bool) (owner : Option Text)
    → (answer name shape reserved owner ≡ available name)
      ↔ ((shape ≡ true) × (reserved ≡ false) × (owner ≡ none))
unfolding answer
answer_iff name false reserved owner =
    (λ e. absurd (unavailable-other name (lit "invalid") e), λ (a, b, c). cc a)
answer_iff name true true owner =
    (λ e. absurd (unavailable-other name (lit "reserved") e), λ (a, b, c). cc b)
answer_iff name true false (some owner) =
    (λ e. absurd (unavailable-other name (lit "taken") e), λ (a, b, c). cc c)
answer_iff name true false none = (λ e. (refl, refl, refl), λ h. refl)

module _ (pf : Platform) (mo : Moment) where
  open pf use {to_lowercase}

  availability-run :
      (raw_name : Text) (s : App)
      → CanRead mo s
      → (run (availability pf mo raw_name) s).1
        ≡ answer
            (to_lowercase raw_name)
            (valid_name (to_lowercase raw_name) s.cfg.name_min s.cfg.name_max)
            (is_reserved (to_lowercase raw_name) s.cfg.extra_reserved)
            (lookup s.db (to_lowercase raw_name))
  unfolding availability allow_read query answer
  availability-run raw_name s c =
      let name = to_lowercase raw_name in
      ap (λ x. x.1)
        (modify-passes _ _ _ ∙ require-passes _ _ _ _ c.in_rate ∙ gets-passes _ _ _ refl)
      ∙ elim (Bool-cases (valid_name name s.cfg.name_min s.cfg.name_max)) [
        | inr bad ↦ ap (λ x. x.1) (require-refuses _ _ _ _ bad) ∙ rw (bad, answer) refl
        | inl shape ↦ elim (Bool-cases (is_reserved name s.cfg.extra_reserved)) [
          | inl reserved ↦
              ap (λ x. x.1)
                (require-passes _ _ _ _ shape ∙ require-refuses _ _ _ _ (ap not reserved))
              ∙ rw (shape, reserved, answer) refl
          | inr open_name ↦ elim (Option-cases (lookup s.db name)) [
            | inl e ↦
                ap (λ x. x.1)
                  (require-passes _ _ _ _ shape
                    ∙ require-passes _ _ _ _ (ap not open_name)
                    ∙ gets-passes _ _ _ (query-answers _ _ _ (c.no_fault at_lookup) e)
                    ∙ require-passes _ _ _ _ refl)
                ∙ pure-run _ _
                ∙ rw (shape, open_name, e, answer) refl
            | inr (owner, e) ↦
                ap (λ x. x.1)
                  (require-passes _ _ _ _ shape
                    ∙ require-passes _ _ _ _ (ap not open_name)
                    ∙ gets-passes _ _ _ (query-answers _ _ _ (c.no_fault at_lookup) e)
                    ∙ require-refuses _ _ _ _ refl)
                ∙ rw (shape, open_name, e, answer) refl
          ]
        ]
      ]

  -- For a check that the rate limit admits and whose query does not fail, a name is answered as available
  -- exactly if it has the right form, is not reserved and resolves to no key.
  pub availability_iff :
      (raw_name : Text) (s : App)
      → CanRead mo s
      → ((run (availability pf mo raw_name) s).1 ≡ available (to_lowercase raw_name)) ↔ (
          (valid_name (to_lowercase raw_name) s.cfg.name_min s.cfg.name_max ≡ true)
          × (is_reserved (to_lowercase raw_name) s.cfg.extra_reserved ≡ false)
          × (lookup s.db (to_lowercase raw_name) ≡ none))
  availability_iff raw_name s c =
      let ran = availability-run raw_name s c in
      let (there, back) = answer_iff (to_lowercase raw_name) _ _ _ in
      (λ e. there (sym ran ∙ e), λ h. ran ∙ back h)
