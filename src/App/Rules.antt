-- ===== src/App/Rules.antt =====
-- Reasoning about handlers: what a response says of the steps before it, and what every step keeps.
use goblin_nip05d.Prelude.{
  Bool, Option, ap, arith, false, none, refl, some, true, ◌≡◌, ◌≢◌, if◌then◌else◌,
}
use goblin_nip05d.App.{
  App, Handler, Outcome, Response, continue, gets, modify, next, pure, reply, require, respond, run,
  unwrap_or, ◌>>=◌, ◌>>◌,
}

abbrev pub Ended : Handler Response → App → App → Response → Type 0
Ended h s s' r = run h s ≡ (s', r)

-- A response with another status than the guard's has passed the guard.
pub require-Ended :
    (b : Bool) (refusal : Response) (k : Handler Response) (s s' : App) (r : Response)
    → Ended (require b refusal >> k) s s' r
    → r.status ≢ refusal.status
    → (b ≡ true) × Ended k s s' r
unfolding require ◌>>=◌ run
require-Ended true refusal k s s' r e ne = (refl, e)
require-Ended false refusal k s s' r e ne = absurd (ne (ground arith))

pub unwrap_or-Ended :
    {A : Type 0} (o : Option A) (refusal : Response) (k : A → Handler Response) (s s' : App)
    (r : Response)
    → Ended (unwrap_or o refusal >>= k) s s' r
    → r.status ≢ refusal.status
    → (a : A) × (o ≡ some a) × Ended (k a) s s' r
unfolding unwrap_or ◌>>=◌ run
unwrap_or-Ended (some a) refusal k s s' r e ne = (a, refl, e)
unwrap_or-Ended none refusal k s s' r e ne = absurd (ne (ground arith))

pub modify-Ended :
    {A : Type 0} (f : App → App × A) (k : A → Handler Response) (s s' : App) (r : Response)
    → Ended (modify f >>= k) s s' r
    → Ended (k (f s).1) (f s).0 s' r
unfolding modify ◌>>=◌ run
modify-Ended f k s s' r e = e

pub gets-Ended :
    {A : Type 0} (f : App → A) (k : A → Handler Response) (s s' : App) (r : Response)
    → Ended (gets f >>= k) s s' r
    → Ended (k (f s)) s s' r
unfolding gets ◌>>=◌ run
gets-Ended f k s s' r e = e

pub pure-Ended :
    (a : Response) (s s' : App) (r : Response) → Ended (pure a) s s' r → (s ≡ s') × (a ≡ r)
unfolding pure run
pure-Ended a s s' r e = (ap (λ p. p.0) e, ap (λ p. p.1) e)

-- The state of an outcome satisfies `P`.
abbrev pub Holds : {A : Type 0} → (App → Type 0) → Outcome A → Type 0
Holds P (next a s) = P s
Holds P (reply r s) = P s

-- A handler keeps `P`, whichever way it ends.
pub record Keeps {A : Type 0} (P : App → Type 0) (m : Handler A) : Type 0 where
  pub at : (s : App) → P s → Holds P (m s)

module _ {A : Type 0} {P : App → Type 0} where
  pub Keeps-pure : (a : A) → Keeps P (pure a)
  unfolding pure
  Keeps-pure a = record { at = λ s h. h }

  pub Keeps-respond : (r : Response) → Keeps P (respond {A = A} r)
  unfolding respond
  Keeps-respond r = record { at = λ s h. h }

  pub Keeps-unwrap_or : (o : Option A) (r : Response) → Keeps P (unwrap_or o r)
  unfolding unwrap_or
  Keeps-unwrap_or none r = record { at = λ s h. h }
  Keeps-unwrap_or (some a) r = record { at = λ s h. h }

  pub Keeps-gets : (f : App → A) → Keeps P (gets f)
  unfolding gets
  Keeps-gets f = record { at = λ s h. h }

  pub Keeps-modify : (f : App → App × A) → ((s : App) → P s → P (f s).0) → Keeps P (modify f)
  unfolding modify
  Keeps-modify f k = record { at = k }

module _ {P : App → Type 0} where
  pub Keeps-require : (b : Bool) (r : Response) → Keeps P (require b r)
  unfolding require
  Keeps-require true r = record { at = λ s h. h }
  Keeps-require false r = record { at = λ s h. h }

pub Keeps-if :
    {A : Type 0} {P : App → Type 0} (b : Bool) (m n : Handler A)
    → Keeps P m
    → Keeps P n
    → Keeps P (if b then m else n)
Keeps-if true m n km kn = km
Keeps-if false m n km kn = kn

module _ {A B : Type 0} {P : App → Type 0} where
  Holds-continue :
      (o : Outcome A) (f : A → Handler B)
      → Holds P o
      → ((a : A) → Keeps P (f a))
      → Holds P (continue o f)
  Holds-continue (next a s) f h k = (k a).at s h
  Holds-continue (reply r s) f h k = h

  pub Keeps-bind :
      (m : Handler A) (f : A → Handler B)
      → Keeps P m
      → ((a : A) → Keeps P (f a))
      → Keeps P (m >>= f)
  unfolding ◌>>=◌
  Keeps-bind m f km kf = record { at = λ s h. Holds-continue (m s) f (km.at s h) kf }

Holds-run : (P : App → Type 0) (h : Handler Response) (s : App) → Holds P (h s) → P (run h s).0
unfolding run
Holds-run P h s k = go (h s) k
  where
    go :
        (o : Outcome Response)
        → Holds P o
        → P (elim o as (λ _. App × Response) [ next r s' ↦ (s', r) | reply r s' ↦ (s', r) ]).0
    go (next r s') k = k
    go (reply r s') k = k

-- So does the whole request.
pub run-keeps :
    {P : App → Type 0} (h : Handler Response) (s : App) → Keeps P h → P s → P (run h s).0
run-keeps {P} h s k p = Holds-run P h s (k.at s p)

infixr 2 ◌⨾◌
-- The same, written after the first step.
abbrev pub ◌⨾◌ :
    {A B : Type 0} {P : App → Type 0} {m : Handler A} {f : A → Handler B}
    → Keeps P m
    → ((a : A) → Keeps P (f a))
    → Keeps P (m >>= f)
◌⨾◌ {m = m} {f = f} km kf = Keeps-bind m f km kf
