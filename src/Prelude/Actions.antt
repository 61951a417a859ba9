-- ===== src/Prelude/Actions.antt =====
-- Calls that change a state and return a value or raise an error. What a call wrote before it raised
-- stays written.
use mathlib.Core.Path.{◌≡◌, refl}
use mathlib.Core.Logic.{◌⊎◌, inl, inr}
use native.Mathlib.Omega.{arith}

pub data Outcome (E A : Type 0) : Type 0 where
  ok : A → Outcome E A
  err : E → Outcome E A

abbrev pub Action : Type 0 → Type 0 → Type 0 → Type 0
Action E S A = S → Outcome E A × S

abbrev pub and_then : {E S A B : Type 0} → Outcome E A × S → (A → Action E S B) → Outcome E B × S
and_then (ok a, s) f = f a s
and_then (err e, s) f = (err e, s)

infixl 5 ◌>>=◌ ◌>>◌
abbrev pub ◌>>=◌ : {E S A B : Type 0} → Action E S A → (A → Action E S B) → Action E S B
◌>>=◌ m f s = and_then (m s) f

abbrev pub ◌>>◌ : {E S B : Type 0} → Action E S (Unit {0}) → Action E S B → Action E S B
m >> k = m >>= λ _. k

abbrev pub return : {E S A : Type 0} → A → Action E S A
return a s = (ok a, s)

abbrev pub raise : {E S A : Type 0} → E → Action E S A
raise e s = (err e, s)

-- A read, and a write that always succeeds.
abbrev pub gets : {E S A : Type 0} → (S → A) → Action E S A
gets f s = (ok (f s), s)

abbrev pub modify : {E S : Type 0} → (S → S) → Action E S (Unit {0})
modify f s = (ok tt, f s)

pub ok_inj :
    {E S A : Type 0} {a b : A} {s t : S}
    → ◌≡◌ {A = Outcome E A × S} (ok a, s) (ok b, t)
    → (a ≡ b) × (s ≡ t)
ok_inj h = (ground arith, ground arith)

pub err_not_ok :
    {E S A : Type 0} {e : E} {b : A} {s t : S} → ◌≡◌ {A = Outcome E A × S} (err e, s) (ok b, t) → ⊥
err_not_ok h = cc

pub Outcome-cases :
    {E A : Type 0} (o : Outcome E A) → ((a : A) × (o ≡ ok a)) ⊎ ((e : E) × (o ≡ err e))
Outcome-cases (ok a) = inl (a, refl)
Outcome-cases (err e) = inr (e, refl)

pub ok_injective : {E A : Type 0} {a b : A} → ◌≡◌ {A = Outcome E A} (ok a) (ok b) → a ≡ b
ok_injective h = ground arith

pub err_ok : {E A : Type 0} {e : E} {b : A} → ◌≡◌ {A = Outcome E A} (err e) (ok b) → ⊥
err_ok h = cc

-- What holds of a call's value and of the state it leaves, if it raises nothing.
abbrev pub Ensures : {E S A : Type 0} → (A → S → Type 0) → Outcome E A × S → Type 0
Ensures Q (ok a, s) = Q a s
Ensures Q (err e, s) = Unit

pub Ensures-and_then :
    {E S A B : Type 0} (P : A → S → Type 0) (Q : B → S → Type 0) (r : Outcome E A × S)
    (f : A → Action E S B)
    → Ensures P r
    → ((a : A) (s : S) → P a s → Ensures Q (f a s))
    → Ensures Q (and_then r f)
Ensures-and_then P Q (ok a, s) f h k = k a s h
Ensures-and_then P Q (err e, s) f h k = tt

-- To split on a call and keep what it ensures.
pub Ensures-cases :
    {E S A : Type 0} (P : A → S → Type 0) (r : Outcome E A × S)
    → Ensures P r
    → ((a : A) × (s : S) × (r ≡ (ok a, s)) × P a s) ⊎ ((e : E) × (s : S) × (r ≡ (err e, s)))
Ensures-cases P (ok a, s) h = inl (a, s, refl, h)
Ensures-cases P (err e, s) h = inr (e, s, refl)

-- To split on a call and keep what holds of the state it leaves, whatever it answers.
pub call-cases :
    {E S A : Type 0} (P : S → Type 0) (r : Outcome E A × S)
    → P r.1
    → ((a : A) × (s : S) × (r ≡ (ok a, s)) × P s) ⊎ ((e : E) × (s : S) × (r ≡ (err e, s)) × P s)
call-cases P (ok a, s) h = inl (a, s, refl, h)
call-cases P (err e, s) h = inr (e, s, refl, h)
