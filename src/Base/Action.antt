-- ===== src/Base/Action.antt =====
-- A service call: state with exceptions. The state comes back after a raise too, because objects of
-- a session keep what was assigned to them before the exception.
use mathlib.Core.Path.{◌≡◌, ap, refl}
use mathlib.Core.Bool.{Bool, true, false}
use mathlib.Core.Option.{Option, none, some}

pub data Result (E A : Type 0) : Type 0 where
  ok : A → Result E A
  err : E → Result E A

abbrev pub Action : Type 0 → Type 0 → Type 0 → Type 0
Action S E A = S → Result E A × S

module _ {S E A : Type 0} where
  abbrev pub pure : A → Action S E A
  pure a s = (ok a, s)

  abbrev pub raise : E → Action S E A
  raise e s = (err e, s)

  abbrev pub gets : (S → A) → Action S E A
  gets f s = (ok (f s), s)

  -- an optional result, with the exception that is raised where there is none
  abbrev pub or_raise : Option A → E → Action S E A
  or_raise o e s = (elim o [ none ↦ err e | some a ↦ ok a ], s)

infixl 5 ◌>>=◌ ◌>>◌
abbrev pub ◌>>=◌ : {S E A B : Type 0} → Action S E A → (A → Action S E B) → Action S E B
◌>>=◌ m f s = let (r, s') = m s in elim r [ ok a ↦ f a s' | err e ↦ (err e, s') ]

abbrev pub ◌>>◌ : {S E A B : Type 0} → Action S E A → Action S E B → Action S E B
m >> k = m >>= λ _. k

module _ {S E : Type 0} where
  abbrev pub raise_unless : Bool → E → Action S E (Unit {0})
  raise_unless b e s = (elim b [ true ↦ ok tt | false ↦ err e ], s)

  abbrev pub modify : (S → S) → Action S E (Unit {0})
  modify f s = (ok tt, f s)

-- A bind whose first action is known to succeed, or to raise.
pub >>=-of_ok :
    {S E A B : Type 0} (m : Action S E A) (f : A → Action S E B) (s : S) {a : A} {s' : S}
    → m s ≡ (ok a, s')
    → (m >>= f) s ≡ f a s'
>>=-of_ok {E = E} {B = B} m f s e =
    ap (λ r. let v : Result E B × _ = elim r.0 [ ok a ↦ f a r.1 | err x ↦ (err x, r.1) ] in v) e

pub >>=-of_err :
    {S E A B : Type 0} (m : Action S E A) (f : A → Action S E B) (s : S) {x : E} {s' : S}
    → m s ≡ (err x, s')
    → (m >>= f) s ≡ (err x, s')
>>=-of_err {E = E} {B = B} m f s e =
    ap (λ r. let v : Result E B × _ = elim r.0 [ ok a ↦ f a r.1 | err x ↦ (err x, r.1) ] in v) e

-- A last step that only builds the result leaves the state alone.
pub >>=-pure_state :
    {S E A B : Type 0} (m : Action S E A) (g : A → B) (s : S)
    → ((m >>= λ a. pure (g a)) s).1 ≡ (m s).1
>>=-pure_state m g s = after (m s).0 (m s).1 g
  where
    after :
        {S E A B : Type 0} (r : Result E A) (s' : S) (g : A → B)
        → (((λ t. (r, s')) >>= λ a. pure (g a)) s').1 ≡ s'
    after (ok a) s' g = refl
    after (err e) s' g = refl
