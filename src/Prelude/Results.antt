-- ===== src/Prelude/Results.antt =====
-- What a modelled call comes to: a result, not enough fuel, undefined behaviour of the C++ code
-- (an invalid iterator, an empty optional), or an exception.
use mathlib.Core.Path.{◌≡◌, refl}
use mathlib.Core.Option.{Option, none, some}

pub data Outcome {ℓ} (A : Type ℓ) : Type ℓ where
  done : A → Outcome A
  out_of_fuel : Outcome A
  undefined : Outcome A
  thrown : Outcome A

infixl 5 ◌>>=◌
abbrev pub ◌>>=◌ {ℓ κ} : {A : Type ℓ} {B : Type κ} → Outcome A → (A → Outcome B) → Outcome B
done a >>= f = f a
out_of_fuel >>= f = out_of_fuel
undefined >>= f = undefined
thrown >>= f = thrown

-- The call returns, and its result meets `P`.
abbrev pub Returns {ℓ} : {A : Type ℓ} → (A → Type 0) → Outcome A → Type 0
Returns P (done a) = P a
Returns P _ = ⊥

pub Returns-bind {ℓ κ} :
    {A : Type ℓ} {B : Type κ} (P : A → Type 0) (Q : B → Type 0) (m : Outcome A) (f : A → Outcome B)
    → Returns P m
    → ((a : A) → P a → Returns Q (f a))
    → Returns Q (m >>= f)
Returns-bind P Q (done a) f h k = k a h
Returns-bind P Q out_of_fuel f h k = absurd h
Returns-bind P Q undefined f h k = absurd h
Returns-bind P Q thrown f h k = absurd h

pub Returns-mono {ℓ} :
    {A : Type ℓ} (P Q : A → Type 0) (m : Outcome A)
    → Returns P m
    → ((a : A) → P a → Q a)
    → Returns Q m
Returns-mono P Q (done a) h k = k a h
Returns-mono P Q out_of_fuel h k = absurd h
Returns-mono P Q undefined h k = absurd h
Returns-mono P Q thrown h k = absurd h

-- What follows a call that returns, where it comes to the same for all that the call may return.
pub bind-Returns {ℓ κ} :
    {A : Type ℓ} {B : Type κ} (P : A → Type 0) (m : Outcome A) (f : A → Outcome B) (r : Outcome B)
    → Returns P m
    → ((x : A) → P x → f x ≡ r)
    → (m >>= f) ≡ r
bind-Returns P (done x) f r p h = h x p
bind-Returns P out_of_fuel f r p h = absurd p
bind-Returns P undefined f r p h = absurd p
bind-Returns P thrown f r p h = absurd p

-- An empty optional where a value is wanted: the exception.
abbrev pub or_throw {ℓ} : {A : Type ℓ} → Option A → Outcome A
or_throw none = thrown
or_throw (some a) = done a

-- What is true of the result, if the call returns.
abbrev pub IfDone {ℓ} : {A : Type ℓ} → (A → Type 0) → Outcome A → Type 0
IfDone P (done a) = P a
IfDone P _ = Unit

pub IfDone-bind {ℓ κ} :
    {A : Type ℓ} {B : Type κ} (P : A → Type 0) (Q : B → Type 0) (m : Outcome A) (f : A → Outcome B)
    → IfDone P m
    → ((a : A) → P a → IfDone Q (f a))
    → IfDone Q (m >>= f)
IfDone-bind P Q (done a) f h k = k a h
IfDone-bind P Q out_of_fuel f h k = tt
IfDone-bind P Q undefined f h k = tt
IfDone-bind P Q thrown f h k = tt

pub IfDone-mono {ℓ} :
    {A : Type ℓ} (P Q : A → Type 0) (m : Outcome A)
    → IfDone P m
    → ((a : A) → P a → Q a)
    → IfDone Q m
IfDone-mono P Q (done a) h k = k a h
IfDone-mono P Q out_of_fuel h k = tt
IfDone-mono P Q undefined h k = tt
IfDone-mono P Q thrown h k = tt

pub Returns-IfDone {ℓ} : {A : Type ℓ} (P : A → Type 0) (m : Outcome A) → Returns P m → IfDone P m
Returns-IfDone P (done a) h = h
Returns-IfDone P out_of_fuel h = tt
Returns-IfDone P undefined h = tt
Returns-IfDone P thrown h = tt

-- Of a sequence that returns, the first call returns, and what follows its result does.
pub bind-done {ℓ κ μ} :
    {A : Type ℓ} {B : Type κ} {C : Type μ} (m : Outcome A) (f : A → Outcome B) (b : B)
    → (m >>= f) ≡ done b
    → ((a : A) → m ≡ done a → f a ≡ done b → C)
    → C
bind-done (done a) f b e k = k a refl e
bind-done out_of_fuel f b e k = absurd (cc)
bind-done undefined f b e k = absurd (cc)
bind-done thrown f b e k = absurd (cc)
