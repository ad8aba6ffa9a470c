-- ===== src/Prelude/Fallible.antt =====
-- What a call of the program comes to: a value, a use of a null pointer, of an object that was destroyed
-- or of an element that is not there, a C++ exception, or a loop that has not ended within its fuel.
use mathlib.Core.Path.{◌≡◌, refl, subst}
use mathlib.Core.Option.{Option, none, some}

pub data Outcome {ℓ} (A : Type ℓ) : Type ℓ where
  ok : A → Outcome A
  fault : Outcome A
  thrown : Outcome A
  running : Outcome A

infixl 5 ◌>>=◌
abbrev pub ◌>>=◌ {ℓ κ} : {A : Type ℓ} {B : Type κ} → Outcome A → (A → Outcome B) → Outcome B
ok a >>= f = f a
fault >>= f = fault
thrown >>= f = thrown
running >>= f = running

-- `p->…` on a shared pointer.
abbrev pub deref {ℓ} : {A : Type ℓ} → Option A → Outcome A
deref none = fault
deref (some a) = ok a

-- A conversion that throws where there is no result.
abbrev pub or_throw {ℓ} : {A : Type ℓ} → Option A → Outcome A
or_throw none = thrown
or_throw (some a) = ok a

-- The result of a loop, if its fuel was enough.
abbrev pub or_running {ℓ} : {A : Type ℓ} → Option A → Outcome A
or_running none = running
or_running (some a) = ok a

-- Inversion of a bind that returned.
pub bind-eq-ok {ℓ κ} :
    {A : Type ℓ} {B : Type κ} (first : Outcome A) (next : A → Outcome B) {b : B}
    → (first >>= next) ≡ ok b
    → (a : A) × (first ≡ ok a) × (next a ≡ ok b)
bind-eq-ok (ok a) next returned = (a, refl, returned)
bind-eq-ok fault next returned = cc
bind-eq-ok thrown next returned = cc
bind-eq-ok running next returned = cc

-- What holds of the result where there is one.
abbrev pub Returns {ℓ κ} : {A : Type ℓ} → (A → Type κ) → Outcome A → Type κ
Returns P (ok a) = P a
Returns P fault = Unit
Returns P thrown = Unit
Returns P running = Unit

pub Returns-bind {ℓ κ μ ν} :
    {A : Type ℓ} {B : Type κ} (P : A → Type μ) (Q : B → Type ν) (first : Outcome A)
    (next : A → Outcome B)
    → Returns P first
    → ((a : A) → P a → Returns Q (next a))
    → Returns Q (first >>= next)
Returns-bind P Q (ok a) next h then = then a h
Returns-bind P Q fault next h then = tt
Returns-bind P Q thrown next h then = tt
Returns-bind P Q running next h then = tt

pub Returns-last {ℓ κ ν} :
    {A : Type ℓ} {B : Type κ} (Q : B → Type ν) (first : Outcome A) (next : A → Outcome B)
    → ((a : A) → Returns Q (next a))
    → Returns Q (first >>= next)
Returns-last Q (ok a) next then = then a
Returns-last Q fault next then = tt
Returns-last Q thrown next then = tt
Returns-last Q running next then = tt

-- A property of the result that follows from another.
pub Returns-map {ℓ κ μ} :
    {A : Type ℓ} (P : A → Type κ) (Q : A → Type μ) (x : Outcome A)
    → ((a : A) → P a → Q a)
    → Returns P x
    → Returns Q x
Returns-map P Q (ok a) then h = then a h
Returns-map P Q fault then h = tt
Returns-map P Q thrown then h = tt
Returns-map P Q running then h = tt

pub Returns-any {ℓ} : {A : Type ℓ} (x : Outcome A) → Returns {ℓ, 0} (λ a. Unit) x
Returns-any (ok a) = tt
Returns-any fault = tt
Returns-any thrown = tt
Returns-any running = tt

pub Returns-ok {ℓ κ} :
    {A : Type ℓ} (P : A → Type κ) {x : Outcome A} {a : A} → Returns P x → x ≡ ok a → P a
Returns-ok P h e = subst (Returns P) e h

pub bind-congr {ℓ κ} :
    {A : Type ℓ} {B : Type κ} (first : Outcome A) (next other : A → Outcome B)
    → ((a : A) → next a ≡ other a)
    → (first >>= next) ≡ (first >>= other)
bind-congr (ok a) next other same = same a
bind-congr fault next other same = refl
bind-congr thrown next other same = refl
bind-congr running next other same = refl

-- A call that returns what has a property, or throws: no null pointer, no endless loop.
abbrev pub Ends {ℓ} : {A : Type ℓ} → (A → Type 0) → Outcome A → Type 0
Ends P (ok a) = P a
Ends P thrown = Unit
Ends P fault = ⊥
Ends P running = ⊥

pub Ends-bind {ℓ κ} :
    {A : Type ℓ} {B : Type κ} (P : A → Type 0) (Q : B → Type 0) (first : Outcome A)
    (next : A → Outcome B)
    → Ends P first
    → ((a : A) → P a → Ends Q (next a))
    → Ends Q (first >>= next)
Ends-bind P Q (ok a) next h then = then a h
Ends-bind P Q thrown next h then = tt
Ends-bind P Q fault next h then = h
Ends-bind P Q running next h then = h

-- A property of the result, of a call that ends.
pub Ends-both {ℓ} :
    {A : Type ℓ} (P Q : A → Type 0) (x : Outcome A) → Ends P x → Returns Q x → Ends Q x
Ends-both P Q (ok a) h k = k
Ends-both P Q thrown h k = tt
Ends-both P Q fault h k = h
Ends-both P Q running h k = h

pub Ends-and {ℓ} :
    {A : Type ℓ} (P Q : A → Type 0) (x : Outcome A)
    → Ends P x
    → Returns Q x
    → Ends (λ a. P a × Q a) x
Ends-and P Q (ok a) h k = (h, k)
Ends-and P Q thrown h k = tt
Ends-and P Q fault h k = h
Ends-and P Q running h k = h
