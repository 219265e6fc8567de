-- ===== src/Prelude/Outcomes.antt =====
-- What holds of a call's value, if the call returns.
use mathlib.Core.Path.{◌≡◌, ap, refl, subst}
use mathlib.Core.Option.{Option, none, some}
use mathlib.Core.Bool.{Bool, true, false}
use mathlib.Core.Logic.{◌≢◌}
use hamang_server.Prelude.Results.{Fault, Result, assert, err, ok, or_fault, out_of_fuel, ◌>>=◌}

-- If the call returns, its value has the property.
abbrev pub Returns {ℓ κ} : {T : Type ℓ} → (T → Type κ) → Result T → Type κ
Returns P (err fault) = Unit
Returns P (ok value) = P value

pub Returns-bind {ℓ κ ι} :
    {T : Type ℓ} {U : Type κ} (P : U → Type ι) (call : Result T) (next : T → Result U)
    → ((value : T) → call ≡ ok value → Returns P (next value))
    → Returns P (call >>= next)
Returns-bind P (err fault) next h = tt
Returns-bind P (ok value) next h = h value refl

pub Returns-ok {ℓ κ} :
    {T : Type ℓ} (P : T → Type κ) (call : Result T) (value : T)
    → Returns P call
    → call ≡ ok value
    → P value
Returns-ok P (err fault) value h e = cc
Returns-ok P (ok other) value h e = let same : other ≡ value = cc in subst P same h

-- Every end but that of a loop which outlives its fuel.
abbrev pub is_final : Fault → Bool
is_final out_of_fuel = false
is_final _ = true

abbrev pub ends {ℓ} : {T : Type ℓ} → Result T → Bool
ends (err fault) = is_final fault
ends (ok value) = true

-- The call ends, and if it returns, its value has the property.
abbrev pub Ends {ℓ} : {T : Type ℓ} → (T → Type 0) → Result T → Type 0
Ends P (err fault) = is_final fault ≡ true
Ends P (ok value) = P value

pub Ends-bind {ℓ κ} :
    {T : Type ℓ} {U : Type κ} (Q : T → Type 0) (P : U → Type 0) (call : Result T)
    (next : T → Result U)
    → Ends Q call
    → ((value : T) → Q value → Ends P (next value))
    → Ends P (call >>= next)
Ends-bind Q P (err fault) next h k = h
Ends-bind Q P (ok value) next h k = k value h

-- A call that ends, with no more than that known of its value.
abbrev pub Anything {ℓ} : {T : Type ℓ} → T → Type 0
Anything value = Unit

pub Ends-of_ends {ℓ} : {T : Type ℓ} (call : Result T) → ends call ≡ true → Ends Anything call
Ends-of_ends (err fault) h = h
Ends-of_ends (ok value) h = tt

pub ends_of_Ends {ℓ} :
    {T : Type ℓ} (P : T → Type 0) (call : Result T) → Ends P call → ends call ≡ true
ends_of_Ends P (err fault) h = h
ends_of_Ends P (ok value) h = refl

pub ends-bind {ℓ κ} :
    {T : Type ℓ} {U : Type κ} (call : Result T) (next : T → Result U)
    → ends call ≡ true
    → ((value : T) → ends (next value) ≡ true)
    → ends (call >>= next) ≡ true
ends-bind (err fault) next h k = h
ends-bind (ok value) next h k = k value

pub ends-ne {ℓ} : {T : Type ℓ} (call : Result T) → ends call ≡ true → call ≢ err out_of_fuel
ends-ne {T} call h e = cc (h, ap (ends {T = T}) e)

pub or_fault-ends {ℓ} :
    {T : Type ℓ} (o : Option T) (fault : Fault)
    → is_final fault ≡ true
    → ends (or_fault o fault) ≡ true
or_fault-ends none fault h = h
or_fault-ends (some value) fault h = refl

pub assert-ends : (b : Bool) → ends (assert b) ≡ true
assert-ends true = refl
assert-ends false = refl

pub Ends-and_Returns {ℓ} :
    {T : Type ℓ} (P Q : T → Type 0) (call : Result T)
    → Ends P call
    → Returns Q call
    → Ends (λ value. P value × Q value) call
Ends-and_Returns P Q (err fault) h k = h
Ends-and_Returns P Q (ok value) h k = (h, k)

pub ends-bind_Ends {ℓ κ} :
    {T : Type ℓ} {U : Type κ} (Q : T → Type 0) (call : Result T) (next : T → Result U)
    → Ends Q call
    → ((value : T) → Q value → ends (next value) ≡ true)
    → ends (call >>= next) ≡ true
ends-bind_Ends Q (err fault) next h k = h
ends-bind_Ends Q (ok value) next h k = k value h
