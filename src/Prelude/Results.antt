-- ===== src/Prelude/Results.antt =====
-- How a call ends when it does not return: an exception that nothing catches, a failed assertion,
-- undefined behaviour, or a loop that outlives its fuel.
use mathlib.Core.Path.{◌≡◌, refl}
use mathlib.Core.Bool.{Bool, true, false}
use mathlib.Core.Option.{Option, none, some}

pub data Fault : Type 0 where
  -- `std::invalid_argument` and `std::out_of_range`, thrown by `stoi`
  invalid_argument out_of_range : Fault
  -- a function that ends without returning its value
  no_return : Fault
  -- a read outside a vector, a write outside a buffer, a member of a null pointer
  out_of_bounds buffer_overflow null_pointer : Fault
  -- `assert` and `exit(-1)`
  assertion_failed exited : Fault
  -- the loop has not ended within its fuel
  out_of_fuel : Fault

-- What a call comes to: the fault that ends it, or the value that it returns.
pub data Result {ℓ} (T : Type ℓ) : Type ℓ where
  err : Fault → Result T
  ok : T → Result T

module _ {ℓ} {T : Type ℓ} where
  abbrev pub or_fault : Option T → Fault → Result T
  or_fault none fault = err fault
  or_fault (some value) fault = ok value

  infixl 5 ◌>>=◌
  -- A call after a call, which gets the value of the first.
  abbrev pub ◌>>=◌ {κ} : {U : Type κ} → Result T → (T → Result U) → Result U
  err fault >>= next = err fault
  ok value >>= next = next value

  infixl 5 ◌>>◌
  abbrev pub ◌>>◌ {κ} : {U : Type κ} → Result T → Result U → Result U
  first >> second = first >>= λ ignored. second

  pub bind-ok : (call : Result T) → (call >>= λ value. ok value) ≡ call
  bind-ok (err fault) = refl
  bind-ok (ok value) = refl

-- `assert(b)`
abbrev pub assert : Bool → Result (Unit {0})
assert true = ok tt
assert false = err assertion_failed

pub bind_assoc {ℓ κ ι} :
    {A : Type ℓ} {B : Type κ} {C : Type ι} (call : Result A) (next : A → Result B)
    (last : B → Result C)
    → (call >>= next) >>= last ≡ call >>= (λ a. next a >>= last)
bind_assoc (err fault) next last = refl
bind_assoc (ok a) next last = refl

pub bind_ap {ℓ κ} :
    {A : Type ℓ} {B : Type κ} (call : Result A) (next next' : A → Result B)
    → ((a : A) → next a ≡ next' a)
    → call >>= next ≡ call >>= next'
bind_ap (err fault) next next' h = refl
bind_ap (ok a) next next' h = h a
