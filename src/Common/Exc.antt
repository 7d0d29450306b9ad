-- ===== src/Common/Exc.antt =====
-- Python's exceptions, by kind, and what a call that may raise returns.
use mathlib.Core.Path.{◌≡◌, refl}
use mathlib.Core.Bool.{Bool, true, false}
use mathlib.Core.Logic.{◌⊎◌, inl, inr}
use mathlib.Core.Option.{Option, none, some}

pub data Exc : Type 0 where
  value_error key_error type_error attribute_error index_error overflow_error os_error : Exc
  runtime_error permission_denied transport_error nonce_exhausted replay_error file_not_found : Exc
  connection_error struct_error assertion_error : Exc

pub data Result {ℓ} (A : Type ℓ) : Type ℓ where
  ok : A → Result A
  raise : Exc → Result A

-- The rest of a function, after a call that may raise.
abbrev pub after {ℓ κ} : {A : Type ℓ} {B : Type κ} → (A → Result B) → Result A → Result B
after rest (ok value) = rest value
after rest (raise exc) = raise exc

infixl 5 ◌>>=◌ ◌>>◌
abbrev pub ◌>>=◌ {ℓ κ} : {B : Type ℓ} {A : Type κ} → Result A → (A → Result B) → Result B
◌>>=◌ call rest = after rest call

abbrev pub ◌>>◌ {ℓ} : {C : Type ℓ} → Result (Unit {0}) → Result C → Result C
◌>>◌ call rest = after (λ _. rest) call

-- `if test: raise e`
abbrev pub raise_if : Bool → Exc → Result (Unit {0})
raise_if true e = raise e
raise_if false e = ok tt

-- `d[k]`: a missing key raises `KeyError`.
abbrev pub or_key_error {ℓ} : {A : Type ℓ} → Option A → Result A
or_key_error none = raise key_error
or_key_error (some a) = ok a

abbrev pub is_ok {ℓ} : {A : Type ℓ} → Result A → Bool
is_ok (ok _) = true
is_ok (raise _) = false

-- The value, or `d` where the call raised.
abbrev pub ok_or {ℓ} : {A : Type ℓ} → A → Result A → A
ok_or d (ok a) = a
ok_or d (raise _) = d

-- The rest of a method, on the state that a call leaves, after a call that may raise.
abbrev pub and_then {ℓ κ μ} :
    {A : Type ℓ} {B : Type κ} {S : Type μ} → Result A × S → (A → S → Result B × S) → Result B × S
and_then (ok a, s) rest = rest a s
and_then (raise e, s) rest = (raise e, s)

-- A function that returned: the call before it returned too.
module _ {ℓ κ} {A : Type ℓ} {B : Type κ} (rest : A → Result B) {result : B} where
  pub after-eq-ok :
      (call : Result A)
      → after rest call ≡ ok result
      → (value : A) × (call ≡ ok value) × (rest value ≡ ok result)
  after-eq-ok (ok value) returned = (value, refl, returned)
  after-eq-ok (raise exc) returned = cc

pub Result-cases {ℓ} :
    {A : Type ℓ} (r : Result A) → ((a : A) × (r ≡ ok a)) ⊎ ((e : Exc) × (r ≡ raise e))
Result-cases (ok a) = inl (a, refl)
Result-cases (raise e) = inr (e, refl)
