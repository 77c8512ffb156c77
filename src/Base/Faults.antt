-- ===== src/Base/Faults.antt =====
-- C++ exceptions as values.

pub data Fault : Type 0 where
  invalid_argument logic_error out_of_range length_error undefined_behaviour : Fault

pub data Result {ℓ} (A : Type ℓ) : Type ℓ where
  ok : A → Result A
  err : Fault → Result A

-- The next statement of a method that can throw: it runs on the state that the one before left.
abbrev pub and_then {ℓ κ ι} :
    {A : Type ℓ} {B : Type κ} {S : Type ι} → Result A × S → (A → S → Result B × S) → Result B × S
and_then (ok a, s) f = f a s
and_then (err e, s) f = (err e, s)
