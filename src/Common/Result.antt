-- ===== src/Common/Result.antt =====
-- A value or an error, as Go's functions return them.
use mathlib.Core.Option.{Option, none, some}

pub data Result {ℓ κ} (E : Type ℓ) (A : Type κ) : Type (ℓ ⊔ κ) where
  failed : E → Result E A
  ok : A → Result E A

module _ {ℓ κ} {E : Type ℓ} {A : Type κ} where
  -- the value beside an ignored error
  abbrev pub value_or : A → Result E A → A
  value_or a (failed e) = a
  value_or a (ok b) = b

  abbrev pub result_of : E → Option A → Result E A
  result_of e none = failed e
  result_of e (some a) = ok a

  abbrev pub and_then {μ} : {B : Type μ} → Result E A → (A → Result E B) → Result E B
  and_then (failed e) f = failed e
  and_then (ok a) f = f a
