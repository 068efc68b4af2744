-- ===== src/Prelude/Results.antt =====
-- Fallible code: an exception carries the text of its `what()`.
use Prim.Native.Nat.{ℕ}
use mathlib.Core.List.{List}

pub data Result {ℓ} (A : Type ℓ) : Type ℓ where
  ok : A → Result A
  throws : List ℕ → Result A

abbrev pub and_then {ℓ κ} : {A : Type ℓ} {B : Type κ} → Result A → (A → Result B) → Result B
and_then (ok a) f = f a
and_then (throws e) f = throws e
