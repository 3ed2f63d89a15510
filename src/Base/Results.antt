-- ===== src/Base/Results.antt =====
-- Python exceptions as values, for the code that raises them.
use Prim.Native.Nat.{ℕ}
use Prim.Native.String.{String}
use mathlib.Core.Option.{Option, none, some}
use mathlib.Core.Bool.{Bool, true, false}

-- `value_error` and `runtime_error` carry the message, and so does `failure`, which is a plain
-- `Exception`; where the message is formatted with a number or a text, it stands beside its text.
pub data Exception : Type 0 where
  value_error : String → Exception
  value_error_of : String → ℕ → Exception
  failure : String → Exception
  failure_with : String → String → Exception
  runtime_error : String → Exception
  index_error key_error attribute_error struct_error os_error overflow_error : Exception
  unicode_encode_error unicode_decode_error gzip_error json_error connection_closed : Exception

pub data Result {ℓ} (T : Type ℓ) : Type ℓ where
  ok : T → Result T
  err : Exception → Result T

-- What follows a call runs only if the call returned.
infixl 5 ◌>>=◌ ◌>>◌
abbrev pub ◌>>=◌ {ℓ κ} : {T : Type ℓ} {U : Type κ} → Result T → (T → Result U) → Result U
◌>>=◌ (err exception) rest = err exception
◌>>=◌ (ok value) rest = rest value

abbrev pub ◌>>◌ {κ} : {U : Type κ} → Result (Unit {0}) → Result U → Result U
◌>>◌ call rest = call >>= λ done. rest

abbrev pub raise_if : Bool → Exception → Result (Unit {0})
raise_if true e = err e
raise_if false e = ok tt

abbrev pub or_raise {ℓ} : {A : Type ℓ} → Option A → Exception → Result A
or_raise none e = err e
or_raise (some a) e = ok a
