-- ===== src/Outcome.antt =====
-- libdaylite/include/daylite/result.hpp and option.hpp. A `result<T>` holds a value only if it is a
-- success, and carries a message and a code either way; an `option<T>` is the library's.
pub mod Slot
pub mod Lives
mod Tests
use daylite.Prelude.{ℕ, Bool, true, false, not, Option, none, some, String}

pub data Result {ℓ} (A : Type ℓ) : Type ℓ where
  ok : A → String → ℕ → Result A
  fail : String → ℕ → Result A

abbrev pub VoidResult : Type 0
VoidResult = Result Bool

module _ {ℓ} {A : Type ℓ} where
  abbrev pub success : Result A → Bool
  success (ok a m c) = true
  success (fail m c) = false

  abbrev pub failure : Result A → Bool
  failure r = not (success r)

  abbrev pub message : Result A → String
  message (ok a m c) = m
  message (fail m c) = m

  abbrev pub code : Result A → ℕ
  code (ok a m c) = c
  code (fail m c) = c

  -- `unwrap` of a failure reads storage that holds no value: `none`.
  abbrev pub unwrap : Result A → Option A
  unwrap (ok a m c) = some a
  unwrap (fail m c) = none

  abbrev pub or_else : Result A → A → A
  or_else (ok a m c) d = a
  or_else (fail m c) d = d

  -- The call `result<bool>(_success, _message)` picks the constructor of a success, whose value is
  -- the flag, and gives no code.
  unfoldable pub to_void_result : Result A → VoidResult
  to_void_result r = ok (success r) (message r) 0

-- The overloads of `success` and `failure` for `void_result` at their default arguments.
abbrev pub done : VoidResult
done = ok true "" 0

abbrev pub failed : String → VoidResult
failed m = fail m 0
