-- ===== src/Common/Exec.antt =====
-- C++ functions that mutate an object and may throw: what was written before a throw stays written,
-- so the object comes back beside the exception. The exceptions are those that the handlers of the
-- program tell apart.
use Prim.Native.String.{String}
use mathlib.Core.Path.{◌≡◌, refl}
use mathlib.Core.Logic.{◌⊎◌, inl, inr}
use mathlib.Core.Bool.{Bool, true, false}
use mathlib.Core.Option.{Option, none, some}

-- The exception classes of the JSON library.
pub data JsonError : Type 0 where
  parse_error invalid_iterator type_error out_of_range other_error : JsonError

-- Each carries the text of `what()`; `db_error` is the database driver's, `std_error` any other
-- descendant of `std::exception`, and `unknown` all else that `catch (...)` meets.
pub data Exception : Type 0 where
  json_error : JsonError → String → Exception
  db_error : String → Exception
  std_error : String → Exception
  unknown : Exception

pub data Result {ℓ} (A : Type ℓ) : Type ℓ where
  ok : A → Result A
  throw : Exception → Result A

abbrev pub or_throw {ℓ} : {A : Type ℓ} → Exception → Option A → Result A
or_throw e none = throw e
or_throw e (some a) = ok a

abbrev pub is_ok {ℓ} : {A : Type ℓ} → Result A → Bool
is_ok (ok a) = true
is_ok (throw e) = false

pub Result-cases {ℓ} :
    {A : Type ℓ} (r : Result A) → ((a : A) × (r ≡ ok a)) ⊎ ((e : Exception) × (r ≡ throw e))
Result-cases (ok a) = inl (a, refl)
Result-cases (throw e) = inr (e, refl)

abbrev pub and_then {ℓ κ} : {A : Type ℓ} {B : Type κ} → Result A → (A → Result B) → Result B
and_then (ok a) f = f a
and_then (throw e) f = throw e

abbrev pub Exec {ℓ} : Type ℓ → Type ℓ → Type ℓ
Exec S A = S → Result A × S

module _ {ℓ} {S A : Type ℓ} where
  abbrev pub pure : A → Exec S A
  pure a s = (ok a, s)

  abbrev pub lift : Result A → Exec S A
  lift r s = (r, s)

  abbrev pub gets : (S → A) → Exec S A
  gets f s = (ok (f s), s)

  abbrev handle : (Exception → Exec S A) → Result A → S → Result A × S
  handle h (ok a) s = (ok a, s)
  handle h (throw e) s = h e s

  -- `try { m } catch …`
  abbrev pub catch : Exec S A → (Exception → Exec S A) → Exec S A
  catch m h s = let (r, s') = m s in handle h r s'

abbrev pub modify {ℓ} : {S : Type ℓ} → (S → S) → Exec S Unit
modify f s = (ok tt, f s)

module _ {ℓ} {S A B : Type ℓ} where
  abbrev resume : Result A → (A → Exec S B) → Exec S B
  resume (ok a) f s = f a s
  resume (throw e) f s = (throw e, s)

  infixl 5 ◌>>=◌ ◌>>◌
  abbrev pub ◌>>=◌ : Exec S A → (A → Exec S B) → Exec S B
  ◌>>=◌ m f s = let (r, s') = m s in resume r f s'

  abbrev pub ◌>>◌ : Exec S A → Exec S B → Exec S B
  m >> n = m >>= λ _. n
