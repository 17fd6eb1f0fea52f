-- ===== src/Js/Exec.antt =====
-- Asynchronous functions that may throw: an action takes the state and returns its outcome and the
-- state it leaves. What was written before a throw stays written.
use arcops.Prelude.{String, if◌then◌else◌}
use arcops.Js.Json.{Json, get, is_nullish}

-- `name` and `message` of an `Error`
pub record Error : Type 0 where
  pub name : String
  pub message : String

-- `new Error(m)`
abbrev pub plain_error : String → Error
plain_error m = record { name = "Error"; message = m }

abbrev pub type_error : Error
type_error = record { name = "TypeError"; message = "Cannot read properties of null or undefined" }

pub data Result {ℓ} (A : Type ℓ) : Type ℓ where
  ok : A → Result A
  err : Error → Result A

abbrev pub Exec {ℓ} : Type ℓ → Type ℓ → Type ℓ
Exec S A = S → Result A × S

module _ {ℓ} {S A : Type ℓ} where
  abbrev pub pure : A → Exec S A
  pure a s = (ok a, s)

  abbrev pub throw : Error → Exec S A
  throw e s = (err e, s)

  abbrev pub gets : (S → A) → Exec S A
  gets f s = (ok (f s), s)

  abbrev pub handle : (Error → Exec S A) → Result A × S → Result A × S
  handle h (ok a, s) = (ok a, s)
  handle h (err e, s) = h e s

  -- `try { m } catch (e) { h(e) }`
  abbrev pub catch : Exec S A → (Error → Exec S A) → Exec S A
  catch m h s = handle h (m s)

  -- `try { m } finally { f }`, where `f` cannot throw
  abbrev pub finally : Exec S A → (S → S) → Exec S A
  finally m f s = ((m s).0, f (m s).1)

module _ {ℓ} {S A B : Type ℓ} where
  abbrev pub continue : (A → Exec S B) → Result A × S → Result B × S
  continue f (ok a, s) = f a s
  continue f (err e, s) = (err e, s)

  infixl 10 ◌>>=◌ ◌>>◌
  abbrev pub ◌>>=◌ : Exec S A → (A → Exec S B) → Exec S B
  (m >>= f) s = continue f (m s)

  abbrev pub ◌>>◌ : Exec S A → Exec S B → Exec S B
  (m >> n) s = continue (λ _. n) (m s)

module _ {S : Type 0} where
  abbrev pub modify : (S → S) → Exec S (Unit {0})
  modify f s = (ok tt, f s)

  -- `v.k` of a value that may be null
  abbrev pub prop : Json → String → Exec S Json
  prop v k = if is_nullish v then throw type_error else pure (get v k)
