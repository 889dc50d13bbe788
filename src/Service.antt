-- ===== src/Service.antt =====
-- A method of a service: it reads and writes the service's state, and may throw. What was written
-- before a throw stays written, but for the writes of an interactive transaction, which are rolled
-- back.
pub mod Keeps
pub mod Returns
use padel_bot_api.Prelude.{ℕ, Bool, true, false, Option, none, some}

-- The exceptions of the services, and Prisma's for an update of a row that is not there.
pub data Error : Type 0 where
  not_found bad_request conflict forbidden record_missing : Error
  no_show_review_required : ℕ → Error

-- What the promise of a method settles to.
pub data Result {ℓ} (A : Type ℓ) : Type ℓ where
  ok : A → Result A
  err : Error → Result A

abbrev pub Method : Type 0 → Type 0 → Type 0
Method S A = S → Result A × S

module _ {S A : Type 0} where
  unfoldable pub pure : A → Method S A
  pure a s = (ok a, s)

  unfoldable pub raise : Error → Method S A
  raise e s = (err e, s)

  unfoldable pub gets : (S → A) → Method S A
  gets f s = (ok (f s), s)

  -- `if (!row) throw …`
  unfoldable pub or_raise : Option A → Error → Method S A
  or_raise none e s = (err e, s)
  or_raise (some a) e s = (ok a, s)

module _ {S A B : Type 0} where
  abbrev pub continue : Result A → (A → Method S B) → Method S B
  continue (ok a) f s = f a s
  continue (err e) f s = (err e, s)

  infixl 5 ◌>>=◌ ◌>>◌
  unfoldable pub ◌>>=◌ : Method S A → (A → Method S B) → Method S B
  ◌>>=◌ m f s = let (r, s') = m s in continue r f s'

  abbrev pub ◌>>◌ : Method S A → Method S B → Method S B
  m >> n = m >>= λ _. n

module _ {S : Type 0} where
  -- `if (c) throw …`
  unfoldable pub raise_if : Bool → Error → Method S (Unit {0})
  raise_if true e s = (err e, s)
  raise_if false e s = (ok tt, s)

  unfoldable pub modify_db : (S → S) → Method S (Unit {0})
  modify_db f s = (ok tt, f s)

module _ {S A : Type 0} where
  -- What remains of a transaction that began at `s`.
  abbrev pub settle : S → Result A × S → Result A × S
  settle s (ok a, s') = (ok a, s')
  settle s (err e, s') = (err e, s)

  -- `prisma.$transaction(async tx => …)`
  unfoldable pub transaction : Method S A → Method S A
  transaction m s = settle s (m s)
