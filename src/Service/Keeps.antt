-- ===== src/Service/Keeps.antt =====
-- Rules by which a method keeps what holds of the state, one for each way to build a method. A rule
-- for a read hands the rest of the method what was read.
use padel_bot_api.Prelude.{
  ◌≡◌, refl, sym, subst, Bool, true, false, Option, none, some, if◌then◌else◌,
}
use padel_bot_api.Service.{
  Method, Error, Result, ok, err, pure, gets, or_raise, continue, ◌>>=◌, raise_if, modify_db,
  transaction, settle,
}

pub record Keeps {S A : Type 0} (P : S → Type 0) (s : S) (m : Method S A) : Type 0 where
  pub at : P s → P (m s).1

module _ {S A : Type 0} {P : S → Type 0} (s : S) where
  pub Keeps-pure : (a : A) → Keeps P s (pure a)
  unfolding pure
  Keeps-pure a = record { at = λ p. p }

  -- What a transaction writes stays or is rolled back.
  pub Keeps-transaction : (m : Method S A) → Keeps P s m → Keeps P s (transaction m)
  unfolding transaction
  Keeps-transaction m k = record { at = λ p. settled p (m s) (k.at p) }
    where
      settled : P s → (r : Result A × S) → P r.1 → P (settle s r).1
      settled p (ok a, s') q = q
      settled p (err e, s') q = p

  pub Keeps-if :
      (c : Bool) (m n : Method S A) → Keeps P s m → Keeps P s n → Keeps P s (if c then m else n)
  Keeps-if true m n j k = j
  Keeps-if false m n j k = k

module _ {S A B : Type 0} {P : S → Type 0} (s : S) where
  pub Keeps-bind :
      (m : Method S A) (f : A → Method S B)
      → Keeps P s m
      → ((a : A) (s' : S) → m s ≡ (ok a, s') → Keeps P s' (f a))
      → Keeps P s (m >>= f)
  unfolding ◌>>=◌
  Keeps-bind m f k rest = record { at = λ p. after (m s) refl (k.at p) }
    where
      after : (r : Result A × S) → m s ≡ r → P r.1 → P (continue r.0 f r.1).1
      after (ok a, s') e q = (rest a s' e).at q
      after (err x, s') e q = q

  pub Keeps-gets : (g : S → A) (f : A → Method S B) → Keeps P s (f (g s)) → Keeps P s (gets g >>= f)
  unfolding gets ◌>>=◌
  Keeps-gets g f k = record { at = k.at }

  pub Keeps-or_raise :
      (o : Option A) (e : Error) (f : A → Method S B)
      → ((a : A) → o ≡ some a → Keeps P s (f a))
      → Keeps P s (or_raise o e >>= f)
  unfolding or_raise ◌>>=◌
  Keeps-or_raise none e f rest = record { at = λ p. p }
  Keeps-or_raise (some a) e f rest = record { at = (rest a refl).at }

module _ {S B : Type 0} {P : S → Type 0} (s : S) where
  pub Keeps-raise_if :
      (c : Bool) (e : Error) (f : Unit {0} → Method S B)
      → Keeps P s (f tt)
      → Keeps P s (raise_if c e >>= f)
  unfolding raise_if ◌>>=◌
  Keeps-raise_if true e f k = record { at = λ p. p }
  Keeps-raise_if false e f k = record { at = k.at }

  pub Keeps-modify_db :
      (g : S → S) (f : Unit {0} → Method S B)
      → (P s → P (g s))
      → Keeps P (g s) (f tt)
      → Keeps P s (modify_db g >>= f)
  unfolding modify_db ◌>>=◌
  Keeps-modify_db g f step k = record { at = λ p. k.at (step p) }

-- A guard that throws or does nothing.
pub Keeps-guard :
    {S : Type 0} {P : S → Type 0} (s : S) (c : Bool) (e : Error) → Keeps P s (raise_if c e)
unfolding raise_if
Keeps-guard s true e = record { at = λ p. p }
Keeps-guard s false e = record { at = λ p. p }

-- What a method that returns has brought about; of one that throws nothing is said.
abbrev pub OnReturn : {S A : Type 0} → (S → Type 0) → Result A × S → Type 0
OnReturn P (ok a, s) = P s
OnReturn P (err e, s) = Unit {0}

pub record Ends {S A : Type 0} (P : S → Type 0) (s : S) (m : Method S A) : Type 0 where
  pub at : OnReturn P (m s)

module _ {S A : Type 0} {P : S → Type 0} (s : S) where
  -- A transaction that throws is rolled back, so its body may break on the way what it restores.
  pub Keeps-settled : (m : Method S A) → (P s → Ends P s m) → Keeps P s (transaction m)
  unfolding transaction
  Keeps-settled m k = record { at = λ p. settled p (m s) (k p).at }
    where
      settled : P s → (r : Result A × S) → OnReturn P r → P (settle s r).1
      settled p (ok a, s') q = q
      settled p (err e, s') q = p

  pub Ends-Keeps : (m : Method S A) → P s → Keeps P s m → Ends P s m
  Ends-Keeps m p k = record { at = returned (m s) (k.at p) }
    where
      returned : (r : Result A × S) → P r.1 → OnReturn P r
      returned (ok a, s') q = q
      returned (err e, s') q = tt

  pub Ends-whole : (m : Method S A) → P (m s).1 → Ends P s m
  Ends-whole m p = record { at = returned (m s) p }
    where
      returned : (r : Result A × S) → P r.1 → OnReturn P r
      returned (ok a, s') q = q
      returned (err e, s') q = tt

  pub Ends-pure : (a : A) → P s → Ends P s (pure a)
  unfolding pure
  Ends-pure a p = record { at = p }

  pub Ends-if :
      (c : Bool) (m n : Method S A)
      → (c ≡ true → Ends P s m)
      → (c ≡ false → Ends P s n)
      → Ends P s (if c then m else n)
  Ends-if true m n j k = j refl
  Ends-if false m n j k = k refl

module _ {S A B : Type 0} {P : S → Type 0} (s : S) where
  pub Ends-bind :
      (m : Method S A) (f : A → Method S B)
      → ((a : A) (s' : S) → m s ≡ (ok a, s') → Ends P s' (f a))
      → Ends P s (m >>= f)
  unfolding ◌>>=◌
  Ends-bind m f rest = record { at = after (m s) refl }
    where
      after : (r : Result A × S) → m s ≡ r → OnReturn P (continue r.0 f r.1)
      after (ok a, s') e = (rest a s' e).at
      after (err x, s') e = tt

  -- The rest of a method after a part whose outcome is known.
  pub Ends-ok :
      (m : Method S A) (f : A → Method S B) (a : A) (s' : S)
      → m s ≡ (ok a, s')
      → Ends P s' (f a)
      → Ends P s (m >>= f)
  unfolding ◌>>=◌
  Ends-ok m f a s' e k = record { at = subst (λ r. OnReturn P (continue r.0 f r.1)) (sym e) k.at }

  pub Ends-then :
      (m : Method S A) (f : A → Method S B)
      → Ends P s m
      → ((a : A) (s' : S) → P s' → Ends P s' (f a))
      → Ends P s (m >>= f)
  unfolding ◌>>=◌
  Ends-then m f e rest = record { at = after (m s) e.at }
    where
      after : (r : Result A × S) → OnReturn P r → OnReturn P (continue r.0 f r.1)
      after (ok a, s') p = (rest a s' p).at
      after (err x, s') p = tt

  pub Ends-or_raise :
      (o : Option A) (e : Error) (f : A → Method S B)
      → ((a : A) → o ≡ some a → Ends P s (f a))
      → Ends P s (or_raise o e >>= f)
  unfolding or_raise ◌>>=◌
  Ends-or_raise none e f rest = record { at = tt }
  Ends-or_raise (some a) e f rest = record { at = (rest a refl).at }
