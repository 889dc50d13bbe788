-- ===== src/Service/Returns.antt =====
-- What it takes that a method returns.
use padel_bot_api.Prelude.{◌≡◌, refl, sym, subst, Bool, true, false, Option, none, some}
use padel_bot_api.Service.{
  Method, Error, Result, ok, err, or_raise, continue, ◌>>=◌, raise_if, transaction, settle,
}

module _ {S A B : Type 0} where
  -- A chain returns when its first part does, and the rest does on what that left.
  pub return-bind :
      (m : Method S A) (f : A → Method S B) (s t : S) (b : B)
      → (m >>= f) s ≡ (ok b, t)
      → (a : A) × (u : S) × (m s ≡ (ok a, u)) × (f a u ≡ (ok b, t))
  unfolding ◌>>=◌
  return-bind m f s t b h = split (m s) refl h
    where
      split :
          (r : Result A × S)
          → m s ≡ r
          → continue r.0 f r.1 ≡ (ok b, t)
          → (a : A) × (u : S) × (m s ≡ (ok a, u)) × (f a u ≡ (ok b, t))
      split (ok a, u) e g = (a, u, e, g)
      split (err x, u) e g = cc

  pub bind-return :
      (m : Method S A) (f : A → Method S B) (s u : S) (a : A)
      → m s ≡ (ok a, u)
      → (m >>= f) s ≡ f a u
  unfolding ◌>>=◌
  bind-return m f s u a e = subst (λ r. continue r.0 f r.1 ≡ f a u) (sym e) refl

  pub bind-throw :
      (m : Method S A) (f : A → Method S B) (s u : S) (x : Error)
      → m s ≡ (err x, u)
      → (m >>= f) s ≡ (err x, u)
  unfolding ◌>>=◌
  bind-throw m f s u x e = subst (λ r. continue r.0 f r.1 ≡ (err x, u)) (sym e) refl

module _ {S A : Type 0} where
  pub return-transaction :
      (m : Method S A) (s t : S) (a : A) → transaction m s ≡ (ok a, t) → m s ≡ (ok a, t)
  unfolding transaction
  return-transaction m s t a h = split (m s) h
    where
      split : (r : Result A × S) → settle s r ≡ (ok a, t) → r ≡ (ok a, t)
      split (ok b, u) e = e
      split (err x, u) e = cc

  pub transaction-return :
      (m : Method S A) (s t : S) (a : A) → m s ≡ (ok a, t) → transaction m s ≡ (ok a, t)
  unfolding transaction
  transaction-return m s t a e = subst (λ r. settle s r ≡ (ok a, t)) (sym e) refl

module _ {S A B : Type 0} where
  -- A lookup that finds a row hands it on, and one that does not throws.
  pub or_raise-some :
      (o : Option A) (x : Error) (f : A → Method S B) (s : S) (a : A)
      → o ≡ some a
      → (or_raise o x >>= f) s ≡ f a s
  unfolding or_raise ◌>>=◌
  or_raise-some o x f s a e = rw e refl

  pub or_raise-none :
      (o : Option A) (x : Error) (f : A → Method S B) (s : S)
      → o ≡ none
      → (or_raise o x >>= f) s ≡ (err x, s)
  unfolding or_raise ◌>>=◌
  or_raise-none o x f s e = rw e refl

module _ {S B : Type 0} where
  -- Behind a guard the method returns only if the guard passes.
  pub return-raise_if :
      (c : Bool) (x : Error) (f : Unit {0} → Method S B) (s t : S) (b : B)
      → (raise_if c x >>= f) s ≡ (ok b, t)
      → f tt s ≡ (ok b, t)
  unfolding raise_if ◌>>=◌
  return-raise_if true x f s t b h = cc
  return-raise_if false x f s t b h = h
