-- ===== src/Bookings/Steps.antt =====
-- Rules by which a method of the service is a sequence of court changes, one for each way to build
-- a method. A rule for a read hands the rest of the method what was read.
use padel_bot_api.Prelude.{
  subst, sym, ℕ, ◌≡◌, refl, Bool, true, false, Option, none, some, arith, ap, ◌∙◌, if◌then◌else◌,
}
use padel_bot_api.Prelude.Table.{find}
use padel_bot_api.Bookings.Model.{Db, Booking, slot_keyed, booking_keyed}
use padel_bot_api.Bookings.Monad.{
  Action, Result, ok, err, Error, pure, gets, or_raise, ◌>>=◌, continue, raise_if, not_found,
  transaction, settle, modify_db,
}
use padel_bot_api.Bookings.Statements.{find_one, find_live}
use padel_bot_api.Bookings.Courts.{view, stay, Moves, done, next, Moves-trans, View}

pub record Steps {A : Type 0} (db : Db) (m : Action A) : Type 0 where
  pub at : Moves (view db) (view (m db).1)

module _ {A : Type 0} (db : Db) where
  pub Steps-pure : (a : A) → Steps db (pure a)
  unfolding pure
  Steps-pure a = record { at = done }

-- What a part of a transaction that began at the view `v` has to show: nothing if it throws, since
-- all is rolled back then.
abbrev pub Committed : {A : Type 0} → View → Result A × Db → Type 0
Committed v (ok a, db') = Moves v (view db')
Committed v (err e, db') = Unit {0}

pub record Commits {A : Type 0} (v : View) (db : Db) (m : Action A) : Type 0 where
  pub at : Committed v (m db)

-- A transaction either commits its changes or makes none.
pub Steps-transaction :
    {A : Type 0} (db : Db) (m : Action A) → Commits (view db) db m → Steps db (transaction m)
unfolding transaction
Steps-transaction {A} db m s = record { at = settled (m db) s.at }
  where
    settled : (r : Result A × Db) → Committed (view db) r → Moves (view db) (view (settle db r).1)
    settled (ok a, db') p = p
    settled (err e, db') p = done

pub Commits-last :
    {A : Type 0} (v : View) (db : Db) (m : Action A) → Moves v (view (m db).1) → Commits v db m
Commits-last {A} v db m p = record { at = last (m db) p }
  where
    last : (r : Result A × Db) → Moves v (view r.1) → Committed v r
    last (ok a, db') q = q
    last (err e, db') q = tt

-- A transaction whose body is a sequence of changes as it stands.
pub Steps-whole : {A : Type 0} (db : Db) (m : Action A) → Steps db m → Steps db (transaction m)
Steps-whole db m s = Steps-transaction db m (Commits-last (view db) db m s.at)

module _ {A B : Type 0} (v : View) (db : Db) where
  -- The rest of a method after a part whose outcome is known.
  pub Commits-ok :
      (m : Action A) (f : A → Action B) (a : A) (db' : Db)
      → m db ≡ (ok a, db')
      → Commits v db' (f a)
      → Commits v db (m >>= f)
  unfolding ◌>>=◌
  Commits-ok m f a db' e s = record {
    at = subst (λ r. Committed v (continue r.0 f r.1)) (sym e) s.at;
  }

  pub Commits-bind :
      (m : Action A) (f : A → Action B)
      → ((a : A) (db' : Db) → m db ≡ (ok a, db') → Commits v db' (f a))
      → Commits v db (m >>= f)
  unfolding ◌>>=◌
  Commits-bind m f rest = record { at = after (m db) refl }
    where
      after : (r : Result A × Db) → m db ≡ r → Committed v (continue r.0 f r.1)
      after (ok a, db') e = (rest a db' e).at
      after (err x, db') e = tt

  pub Commits-gets :
      (g : Db → A) (f : A → Action B) → Commits v db (f (g db)) → Commits v db (gets g >>= f)
  unfolding gets ◌>>=◌
  Commits-gets g f s = record { at = s.at }

  pub Commits-err :
      (m : Action A) (f : A → Action B) (x : Error) (db' : Db)
      → m db ≡ (err x, db')
      → Commits v db (m >>= f)
  unfolding ◌>>=◌
  Commits-err m f x db' e = record { at = subst (λ r. Committed v (continue r.0 f r.1)) (sym e) tt }

pub Commits-raise_if :
    {B : Type 0} (v : View) (db : Db) (c : Bool) (e : Error) (f : Unit {0} → Action B)
    → (c ≡ false → Commits v db (f tt))
    → Commits v db (raise_if c e >>= f)
unfolding raise_if ◌>>=◌
Commits-raise_if v db true e f rest = record { at = tt }
Commits-raise_if v db false e f rest = record { at = (rest refl).at }

module _ {A B : Type 0} (db : Db) where
  pub Steps-bind :
      (m : Action A) (f : A → Action B)
      → Steps db m
      → ((a : A) (db' : Db) → m db ≡ (ok a, db') → Steps db' (f a))
      → Steps db (m >>= f)
  unfolding ◌>>=◌
  Steps-bind m f s rest = record { at = Moves-trans s.at (after (m db) refl) }
    where
      after : (r : Result A × Db) → m db ≡ r → Moves (view r.1) (view (continue r.0 f r.1).1)
      after (ok a, db') e = (rest a db' e).at
      after (err x, db') e = done

  pub Steps-gets : (g : Db → A) (f : A → Action B) → Steps db (f (g db)) → Steps db (gets g >>= f)
  unfolding gets ◌>>=◌
  Steps-gets g f s = record { at = s.at }

  pub Steps-or_raise :
      (o : Option A) (e : Error) (f : A → Action B)
      → ((a : A) → o ≡ some a → Steps db (f a))
      → Steps db (or_raise o e >>= f)
  unfolding or_raise ◌>>=◌
  Steps-or_raise none e f rest = record { at = done }
  Steps-or_raise (some a) e f rest = record { at = (rest a refl).at }

pub find_of_live :
    (club_id i : ℕ) (db : Db) (b : Booking)
    → find_live club_id i db ≡ some b
    → find i db.bookings ≡ some b
find_of_live club_id i db b h = ground arith

module _ {B : Type 0} (db : Db) where
  pub Steps-raise_if :
      (c : Bool) (e : Error) (f : Unit {0} → Action B)
      → (c ≡ false → Steps db (f tt))
      → Steps db (raise_if c e >>= f)
  unfolding raise_if ◌>>=◌
  Steps-raise_if true e f rest = record { at = done }
  Steps-raise_if false e f rest = record { at = (rest refl).at }

  -- `findOne` leaves the database alone and hands on a live row of the club.
  pub Steps-find_one :
      (club_id i : ℕ) (f : Booking → Action B)
      → ((b : Booking) → find i db.bookings ≡ some b → Steps db (f b))
      → Steps db (find_one club_id i >>= f)
  unfolding find_one gets or_raise ◌>>=◌
  Steps-find_one club_id i f rest = record {
    at =
        (Steps-or_raise db (find_live club_id i db) not_found f
          (λ b e. rest b (find_of_live club_id i db b e))).at;
  }

-- A test that was made before chooses between two methods.
pub Steps-if :
    {A : Type 0} (db : Db) (c : Bool) (m n : Action A)
    → Steps db m
    → Steps db n
    → Steps db (if c then m else n)
Steps-if db true m n s t = s
Steps-if db false m n s t = t

pub Steps-unchanged :
    {A : Type 0} (db : Db) (m : Action A)
    → (m db).1.bookings ≡ db.bookings
    → (m db).1.slots ≡ db.slots
    → Steps db m
Steps-unchanged db m b s = record { at = next done (stay (λ i. rw b) (λ t. rw s)) }

pub Steps-modify_db :
    {B : Type 0} (db : Db) (g : Db → Db) (f : Unit {0} → Action B)
    → (g db).bookings ≡ db.bookings
    → (g db).slots ≡ db.slots
    → Steps (g db) (f tt)
    → Steps db (modify_db g >>= f)
unfolding modify_db ◌>>=◌
Steps-modify_db db g f b s rest = record {
  at = Moves-trans (next done (stay (λ i. rw b) (λ t. rw s))) rest.at;
}

-- A part that writes neither bookings nor slots.
pub Steps-neutral :
    {A B : Type 0} (db : Db) (m : Action A) (f : A → Action B)
    → (m db).1.bookings ≡ db.bookings
    → (m db).1.slots ≡ db.slots
    → ((a : A) (db' : Db) → db'.bookings ≡ db.bookings → db'.slots ≡ db.slots → Steps db' (f a))
    → Steps db (m >>= f)
Steps-neutral db m f b s rest =
    Steps-bind db m f (Steps-unchanged db m b s)
      λ a db' e. rest a db' (sym (ap (λ r. r.1.bookings) e) ∙ b) (sym (ap (λ r. r.1.slots) e) ∙ s)
