-- ===== src/Bookings/Courts.antt =====
-- What the service promises about courts, with everything else forgotten: which booking holds which
-- slot, and the status of each slot. A booking holds its slot until it is cancelled.
use padel_bot_api.Prelude.{ℕ, ◌≡◌, ◌≢◌, ◌⊎◌, Option, none, some, arith, ◌==◌, if◌then◌else◌}
use padel_bot_api.Prelude.Table.{find}
use padel_bot_api.Bookings.Model.{
  Db, Slot, SlotStatus, Booking, is_cancelled, slot_keyed, booking_keyed,
}

pub record View : Type 0 where
  pub holding : ℕ → Option ℕ
  pub status : ℕ → Option SlotStatus

-- The slot that a booking row holds.
abbrev pub held_by : Option Booking → Option ℕ
held_by none = none
held_by (some b) = if is_cancelled b.status then none else some b.slot_id

abbrev pub status_of : Option Slot → Option SlotStatus
status_of none = none
status_of (some s) = some s.status

abbrev pub view : Db → View
view db = record {
  holding = λ i. held_by (find i db.bookings);
  status = λ s. status_of (find s db.slots);
}

-- No double booking: a held slot is marked as booked, and no two bookings hold the same slot.
pub record IsSafe (v : View) : Type 0 where
  pub marked : (i s : ℕ) → v.holding i ≡ some s → v.status s ≡ some SlotStatus.booked
  pub alone : (i j s : ℕ) → v.holding i ≡ some s → v.holding j ≡ some s → i ≡ j

-- The slot can be taken: it is on sale, or has no row yet.
abbrev pub IsFree : Option SlotStatus → Type 0
IsFree o = (o ≡ some SlotStatus.available) ⊎ (o ≡ none)

-- The atomic changes that the service makes.
pub data Move (v w : View) : Type 0 where
  stay : ((i : ℕ) → w.holding i ≡ v.holding i) → ((s : ℕ) → w.status s ≡ v.status s) → Move v w
  -- A booking that held nothing takes a free slot.
  take :
      (i s : ℕ)
      → v.holding i ≡ none
      → IsFree (v.status s)
      → ((j : ℕ) → w.holding j ≡ (if i == j then some s else v.holding j))
      → ((t : ℕ) → w.status t ≡ (if s == t then some SlotStatus.booked else v.status t))
      → Move v w
  -- A booking lets its slot go, and the slot is on sale again.
  release :
      (i s : ℕ)
      → v.holding i ≡ some s
      → ((j : ℕ) → w.holding j ≡ (if i == j then none else v.holding j))
      → ((t : ℕ) → w.status t ≡ (if s == t then some SlotStatus.available else v.status t))
      → Move v w
  -- A booking changes its slot for a free one.
  change :
      (i s r : ℕ)
      → v.holding i ≡ some s
      → s ≢ r
      → IsFree (v.status r)
      → ((j : ℕ) → w.holding j ≡ (if i == j then some r else v.holding j))
      → ((t : ℕ)
          → w.status t ≡ (
              if r == t
              then some SlotStatus.booked
              else if s == t
              then some SlotStatus.available
              else v.status t))
      → Move v w

-- A sequence of such changes.
pub data Moves (v : View) : View → Type 0 where
  done : Moves v v
  next : {w u : View} → Moves v w → Move w u → Moves v u

pub Moves-trans : {v w u : View} → Moves v w → Moves w u → Moves v u
Moves-trans p done = p
Moves-trans p (next q m) = next (Moves-trans p q) m

pub Move-IsSafe : {v w : View} → Move v w → IsSafe v → IsSafe w
Move-IsSafe (stay h k) safe = record {
  marked = λ i s e. ground (arith, h i, k s, safe.marked i s);
  alone = λ i j s e f. ground (arith, h i, h j, safe.alone i j s);
}
Move-IsSafe (take i s none_held free h k) safe = record {
  marked = λ j t e. ground (arith, h j, k t, safe.marked j t);
  alone = λ j l t e f. ground (arith, h j, h l, safe.alone j l t, safe.marked j t, safe.marked l t);
}
Move-IsSafe (release i s held h k) safe = record {
  marked = λ j t e. ground (arith, h j, k t, safe.marked j t, safe.alone i j t);
  alone = λ j l t e f. ground (arith, h j, h l, safe.alone j l t);
}
Move-IsSafe (change i s r held differ free h k) safe = record {
  marked = λ j t e. ground (arith, h j, k t, safe.marked j t, safe.alone i j t);
  alone = λ j l t e f. ground (arith, h j, h l, safe.alone j l t, safe.marked j t, safe.marked l t);
}

pub Moves-IsSafe : {v w : View} → Moves v w → IsSafe v → IsSafe w
Moves-IsSafe done safe = safe
Moves-IsSafe (next p m) safe = Move-IsSafe m (Moves-IsSafe p safe)
