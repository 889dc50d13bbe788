-- ===== src/SerialQueue/Progress.antt =====
-- No job is left behind.
use padel_bot_api.Prelude.{
  ℕ, ◌+◌, ◌<◌, ◌≡◌, refl, ap, ◌∙◌, inl, inr, Bool, true, false, List, [], ◌∷◌, arith, ◌==◌,
  if◌then◌else◌, Bool-cases, length,
}
use padel_bot_api.SerialQueue.{
  Status, Job, empty_queue, is_settled, is_ready, next_status, advance_job, advance, Event, run,
  has_drained, is_serial,
}
use padel_bot_api.SerialQueue.Chains.{AreChained, IsChained, run-IsChained, ready_of_drained}

-- The moves that the jobs of a key have left: to start and to settle.
abbrev pub moves : Status → ℕ
moves Status.waiting = 2
moves Status.running = 1
moves (Status.settled fulfilled) = 0

abbrev pub moves_left : ℕ → List Job → ℕ
moves_left k [] = 0
moves_left k (j ∷ js) = (if j.key == k then moves j.status else 0) + moves_left k js

serial_of_chained : (js : List Job) → AreChained js → is_serial js ≡ true
unfolding is_serial
serial_of_chained [] inv = refl
serial_of_chained (j ∷ js) inv = rw inv.1.0 (serial_of_chained js inv.1.1.1)

ready-moves :
    (r fulfilled : Bool) (s : Status)
    → r ≡ true
    → is_settled s ≡ false
    → moves (next_status r fulfilled s) < moves s
ready-moves r fulfilled Status.waiting ready h = rw ready (omega arith)
ready-moves r fulfilled Status.running ready h = omega arith
ready-moves r fulfilled (Status.settled was) ready h = absurd (cc)

-- While a job of the key has not settled, the oldest such one can move.
can_advance :
    (k : ℕ) (fulfilled : Bool) (js : List Job)
    → AreChained js
    → has_drained k js ≡ false
    → (i : ℕ) × ((i < length js) × (moves_left k (advance_job i fulfilled js) < moves_left k js))
unfolding has_drained advance_job
can_advance k fulfilled [] inv h = absurd (cc)
can_advance k fulfilled (j ∷ js) inv h = elim (Bool-cases (has_drained k js)) [
  | inl e ↦
      (let same : j.key ≡ k = ground (arith, e, h) in
        let left : is_settled j.status ≡ false = ground (arith, e, h) in
        let drained : has_drained j.key js ≡ true = ap (λ x. has_drained x js) same ∙ e in
        let ready : is_ready j.previous js ≡ true =
          ready_of_drained j.key j.previous js inv.1.1.1 inv.1.1.0 drained in
        (
          j.id,
          (
            omega (arith, inv.0),
            ground (arith, ready-moves (is_ready j.previous js) fulfilled j.status ready left),
          ),
        ))
  | inr e ↦
      (let (i, (old, less)) = can_advance k fulfilled js inv.1.1.1 e in
        (i, (omega (arith, old), ground (arith, old, less, inv.0))))
]

-- However tasks of any keys are queued, start, end well or fail, and entries are removed: no job has
-- started while an older one of its key had not settled; and as long as a job of a key has not
-- settled there is a job whose promise can move on, with fewer moves left to the jobs of the key.
pub run-IsLive :
    (es : List Event) (k : ℕ) (fulfilled : Bool)
    → has_drained k (run es empty_queue).jobs ≡ false
    → (is_serial (run es empty_queue).jobs ≡ true)
      × ((i : ℕ) × (moves_left k (advance i fulfilled (run es empty_queue)).jobs
            < moves_left k (run es empty_queue).jobs))
unfolding advance
run-IsLive es k fulfilled h =
    let inv : IsChained (run es empty_queue) = run-IsChained es in
    let (i, (old, less)) = can_advance k fulfilled (run es empty_queue).jobs inv.jobs h in
    (serial_of_chained (run es empty_queue).jobs inv.jobs, (i, less))
