-- ===== src/SerialQueue.antt =====
-- common/keyed-serial-queue.ts: tasks of one key run one after the other.
pub mod Chains
pub mod Progress
mod Tests
use padel_bot_api.Prelude.{
  ℕ, Bool, true, false, not, ◌&&◌, ◌||◌, Option, none, some, List, [], ◌∷◌, ◌==◌, if◌then◌else◌,
  length,
}

-- A promise of `run`: it waits for the one before it, runs its task, and settles either way.
pub data Status : Type 0 where
  waiting running : Status
  settled : Bool → Status

-- A call of `enqueue`; `id` stands for the identity of its `settled` promise.
pub record Job : Type 0 where
  pub id : ℕ
  pub key : ℕ
  pub previous : Option ℕ
  pub status : Status

-- The queue, and every job so far with the newest first.
pub record Queue : Type 0 where
  pub tails : ℕ → Option ℕ
  pub jobs : List Job

abbrev pub empty_queue : Queue
empty_queue = record { tails = λ k. none; jobs = [] }

abbrev pub is_settled : Status → Bool
is_settled Status.waiting = false
is_settled Status.running = false
is_settled (Status.settled fulfilled) = true

abbrev pub is_waiting : Status → Bool
is_waiting Status.waiting = true
is_waiting Status.running = false
is_waiting (Status.settled fulfilled) = false

unfoldable pub has_settled : ℕ → List Job → Bool
has_settled i [] = false
has_settled i (j ∷ js) = if j.id == i then is_settled j.status else has_settled i js

-- `Promise.resolve()` has settled, and so may the promise of an older job have.
abbrev pub is_ready : Option ℕ → List Job → Bool
is_ready none js = true
is_ready (some p) js = has_settled p js

abbrev pub set_tail : ℕ → Option ℕ → (ℕ → Option ℕ) → ℕ → Option ℕ
set_tail key tail tails k = if k == key then tail else tails k

-- `enqueue`
unfoldable pub enqueue : ℕ → Queue → Queue
enqueue key q =
    let i : ℕ = length q.jobs in
    record q {
      tails = set_tail key (some i) q.tails;
      jobs = record { id = i; key = key; previous = q.tails key; status = Status.waiting } ∷ q.jobs;
    }

-- `previous.then(task)` and the end of the task, which may have failed.
abbrev pub next_status : Bool → Bool → Status → Status
next_status is_ready fulfilled Status.waiting = if is_ready then Status.running else Status.waiting
next_status is_ready fulfilled Status.running = Status.settled fulfilled
next_status is_ready fulfilled (Status.settled was) = Status.settled was

unfoldable pub advance_job : ℕ → Bool → List Job → List Job
advance_job i fulfilled [] = []
advance_job i fulfilled (j ∷ js) =
    if j.id == i
    then record j { status = next_status (is_ready j.previous js) fulfilled j.status } ∷ js
    else j ∷ advance_job i fulfilled js

unfoldable pub advance : ℕ → Bool → Queue → Queue
advance i fulfilled q = record q { jobs = advance_job i fulfilled q.jobs }

abbrev pub is_tail : Option ℕ → ℕ → Bool
is_tail none i = false
is_tail (some p) i = p == i

-- The callback of `settled`: the entry goes when nothing newer is queued.
unfoldable pub clean_up : ℕ → ℕ → Queue → Queue
clean_up key i q =
    if has_settled i q.jobs && is_tail (q.tails key) i
    then record q { tails = set_tail key none q.tails }
    else q

-- What can happen, in any order.
pub data Event : Type 0 where
  enqueued : ℕ → Event
  advanced : ℕ → Bool → Event
  cleaned_up : ℕ → ℕ → Event

unfoldable pub perform : Event → Queue → Queue
perform (enqueued key) q = enqueue key q
perform (advanced i fulfilled) q = advance i fulfilled q
perform (cleaned_up key i) q = clean_up key i q

unfoldable pub run : List Event → Queue → Queue
run [] q = q
run (e ∷ es) q = run es (perform e q)

-- All jobs of the key have settled.
unfoldable pub has_drained : ℕ → List Job → Bool
has_drained k [] = true
has_drained k (j ∷ js) = (not (j.key == k) || is_settled j.status) && has_drained k js

-- A job has started only if the older ones of its key have settled.
unfoldable pub is_serial : List Job → Bool
is_serial [] = true
is_serial (j ∷ js) = (is_waiting j.status || has_drained j.key js) && is_serial js
