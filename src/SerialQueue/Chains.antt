-- ===== src/SerialQueue/Chains.antt =====
-- The promises of a key form a chain, whose end is its tail.
use padel_bot_api.Prelude.{
  ℕ, ◌<◌, ◌≡◌, refl, sym, ap, subst, ◌∙◌, inl, inr, Bool, true, false, ◌&&◌, ◌||◌, Option, none,
  some, List, [], ◌∷◌, arith, ◌==◌, if◌then◌else◌, ==_iff, Bool-cases, length,
}
use padel_bot_api.SerialQueue.{
  Status, Job, Queue, empty_queue, is_settled, is_waiting, has_settled, is_ready, enqueue,
  next_status, advance_job, advance, is_tail, clean_up, Event, perform, run, has_drained,
}

unfoldable pub newest : ℕ → List Job → Option ℕ
newest k [] = none
newest k (j ∷ js) = if j.key == k then some j.id else newest k js

-- What a job of the key waits for: its newest promise, or nothing when all have settled.
abbrev pub Link : ℕ → Option ℕ → List Job → Type 0
Link k none js = has_drained k js ≡ true
Link k (some p) js = newest k js ≡ some p

abbrev pub AreChained : List Job → Type 0
AreChained [] = Unit
AreChained (j ∷ js) =
    (j.id ≡ length js)
    × ((is_waiting j.status || has_drained j.key js ≡ true)
        × (Link j.key j.previous js × AreChained js))

none_is_not_some : (k p : ℕ) → newest k [] ≡ some p → ⊥
unfolding newest
none_is_not_some k p h = cc

newest-skip :
    (k : ℕ) (j : Job) (js : List Job) → j.key == k ≡ false → newest k (j ∷ js) ≡ newest k js
unfolding newest
newest-skip k j js e = rw e refl

newest-here :
    (k p : ℕ) (j : Job) (js : List Job) → j.key == k ≡ true → newest k (j ∷ js) ≡ some p → j.id ≡ p
unfolding newest
newest-here k p j js e h = ground (arith, e, h)

newest-old : (k p : ℕ) (js : List Job) → AreChained js → newest k js ≡ some p → p < length js
unfolding newest
newest-old k p [] inv h = absurd (cc)
newest-old k p (j ∷ js) inv h = elim (Bool-cases (j.key == k)) [
  | inl e ↦ omega (arith, inv.0, newest-here k p j js e h)
  | inr e ↦ omega (arith, newest-old k p js inv.1.1.1 (sym (newest-skip k j js e) ∙ h))
]

not_waiting : (s : Status) → is_settled s ≡ true → is_waiting s ≡ false
not_waiting Status.waiting h = absurd (cc)
not_waiting Status.running h = refl
not_waiting (Status.settled was) h = refl

-- Once the newest promise of a key has settled, all have.
pub newest-settled :
    (k p : ℕ) (js : List Job)
    → AreChained js
    → newest k js ≡ some p
    → has_settled p js ≡ true
    → has_drained k js ≡ true
unfolding has_settled has_drained
newest-settled k p [] inv h s = refl
newest-settled k p (j ∷ js) inv h s = elim (Bool-cases (j.key == k)) [
  | inl e ↦
      (let key : has_drained j.key js ≡ has_drained k js =
          ap (λ x. has_drained x js) ((==_iff j.key k).0 e) in
        ground (arith, e, s, newest-here k p j js e h, inv.1.0, not_waiting j.status, key))
  | inr e ↦
      (let link : newest k js ≡ some p = sym (newest-skip k j js e) ∙ h in
        ground (
          arith,
          e,
          s,
          inv.0,
          newest-old k p js inv.1.1.1 link,
          newest-settled k p js inv.1.1.1 link,
        ))
]

-- A promise that a job waits for settles only when all older jobs of its key have.
pub drained_of_ready :
    (k : ℕ) (o : Option ℕ) (js : List Job)
    → AreChained js
    → Link k o js
    → is_ready o js ≡ true
    → has_drained k js ≡ true
drained_of_ready k none js inv link r = link
drained_of_ready k (some p) js inv link r = newest-settled k p js inv link r

newest_drained :
    (k p : ℕ) (js : List Job)
    → AreChained js
    → newest k js ≡ some p
    → has_drained k js ≡ true
    → has_settled p js ≡ true
unfolding has_settled has_drained
newest_drained k p [] inv h d = absurd (none_is_not_some k p h)
newest_drained k p (j ∷ js) inv h d = elim (Bool-cases (j.key == k)) [
  | inl e ↦ ground (arith, e, d, newest-here k p j js e h)
  | inr e ↦
      (let link : newest k js ≡ some p = sym (newest-skip k j js e) ∙ h in
        ground (
          arith,
          e,
          d,
          inv.0,
          newest-old k p js inv.1.1.1 link,
          newest_drained k p js inv.1.1.1 link,
        ))
]

-- And it has settled then.
pub ready_of_drained :
    (k : ℕ) (o : Option ℕ) (js : List Job)
    → AreChained js
    → Link k o js
    → has_drained k js ≡ true
    → is_ready o js ≡ true
ready_of_drained k none js inv link d = refl
ready_of_drained k (some p) js inv link d = newest_drained k p js inv link d

length-advance_job :
    (i : ℕ) (fulfilled : Bool) (js : List Job) → length (advance_job i fulfilled js) ≡ length js
unfolding advance_job
length-advance_job i fulfilled [] = refl
length-advance_job i fulfilled (j ∷ js) = ground (arith, length-advance_job i fulfilled js)

newest-advance_job :
    (i k : ℕ) (fulfilled : Bool) (js : List Job)
    → newest k (advance_job i fulfilled js) ≡ newest k js
unfolding advance_job newest
newest-advance_job i k fulfilled [] = refl
newest-advance_job i k fulfilled (j ∷ js) = elim (Bool-cases (j.id == i)) [
  | inl e ↦ rw e refl
  | inr e ↦
      rw e (ap (λ o. if j.key == k then some j.id else o) (newest-advance_job i k fulfilled js))
]

settled_stays :
    (r fulfilled : Bool) (s : Status) → is_settled s ≡ true → next_status r fulfilled s ≡ s
settled_stays r fulfilled Status.waiting h = absurd (cc)
settled_stays r fulfilled Status.running h = absurd (cc)
settled_stays r fulfilled (Status.settled was) h = refl

has_drained-advance_job :
    (i k : ℕ) (fulfilled : Bool) (js : List Job)
    → has_drained k js ≡ true
    → has_drained k (advance_job i fulfilled js) ≡ true
unfolding advance_job has_drained
has_drained-advance_job i k fulfilled [] h = refl
has_drained-advance_job i k fulfilled (j ∷ js) h = grind (
  arith,
  settled_stays (is_ready j.previous js) fulfilled j.status,
  has_drained-advance_job i k fulfilled js,
)

Link-advance_job :
    (i k : ℕ) (fulfilled : Bool) (o : Option ℕ) (js : List Job)
    → Link k o js
    → Link k o (advance_job i fulfilled js)
Link-advance_job i k fulfilled none js h = has_drained-advance_job i k fulfilled js h
Link-advance_job i k fulfilled (some p) js h = newest-advance_job i k fulfilled js ∙ h

-- A job that starts has no older one of its key left.
may_start :
    (r fulfilled d : Bool) (s : Status)
    → (r ≡ true → d ≡ true)
    → is_waiting s || d ≡ true
    → is_waiting (next_status r fulfilled s) || d ≡ true
may_start true fulfilled d Status.waiting ready h = ready refl
may_start false fulfilled d Status.waiting ready h = refl
may_start r fulfilled d Status.running ready h = h
may_start r fulfilled d (Status.settled was) ready h = h

advance_job-AreChained :
    (i : ℕ) (fulfilled : Bool) (js : List Job)
    → AreChained js
    → AreChained (advance_job i fulfilled js)
unfolding advance_job
advance_job-AreChained i fulfilled [] inv = tt
advance_job-AreChained i fulfilled (j ∷ js) inv = elim (Bool-cases (j.id == i)) [
  | inl e ↦ rw e (
    inv.0,
    (
      may_start (is_ready j.previous js) fulfilled (has_drained j.key js) j.status
          (drained_of_ready j.key j.previous js inv.1.1.1 inv.1.1.0) inv.1.0,
      (inv.1.1.0, inv.1.1.1),
    ),
  )
  | inr e ↦ rw e (
    inv.0 ∙ sym (length-advance_job i fulfilled js),
    (
      still (is_waiting j.status) inv.1.0,
      (
        Link-advance_job i j.key fulfilled j.previous js inv.1.1.0,
        advance_job-AreChained i fulfilled js inv.1.1.1,
      ),
    ),
  )
]
  where
    still :
        (w : Bool)
        → w || has_drained j.key js ≡ true
        → w || has_drained j.key (advance_job i fulfilled js) ≡ true
    still true h = refl
    still false h = has_drained-advance_job i j.key fulfilled js h

-- Every tail is where the chain of its key ends.
pub record IsChained (q : Queue) : Type 0 where
  pub jobs : AreChained q.jobs
  pub tails : (k : ℕ) → Link k (q.tails k) q.jobs

Link-skip :
    (k : ℕ) (o : Option ℕ) (j : Job) (js : List Job)
    → j.key == k ≡ false
    → Link k o js
    → Link k o (j ∷ js)
unfolding has_drained
Link-skip k none j js e h = ground (arith, e, h)
Link-skip k (some p) j js e h = newest-skip k j js e ∙ h

newest-first : (k : ℕ) (j : Job) (js : List Job) → j.key == k ≡ true → newest k (j ∷ js) ≡ some j.id
unfolding newest
newest-first k j js e = rw e refl

drained_of_tail :
    (k i : ℕ) (o : Option ℕ) (js : List Job)
    → AreChained js
    → Link k o js
    → has_settled i js && is_tail o i ≡ true
    → has_drained k js ≡ true
drained_of_tail k i none js inv link h = link
drained_of_tail k i (some p) js inv link h =
    (let same : i ≡ p = ground (arith, h) in
      let settled : has_settled i js ≡ true = ground (arith, h) in
      newest-settled k p js inv link (subst (λ x. has_settled x js ≡ true) same settled))

enqueue-IsChained : (key : ℕ) (q : Queue) → IsChained q → IsChained (enqueue key q)
unfolding enqueue
enqueue-IsChained key q inv = record {
  jobs = (refl, (refl, (inv.tails key, inv.jobs)));
  tails = λ k. elim (Bool-cases (k == key)) [
    | inl e ↦ rw e (newest-first k _ q.jobs (ground (arith, e)))
    | inr e ↦ rw e (Link-skip k (q.tails k) _ q.jobs (ground (arith, e)) (inv.tails k))
  ];
}

advance-IsChained :
    (i : ℕ) (fulfilled : Bool) (q : Queue) → IsChained q → IsChained (advance i fulfilled q)
unfolding advance
advance-IsChained i fulfilled q inv = record {
  jobs = advance_job-AreChained i fulfilled q.jobs inv.jobs;
  tails = λ k. Link-advance_job i k fulfilled (q.tails k) q.jobs (inv.tails k);
}

clean_up-IsChained : (key i : ℕ) (q : Queue) → IsChained q → IsChained (clean_up key i q)
unfolding clean_up
clean_up-IsChained key i q inv =
    elim (Bool-cases (has_settled i q.jobs && is_tail (q.tails key) i)) [
      | inl e ↦ rw e (record {
        jobs = inv.jobs;
        tails = λ k. elim (Bool-cases (k == key)) [
          | inl same ↦ rw same (
              subst (λ x. has_drained x q.jobs ≡ true) (sym ((==_iff k key).0 same))
                (drained_of_tail key i (q.tails key) q.jobs inv.jobs (inv.tails key) e))
          | inr other ↦ rw other (inv.tails k)
        ];
      })
      | inr e ↦ rw e inv
    ]

perform-IsChained : (e : Event) (q : Queue) → IsChained q → IsChained (perform e q)
unfolding perform
perform-IsChained (Event.enqueued key) q inv = enqueue-IsChained key q inv
perform-IsChained (Event.advanced i fulfilled) q inv = advance-IsChained i fulfilled q inv
perform-IsChained (Event.cleaned_up key i) q inv = clean_up-IsChained key i q inv

run_from-IsChained : (es : List Event) (q : Queue) → IsChained q → IsChained (run es q)
unfolding run
run_from-IsChained [] q inv = inv
run_from-IsChained (e ∷ es) q inv = run_from-IsChained es (perform e q) (perform-IsChained e q inv)

pub run-IsChained : (es : List Event) → IsChained (run es empty_queue)
unfolding has_drained
run-IsChained es = run_from-IsChained es empty_queue (record { jobs = tt; tails = λ k. refl })
