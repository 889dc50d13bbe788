-- ===== src/SerialQueue/Tests.antt =====
-- A run of a queue, and an instance of its theorem.
use padel_bot_api.Prelude.{ℕ, ◌<◌, ◌≡◌, refl, true, false, some, List, [], ◌∷◌}
use padel_bot_api.SerialQueue.{
  Event, empty_queue, enqueue, advance, advance_job, perform, run, has_drained, is_serial, clean_up,
  has_settled,
}
use padel_bot_api.SerialQueue.Progress.{moves_left, run-IsLive}

-- Two tasks of one number and one of another; the first has failed and the second has started.
abbrev events : List Event
events =
    Event.enqueued 1
    ∷ Event.advanced 0 true
    ∷ Event.enqueued 1
    ∷ Event.enqueued 2
    ∷ Event.advanced 1 true
    ∷ Event.advanced 0 false
    ∷ Event.cleaned_up 1 0
    ∷ Event.advanced 1 true
    ∷ []

one_left : has_drained 1 (run events empty_queue).jobs ≡ false
unfolding run perform enqueue advance advance_job clean_up has_settled has_drained
one_left = refl

-- The entry of the number stays, since a newer task is queued.
tail_stays : (run events empty_queue).tails 1 ≡ some 1
unfolding run perform enqueue advance advance_job clean_up has_settled has_drained
tail_stays = refl

run-IsLive_example :
    (is_serial (run events empty_queue).jobs ≡ true)
    × ((i : ℕ) × (moves_left 1 (advance i true (run events empty_queue)).jobs
          < moves_left 1 (run events empty_queue).jobs))
run-IsLive_example = run-IsLive events 1 true one_left
