-- ===== src/Queue/Examples.antt =====
-- The results on the queue, applied to concrete runs.
use smb_browser.Base.{[], false, refl, true, ◌∷◌, ◌≡◌}
use smb_browser.Errors.{no_app_error}
use smb_browser.Queue.{
  Operations, cancel, cancelled, cancelled_error, completed, enqueue, queued_operation, running,
  set_state, value,
}
use smb_browser.Queue.Cancels.{IsCancelled, Run-IsCancelled}
use smb_browser.Queue.Runs.{
  Consistent, HasEnded, IsSkipped, Run-HasEnded, Run-IsSkipped, Run-enqueue,
}
use smb_browser.Queue.Worker.{
  Run, begin, callback_returns, decide, decision, done, enter, finished, inside,
  is_cancellation_requested, leave, request_cancel, skip, then_step, waiting,
}

abbrev started : Operations
started = enqueue [] 7 "copy"

abbrev begun : Operations
begun = set_state started 7 running no_app_error

abbrev ended : Operations
ended =
    set_state begun 7 (decision (is_cancellation_requested begun 7) no_app_error).0
      (decision (is_cancellation_requested begun 7) no_app_error).1

not_requested : is_cancellation_requested started 7 ≡ false
unfolding is_cancellation_requested value enqueue
not_requested = refl

-- The operation is enqueued, runs, and its callback succeeds.
copy-Run :
    Run true 7
      (record { operations = started; worker = waiting })
      (record { operations = ended; worker = finished })
copy-Run =
    then_step
      (then_step
        (then_step (then_step (then_step done (enter started refl not_requested)) (begin started))
          (callback_returns begun no_app_error))
        (decide begun no_app_error))
      (leave begun _ _)

Run-enqueue_example : Consistent 7 (record { operations = ended; worker = finished })
Run-enqueue_example =
    Run-enqueue true 7 [] "copy" (record { operations = ended; worker = finished }) copy-Run

-- An operation that is cancelled before its worker looks.
abbrev withdrawn : Operations
withdrawn = (7, record (queued_operation "copy") { cancellation_requested = true }) ∷ []

withdrawn_requested : is_cancellation_requested withdrawn 7 ≡ true
unfolding is_cancellation_requested value
withdrawn_requested = refl

withdrawn-IsSkipped : IsSkipped 7 (record { operations = withdrawn; worker = waiting })
unfolding value
withdrawn-IsSkipped =
    (record (queued_operation "copy") { cancellation_requested = true }, refl, (refl, refl))

Run-IsSkipped_example :
    IsSkipped 7
      (record { operations = set_state withdrawn 7 cancelled cancelled_error; worker = finished })
Run-IsSkipped_example =
    Run-IsSkipped 7 (record { operations = withdrawn; worker = waiting })
      (record { operations = set_state withdrawn 7 cancelled cancelled_error; worker = finished })
      withdrawn-IsSkipped
      (then_step (then_step done (skip withdrawn refl withdrawn_requested))
        (leave withdrawn cancelled cancelled_error))

-- An operation that is cancelled while its callback runs, which succeeds.
abbrev stopping : Operations
stopping =
    (7, record (queued_operation "copy") { state = running; cancellation_requested = true }) ∷ []

stopping-IsCancelled : IsCancelled 7 (record { operations = stopping; worker = inside })
unfolding value
stopping-IsCancelled = (
  record (queued_operation "copy") { state = running; cancellation_requested = true },
  refl,
  refl,
)

abbrev stopped : Operations
stopped =
    set_state stopping 7 (decision (is_cancellation_requested stopping 7) no_app_error).0
      (decision (is_cancellation_requested stopping 7) no_app_error).1

Run-IsCancelled_example : IsCancelled 7 (record { operations = stopped; worker = finished })
Run-IsCancelled_example =
    Run-IsCancelled 7 (record { operations = stopping; worker = inside })
      (record { operations = stopped; worker = finished }) stopping-IsCancelled
      (then_step
        (then_step (then_step done (callback_returns stopping no_app_error))
          (decide stopping no_app_error))
        (leave stopping _ _))

-- A completed operation that is cancelled afterwards.
abbrev finished_copy : Operations
finished_copy = (7, record (queued_operation "copy") { state = completed }) ∷ []

finished_copy-HasEnded :
    HasEnded 7 completed no_app_error (record { operations = finished_copy; worker = finished })
unfolding value
finished_copy-HasEnded =
    (refl, (record (queued_operation "copy") { state = completed }, refl, refl, refl))

Run-HasEnded_example :
    HasEnded 7 completed no_app_error
      (record { operations = (cancel finished_copy 7).1; worker = finished })
Run-HasEnded_example =
    Run-HasEnded true 7 completed no_app_error
      (record { operations = finished_copy; worker = finished })
      (record { operations = (cancel finished_copy 7).1; worker = finished }) finished_copy-HasEnded
      (then_step done (request_cancel finished_copy finished 7))
