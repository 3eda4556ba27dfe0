-- ===== src/Queue/Cancels.antt =====
-- What a cancellation of src/application/OperationQueue.cpp does to an operation whose worker has not
-- yet looked at the token behind its callback, over all interleavings.
use smb_browser.Base.{Bool, false, inl, inr, some, true, refl, ◌∙◌, ◌≡◌, ℕ}
use smb_browser.Errors.{AppError, from_code, has_error}
use smb_browser.Queue.{
  OperationData, OperationState, cancelled, cancelled_error, set_progress, set_state, value,
}
use smb_browser.Queue.Map.{
  flagged, value-cancel, value-cancel_all, value-enqueue_other, value-update_other,
  value-update_same,
}
use smb_browser.Queue.Runs.{requested_of}
use smb_browser.Queue.Worker.{
  Run, Step, System, Worker, begin, callback_returns, decide, decide_on, decision, destroy, done,
  enter, entering, finished, inside, leave, leaving, other_enqueue, other_progress, other_state,
  refuse_empty, report, reports_cancellation, request_cancel, returned, skip, then_step, waiting,
}

abbrev pub IsCancelEnd : OperationState → AppError → Type 0
IsCancelEnd s e = (s ≡ cancelled) × (has_error e ≡ true)

-- Cancellation is requested, and nothing else has been decided.
abbrev pub Cancels : Worker → OperationData → Type 0
Cancels waiting d = d.cancellation_requested ≡ true
Cancels entering d = d.cancellation_requested ≡ true
Cancels inside d = d.cancellation_requested ≡ true
Cancels (returned r) d = d.cancellation_requested ≡ true
Cancels (leaving s e) d = IsCancelEnd s e
Cancels finished d = IsCancelEnd d.state d.error

abbrev pub IsCancelled : ℕ → System → Type 0
IsCancelled id sys = (d : OperationData) × (value sys.operations id ≡ some d) × Cancels sys.worker d

flagged-Cancels : (w : Worker) (d : OperationData) → Cancels w d → Cancels w (flagged d)
flagged-Cancels waiting d a = refl
flagged-Cancels entering d a = refl
flagged-Cancels inside d a = refl
flagged-Cancels (returned r) d a = refl
flagged-Cancels (leaving s e) d a = a
flagged-Cancels finished d a = a

cancelled_error-IsCancelEnd : IsCancelEnd cancelled cancelled_error
unfolding cancelled_error from_code has_error
cancelled_error-IsCancelEnd = (refl, refl)

decide_on_requested :
    (bad c : Bool) (r : AppError)
    → has_error r ≡ bad
    → IsCancelEnd (decide_on true bad c r).0 (decide_on true bad c r).1
unfolding decide_on
decide_on_requested true c r e = (refl, e)
decide_on_requested false c r e = cancelled_error-IsCancelEnd

decision_requested :
    (b : Bool) (r : AppError) → b ≡ true → IsCancelEnd (decision b r).0 (decision b r).1
unfolding decision
decision_requested true r e = decide_on_requested (has_error r) (reports_cancellation r) r refl
decision_requested false r e = absurd (cc e)

Step-IsCancelled : (id : ℕ) (s t : System) → Step true id s t → IsCancelled id s → IsCancelled id t
unfolding set_state set_progress
Step-IsCancelled id _ _ (request_cancel q w k) (d, e, a) = elim (value-cancel q id k d e) [
  | inl same ↦ (d, same, a)
  | inr marked ↦ (flagged d, marked, flagged-Cancels w d a)
]
Step-IsCancelled id _ _ (destroy q w) (d, e, a) =
    (flagged d, value-cancel_all q id d e, flagged-Cancels w d a)
Step-IsCancelled id _ _ (other_state q w k s e' n) (d, e, a) =
    (d, value-update_other q id k _ n ∙ e, a)
Step-IsCancelled id _ _ (other_progress q w k p n) (d, e, a) =
    (d, value-update_other q id k _ n ∙ e, a)
Step-IsCancelled id _ _ (other_enqueue q w k name n) (d, e, a) =
    (d, value-enqueue_other q id k name n ∙ e, a)
Step-IsCancelled id _ _ (refuse_empty q b) (d, e, a) = absurd (cc b)
Step-IsCancelled id _ _ (skip q b c) (d, e, a) = (d, e, cancelled_error-IsCancelEnd)
Step-IsCancelled id _ _ (enter q b c) (d, e, a) = (d, e, a)
Step-IsCancelled id _ _ (begin q) (d, e, a) = (_, value-update_same q id _ d e, a)
Step-IsCancelled id _ _ (report q p) (d, e, a) = (_, value-update_same q id _ d e, a)
Step-IsCancelled id _ _ (callback_returns q r) (d, e, a) = (d, e, a)
Step-IsCancelled id _ _ (decide q r) (d, e, a) =
    (d, e, decision_requested _ r (requested_of q id d e ∙ a))
Step-IsCancelled id _ _ (leave q s e') (d, e, a) = (_, value-update_same q id _ d e, a)

-- For an operation with a callback, from a point at which its cancellation is requested and its
-- worker has not yet looked at the token behind the callback: in every interleaving, and
-- whatever the callback returns, success included, once the worker has finished the operation
-- is Cancelled, with an error.
pub Run-IsCancelled :
    (id : ℕ) (s t : System) → IsCancelled id s → Run true id s t → IsCancelled id t
Run-IsCancelled id s _ start done = start
Run-IsCancelled id s t start (then_step {t = u} run step) =
    Step-IsCancelled id u t step (Run-IsCancelled id s u start run)
