-- ===== src/Queue/Runs.antt =====
-- The worker of an operation of src/application/OperationQueue.cpp, over all interleavings.
use smb_browser.Base.{==-refl, String, Bool, false, inl, inr, refl, some, true, ℕ, ◌∙◌, ◌≡◌, ◌⊎◌}
use smb_browser.Errors.{no_app_error, AppError, from_code, has_error}
use smb_browser.Queue.{
  queued_operation, Operations, OperationData, OperationState, cancelled_error, completed,
  empty_callback_error, enqueue, queued, running, set_progress, set_state, value, cancelled, failed,
}
use smb_browser.Queue.Map.{
  flagged, value-cancel, value-cancel_all, value-enqueue_other, value-update_other,
  value-update_same,
}
use smb_browser.Queue.Worker.{
  done, Run, is_cancellation_requested, then_step, decide_on, reports_cancellation, Step, System,
  begin, callback_returns, decide, decision, destroy, enter, entering, finished, inside, leave,
  leaving, other_enqueue, other_progress, other_state, refuse_empty, report, request_cancel,
  returned, skip, waiting, Worker,
}

-- How an operation ends: without an error if it completed, with one otherwise.
abbrev pub IsEnd : OperationState → AppError → Type 0
IsEnd s e =
    ((s ≡ completed) × (has_error e ≡ false))
    ⊎ (((s ≡ failed) ⊎ (s ≡ cancelled)) × (has_error e ≡ true))

-- The state that the map shows while the worker stands somewhere.
abbrev pub Agrees : Worker → OperationState → AppError → Type 0
Agrees waiting s e = s ≡ queued
Agrees entering s e = s ≡ queued
Agrees inside s e = s ≡ running
Agrees (returned r) s e = s ≡ running
Agrees (leaving s' e') s e = IsEnd s' e' × ((s ≡ running) ⊎ ((s ≡ queued) × (s' ≡ cancelled)))
Agrees finished s e = IsEnd s e

abbrev pub Consistent : ℕ → System → Type 0
Consistent id sys =
    (d : OperationData) × (value sys.operations id ≡ some d) × Agrees sys.worker d.state d.error

cancelled_error-IsEnd : IsEnd cancelled cancelled_error
unfolding cancelled_error from_code has_error
cancelled_error-IsEnd = inr (inr refl, refl)

no_app_error-IsEnd : IsEnd completed no_app_error
unfolding has_error
no_app_error-IsEnd = inl (refl, refl)

decide_on-IsEnd :
    (b c bad : Bool) (r : AppError)
    → has_error r ≡ bad
    → IsEnd (decide_on b bad c r).0 (decide_on b bad c r).1
unfolding decide_on
decide_on-IsEnd true c true r e = inr (inr refl, e)
decide_on-IsEnd true c false r e = cancelled_error-IsEnd
decide_on-IsEnd false true true r e = inr (inr refl, e)
decide_on-IsEnd false false true r e = inr (inl refl, e)
decide_on-IsEnd false true false r e = no_app_error-IsEnd
decide_on-IsEnd false false false r e = no_app_error-IsEnd

decision-IsEnd : (b : Bool) (r : AppError) → IsEnd (decision b r).0 (decision b r).1
unfolding decision
decision-IsEnd b r = decide_on-IsEnd b (reports_cancellation r) (has_error r) r refl

empty_callback_error-IsEnd : IsEnd failed empty_callback_error
unfolding empty_callback_error from_code has_error
empty_callback_error-IsEnd = inr (inl refl, refl)

Step-Consistent :
    (has_callback : Bool) (id : ℕ) (s t : System)
    → Step has_callback id s t
    → Consistent id s
    → Consistent id t
unfolding set_state set_progress enqueue value
Step-Consistent h id _ _ (request_cancel q w k) (d, e, a) = elim (value-cancel q id k d e) [
  | inl same ↦ (d, same, a)
  | inr marked ↦ (flagged d, marked, a)
]
Step-Consistent h id _ _ (destroy q w) (d, e, a) = (flagged d, value-cancel_all q id d e, a)
Step-Consistent h id _ _ (other_state q w k s e' n) (d, e, a) =
    (d, value-update_other q id k _ n ∙ e, a)
Step-Consistent h id _ _ (other_progress q w k p n) (d, e, a) =
    (d, value-update_other q id k _ n ∙ e, a)
Step-Consistent h id _ _ (other_enqueue q w k name n) (d, e, a) =
    (d, value-enqueue_other q id k name n ∙ e, a)
Step-Consistent h id _ _ (refuse_empty q b) (d, e, a) =
    (_, value-update_same q id _ d e, empty_callback_error-IsEnd)
Step-Consistent h id _ _ (skip q b c) (d, e, a) = (d, e, (cancelled_error-IsEnd, inr (a, refl)))
Step-Consistent h id _ _ (enter q b c) (d, e, a) = (d, e, a)
Step-Consistent h id _ _ (begin q) (d, e, a) = (_, value-update_same q id _ d e, refl)
Step-Consistent h id _ _ (report q p) (d, e, a) = (_, value-update_same q id _ d e, a)
Step-Consistent h id _ _ (callback_returns q r) (d, e, a) = (d, e, a)
Step-Consistent h id _ _ (decide q r) (d, e, a) = (d, e, (decision-IsEnd _ r, inl a))
Step-Consistent h id _ _ (leave q s e') (d, e, a) = (_, value-update_same q id _ d e, a.0)

Run-Consistent :
    (has_callback : Bool) (id : ℕ) (s t : System)
    → Consistent id s
    → Run has_callback id s t
    → Consistent id t
Run-Consistent h id s _ start done = start
Run-Consistent h id s t start (then_step {t = u} run step) =
    Step-Consistent h id u t step (Run-Consistent h id s u start run)

-- For every interleaving of the worker of an operation, from its enqueueing on, with
-- cancellations, with the destructor and with changes to other operations: the operation stays
-- in the map, and its state is Queued before the worker has entered, Running while the callback
-- runs and until the worker leaves, or Queued until then if the worker leaves without calling
-- it, and, when the worker has finished, Completed without an error, or Failed or Cancelled
-- with one.
pub Run-enqueue :
    (has_callback : Bool) (id : ℕ) (q : Operations) (name : String) (t : System)
    → Run has_callback id (record { operations = enqueue q id name; worker = waiting }) t
    → Consistent id t
unfolding enqueue value
Run-enqueue h id q name t run =
    Run-Consistent h id _ t (queued_operation name, rw (==-refl id) refl, refl) run

pub requested_of :
    (q : Operations) (id : ℕ) (d : OperationData)
    → value q id ≡ some d
    → is_cancellation_requested q id ≡ d.cancellation_requested
unfolding is_cancellation_requested
requested_of q id d e = rw (e, is_cancellation_requested) refl

-- Nothing has run, and nothing will.
abbrev pub Skips : Worker → OperationData → Type 0
Skips waiting d = (d.cancellation_requested ≡ true) × (d.state ≡ queued)
Skips entering d = ⊥
Skips inside d = ⊥
Skips (returned r) d = ⊥
Skips (leaving s e) d = (s ≡ cancelled) × (e ≡ cancelled_error)
Skips finished d = (d.state ≡ cancelled) × (d.error ≡ cancelled_error)

abbrev pub IsSkipped : ℕ → System → Type 0
IsSkipped id sys = (d : OperationData) × (value sys.operations id ≡ some d) × Skips sys.worker d

flagged-Skips : (w : Worker) (d : OperationData) → Skips w d → Skips w (flagged d)
flagged-Skips waiting d (a, b) = (refl, b)
flagged-Skips entering d a = absurd a
flagged-Skips inside d a = absurd a
flagged-Skips (returned r) d a = absurd a
flagged-Skips (leaving s e) d a = a
flagged-Skips finished d a = a

Step-IsSkipped : (id : ℕ) (s t : System) → Step true id s t → IsSkipped id s → IsSkipped id t
unfolding set_state set_progress is_cancellation_requested
Step-IsSkipped id _ _ (request_cancel q w k) (d, e, a) = elim (value-cancel q id k d e) [
  | inl same ↦ (d, same, a)
  | inr marked ↦ (flagged d, marked, flagged-Skips w d a)
]
Step-IsSkipped id _ _ (destroy q w) (d, e, a) =
    (flagged d, value-cancel_all q id d e, flagged-Skips w d a)
Step-IsSkipped id _ _ (other_state q w k s e' n) (d, e, a) =
    (d, value-update_other q id k _ n ∙ e, a)
Step-IsSkipped id _ _ (other_progress q w k p n) (d, e, a) =
    (d, value-update_other q id k _ n ∙ e, a)
Step-IsSkipped id _ _ (other_enqueue q w k name n) (d, e, a) =
    (d, value-enqueue_other q id k name n ∙ e, a)
Step-IsSkipped id _ _ (refuse_empty q b) (d, e, a) = absurd (cc b)
Step-IsSkipped id _ _ (skip q b c) (d, e, a) = (d, e, (refl, refl))
Step-IsSkipped id _ _ (enter q b c) (d, e, (marked, a)) =
    let kept = requested_of q id d e in absurd cc
Step-IsSkipped id _ _ (begin q) (d, e, a) = absurd a
Step-IsSkipped id _ _ (report q p) (d, e, a) = absurd a
Step-IsSkipped id _ _ (callback_returns q r) (d, e, a) = absurd a
Step-IsSkipped id _ _ (decide q r) (d, e, a) = absurd a
Step-IsSkipped id _ _ (leave q s e') (d, e, (a, b)) = (_, value-update_same q id _ d e, (a, b))

-- For an operation with a callback, from a point at which cancellation is requested while it is
-- queued and its worker waits, or at which its worker is leaving or has finished with the error
-- of a cancelled operation: in every interleaving the callback is not entered, and when the
-- worker has finished the operation is Cancelled with that error.
pub Run-IsSkipped : (id : ℕ) (s t : System) → IsSkipped id s → Run true id s t → IsSkipped id t
Run-IsSkipped id s _ start done = start
Run-IsSkipped id s t start (then_step {t = u} run step) =
    Step-IsSkipped id u t step (Run-IsSkipped id s u start run)

-- The operation has ended with a state and an error.
abbrev pub HasEnded : ℕ → OperationState → AppError → System → Type 0
HasEnded id s e sys =
    (sys.worker ≡ finished)
    × ((d : OperationData) × (value sys.operations id ≡ some d) × (d.state ≡ s) × (d.error ≡ e))

Step-HasEnded :
    (has_callback : Bool) (id : ℕ) (s : OperationState) (e : AppError) (u t : System)
    → Step has_callback id u t
    → HasEnded id s e u
    → HasEnded id s e t
unfolding set_state set_progress
Step-HasEnded h id s e _ _ (request_cancel q w k) (f, (d, v, a, b)) =
    elim (value-cancel q id k d v) [
      | inl same ↦ (f, (d, same, a, b))
      | inr marked ↦ (f, (flagged d, marked, a, b))
    ]
Step-HasEnded h id s e _ _ (destroy q w) (f, (d, v, a, b)) =
    (f, (flagged d, value-cancel_all q id d v, a, b))
Step-HasEnded h id s e _ _ (other_state q w k s' e' n) (f, (d, v, a, b)) =
    (f, (d, value-update_other q id k _ n ∙ v, a, b))
Step-HasEnded h id s e _ _ (other_progress q w k p n) (f, (d, v, a, b)) =
    (f, (d, value-update_other q id k _ n ∙ v, a, b))
Step-HasEnded h id s e _ _ (other_enqueue q w k name n) (f, (d, v, a, b)) =
    (f, (d, value-enqueue_other q id k name n ∙ v, a, b))
Step-HasEnded h id s e _ _ (refuse_empty q b) (f, a) = absurd (cc f)
Step-HasEnded h id s e _ _ (skip q b c) (f, a) = absurd (cc f)
Step-HasEnded h id s e _ _ (enter q b c) (f, a) = absurd (cc f)
Step-HasEnded h id s e _ _ (begin q) (f, a) = absurd (cc f)
Step-HasEnded h id s e _ _ (report q p) (f, a) = absurd (cc f)
Step-HasEnded h id s e _ _ (callback_returns q r) (f, a) = absurd (cc f)
Step-HasEnded h id s e _ _ (decide q r) (f, a) = absurd (cc f)
Step-HasEnded h id s e _ _ (leave q s' e') (f, a) = absurd (cc f)

-- Once the worker of an operation has finished, no interleaving of later cancellations, of it
-- or of others, by the destructor too, and of changes to other operations changes its state or
-- its error.
pub Run-HasEnded :
    (has_callback : Bool) (id : ℕ) (s : OperationState) (e : AppError) (u t : System)
    → HasEnded id s e u
    → Run has_callback id u t
    → HasEnded id s e t
Run-HasEnded h id s e u _ start done = start
Run-HasEnded h id s e u t start (then_step {t = m} run step) =
    Step-HasEnded h id s e m t step (Run-HasEnded h id s e u m start run)
