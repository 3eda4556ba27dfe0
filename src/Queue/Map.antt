-- ===== src/Queue/Map.antt =====
-- The entry of one id under the operations of the queue.
use smb_browser.Base.{
  String, Option, none, ◌∙◌, ◌⊎◌, ==→eq, Bool-cases, inl, inr, sym, true, ◌==◌, [], arith, refl,
  some, ℕ, ◌∷◌, ◌≡◌, ◌≢◌,
}
use smb_browser.Queue.{enqueue, cancel, cancel_all, OperationData, Operations, update, value}

pub value-update_same :
    (q : Operations) (id : ℕ) (f : OperationData → OperationData) (d : OperationData)
    → value q id ≡ some d
    → value (update q id f) id ≡ some (f d)
unfolding value update
value-update_same [] id f d e = cc
value-update_same ((k, a) ∷ q) id f d e = ground (arith, value-update_same q id f d)

pub value-update_other :
    (q : Operations) (id k : ℕ) (f : OperationData → OperationData)
    → k ≢ id
    → value (update q k f) id ≡ value q id
unfolding value update
value-update_other [] id k f n = refl
value-update_other ((j, a) ∷ q) id k f n = ground (arith, value-update_other q id k f n)

update_absent :
    (q : Operations) (k : ℕ) (f : OperationData → OperationData)
    → value q k ≡ none
    → update q k f ≡ q
unfolding value update
update_absent [] k f e = refl
update_absent ((j, a) ∷ q) k f e = ground (arith, update_absent q k f)

Option-cases : {A : Type 0} (o : Option A) → (o ≡ none) ⊎ ((a : A) × (o ≡ some a))
Option-cases none = inl refl
Option-cases (some a) = inr (a, refl)

abbrev pub flagged : OperationData → OperationData
flagged d = record d { cancellation_requested = true }

-- An unknown id is no entry to change, so `cancel` is a change in any case.
pub cancel_operations : (q : Operations) (k : ℕ) → (cancel q k).1 ≡ update q k flagged
unfolding cancel
cancel_operations q k = elim (Option-cases (value q k)) [
  | inl e ↦ rw (e, cancel) (sym (update_absent q k flagged e))
  | inr (d, e) ↦ rw (e, cancel) refl
]

pub value-cancel_all :
    (q : Operations) (id : ℕ) (d : OperationData)
    → value q id ≡ some d
    → value (cancel_all q) id ≡ some (flagged d)
unfolding value cancel_all
value-cancel_all [] id d e = cc
value-cancel_all ((k, a) ∷ q) id d e = ground (arith, value-cancel_all q id d)

-- Cancelling any operation leaves the entry of `id`, but for its own flag.
pub value-cancel :
    (q : Operations) (id k : ℕ) (d : OperationData)
    → value q id ≡ some d
    → (value (cancel q k).1 id ≡ some d) ⊎ (value (cancel q k).1 id ≡ some (flagged d))
value-cancel q id k d e = elim (Bool-cases (k == id)) [
  | inl same ↦
      inr (rw (cancel_operations q k, ==→eq k id same) (value-update_same q id flagged d e))
  | inr apart ↦
      inl (rw (cancel_operations q k) (value-update_other q id k flagged (λ eq. ground arith) ∙ e))
]

pub value-enqueue_other :
    (q : Operations) (id k : ℕ) (name : String) → k ≢ id → value (enqueue q k name) id ≡ value q id
unfolding value enqueue
value-enqueue_other q id k name n = ground arith
