-- ===== src/Client/Runs/Meaning.antt =====
-- What a plan says of a run.
use smb_browser.Base.{Bool, arith, length, subst, List, ℕ, [], ◌+◌, ◌∷◌}
use smb_browser.Client.{Client, finish, poll, report, send}
use smb_browser.Client.Runs.{run}
use smb_browser.Client.Traces.{IsAnswer, IsFrame, Obeys, Part, Takes, asks, ends, reports, sends}
use smb_browser.Wire.{DecodeResult}

-- The frames carry out the plan `before` from the message id `n` on, one id after the other, and leave
-- `after` of it.
pub data CarriesOut (t s : ℕ) : ℕ → List Part → List (List ℕ) → List Part → Type 0 where
  carried : {n : ℕ} {plan : List Part} → CarriesOut t s n plan [] plan
  carries :
      {n c : ℕ} {before next after : List Part} {frame : List ℕ} {frames : List (List ℕ)}
      → IsFrame t s c n frame
      → Takes c before next
      → CarriesOut t s (n + 1) next frames after
      → CarriesOut t s n before (frame ∷ frames) after

module _ (answer : ℕ → List ℕ → DecodeResult (List ℕ)) (stop : ℕ → Bool)
    (answers : (i : ℕ) (frame : List ℕ) → IsAnswer (answer i frame)) where
  pub run-Obeys :
      (t s : ℕ) {A : Type 0} (Q : ℕ → List Part → A → Type 0) (n : ℕ) (plan : List Part)
      (c : Client A) (i j : ℕ)
      → Obeys t s Q n plan c
      → (rest : List Part) × CarriesOut t s n plan (run answer stop i j c).frames rest
        × Q (n + length (run answer stop i j c).frames) rest (run answer stop i j c).result
  unfolding run
  run-Obeys t s Q n plan (finish a) i j (ends q) =
      (plan, carried, subst (λ k. Q k plan a) (omega arith) q)
  run-Obeys t s Q n plan (poll f) i j (asks d) =
      run-Obeys t s Q n plan (f (stop j)) i (j + 1) (d (stop j))
  run-Obeys t s Q n plan (report a b m) i j (reports d) = run-Obeys t s Q n plan m i j d
  run-Obeys t s Q n before (send frame f) i j (sends {after = next} is_frame takes d) =
      let (rest, fine, q) =
        run-Obeys t s Q (n + 1) next (f (answer i frame)) (i + 1) j
          (d (answer i frame) (answers i frame)) in
      (
        rest,
        carries is_frame takes fine,
        subst (λ k. Q k rest (run answer stop (i + 1) j (f (answer i frame))).result) (omega arith)
            q,
      )
