-- ===== src/Session/Copy/Closes.antt =====
-- The loop of copyFileServerSide of src/native_smb/NativeSmbSession.cpp, with both files open.
use smb_browser.Base.{
  Bool, Bool-cases, false, if◌then◌else◌, inl, inr, ltb, true, ◌==◌, ◌||◌, ◌≤◌, List, [], arith,
  length, not_ltb→le, refl, ◌∷◌, ◌≡◌, ℕ, ◌+◌, ◌%◌, ◌^◌,
}
use smb_browser.Client.{Client, returned}
use smb_browser.Client.Exchangers.Sends.{Any}
use smb_browser.Client.Traces.{
  asks, takes_again, Obeys, Part, ends, many, once, takes_later, takes_once,
}
use smb_browser.Protocol.Ioctl.{CopyChunkResponse, decode_srv_copy_chunk_response}
use smb_browser.Session.{Reply, Session, advance}
use smb_browser.Session.Copy.{abandon, chunk_copied, complete, copy_chunk, send_chunk, close_both}
use smb_browser.Session.Copy.Cleanup.{Obeys-ioctl, Closed, ClosedReply, Obeys-cleanup}
use smb_browser.Session.Objects.{NativeObjectMutationResult}
use smb_browser.Wire.{
  Built, ProtocolError, built, invalid, DecodeResult, FileId, failure, fault, success,
}
use smb_browser.Wire.Reads.{Ensures, Ensures-reject_if, Ensures-step, read_u32_le_in}
use smb_browser.Protocol.Command

-- What may still be sent when both files are open.
abbrev pub open_plan : List Part
open_plan = many Command.ioctl ∷ once Command.close ∷ once Command.close ∷ []

-- The next id of a session, in 64 bits.
abbrev pub Stands : Session → ℕ → Type 0
Stands s n = s.next_message_id % 2 ^ 64 ≡ n % 2 ^ 64

pub advance-Stands : (s : Session) (n : ℕ) → Stands s n → Stands (advance s 1) (n + 1)
unfolding advance
advance-Stands s n same = omega arith

-- Either branch of a test.
pub chosen :
    {A : Type 0} {t i n : ℕ} {plan : List Part} {Q : ℕ → List Part → A → Type 0} (b : Bool)
    {left right : Client A}
    → Obeys t i Q n plan left
    → Obeys t i Q n plan right
    → Obeys t i Q n plan (if b then left else right)
chosen true d e = d
chosen false d e = e

decode_srv_copy_chunk_response-Ensures :
    (bytes : List ℕ) → Ensures Any (decode_srv_copy_chunk_response bytes)
unfolding decode_srv_copy_chunk_response
decode_srv_copy_chunk_response-Ensures bytes = Ensures-reject_if Any _ _ _ _ λ long.
    let size = not_ltb→le (length bytes) 12 long in
    Ensures-step Any _ (read_u32_le_in bytes 0 (omega arith)) (
      Ensures-step Any _ (read_u32_le_in bytes 4 (omega arith))
        (Ensures-step Any _ (read_u32_le_in bytes 8 (omega arith)) tt))

module _ (source target : FileId) (path : List ℕ) (size : ℕ) where
  over-Closed :
      (n : ℕ) (s : Session) (r : DecodeResult NativeObjectMutationResult)
      → Ensures Any r
      → s.next_message_id ≡ n % 2 ^ 64
      → Closed n [] s (returned r)
  over-Closed n s (success a) h e = (refl, e)
  over-Closed n s (failure a) h e = (refl, e)
  over-Closed n s fault h e = h

  close_both-Closed :
      (s : Session) (n : ℕ) (r : DecodeResult NativeObjectMutationResult)
      → Stands s n
      → Ensures Any r
      → Obeys s.tree_id s.session_id ClosedReply n open_plan
          (close_both source target path size s r)
  unfolding close_both advance
  close_both-Closed s n r same h = Obeys-cleanup s n same target _ (takes_later takes_once) (
      Obeys-cleanup (advance s 1) (n + 1) (advance-Stands s n same) source _ takes_once
        (ends (over-Closed (n + 1 + 1) (advance (advance s 1) 1) r h (omega arith))))

  pub abandon-Closed :
      (s : Session) (n : ℕ) (e : ProtocolError)
      → Stands s n
      → Obeys s.tree_id s.session_id ClosedReply n open_plan (abandon source target path size s e)
  unfolding abandon
  abandon-Closed s n e same = close_both-Closed s n _ same tt

  pub complete-Closed :
      (s : Session) (n : ℕ)
      → Stands s n
      → Obeys s.tree_id s.session_id ClosedReply n open_plan (complete source target path size s)
  unfolding complete
  complete-Closed s n same = close_both-Closed s n _ same tt

  module _ (offset : ℕ) (resume_key : List ℕ)
      (onward : ℕ → Session → Client (Reply NativeObjectMutationResult))
      (goes_on : (total : ℕ) (s : Session) (n : ℕ)
        → 1 ≤ total
        → Stands s n
        → Obeys s.tree_id s.session_id ClosedReply n open_plan (onward total s)) where
    chunk_copied-Closed :
        (wanted : ℕ) (s : Session) (n : ℕ) (r : DecodeResult CopyChunkResponse)
        → Stands s n
        → Ensures Any r
        → Obeys s.tree_id s.session_id ClosedReply n open_plan
            (chunk_copied source target path size wanted s r onward)
    unfolding chunk_copied
    chunk_copied-Closed wanted s n (failure e) same h = abandon-Closed s n e same
    chunk_copied-Closed wanted s n fault same h = absurd h
    chunk_copied-Closed wanted s n (success parsed) same h =
        elim (Bool-cases
          (parsed.total_bytes_written == 0 || ltb wanted parsed.total_bytes_written)) [
            | inl e ↦ rw e (abandon-Closed s n _ same)
            | inr e ↦ rw e (goes_on parsed.total_bytes_written s n (ground arith) same)
          ]

    send_chunk-Closed :
        (s : Session) (n : ℕ) (request : Built)
        → Stands s n
        → Obeys s.tree_id s.session_id ClosedReply n open_plan
            (send_chunk source target path size request offset s onward)
    unfolding send_chunk advance
    send_chunk-Closed s n (invalid m) same = ends tt
    send_chunk-Closed s n (built input) same =
        Obeys-ioctl s n same _ _ _ takes_again
          (λ e. abandon-Closed (advance s 1) (n + 1) e (advance-Stands s n same))
          λ copied.
            chunk_copied-Closed _ (advance s 1) (n + 1) _ (advance-Stands s n same)
              (decode_srv_copy_chunk_response-Ensures copied.output)

    pub copy_chunk-Closed :
        (s : Session) (n : ℕ)
        → Stands s n
        → Obeys s.tree_id s.session_id ClosedReply n open_plan
            (copy_chunk source target path size resume_key offset s onward)
    unfolding copy_chunk
    copy_chunk-Closed s n same =
        asks λ b. chosen b (abandon-Closed s n _ same) (send_chunk-Closed s n _ same)
