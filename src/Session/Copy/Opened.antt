-- ===== src/Session/Copy/Opened.antt =====
-- copyFileServerSide of src/native_smb/NativeSmbSession.cpp behind its two CREATE requests.
use smb_browser.Base.{
  List, [], arith, length, le→not_ltb, ltb, suc, zero, ◌==◌, ◌∷◌, ◌≡◌, ◌≤◌, ℕ, ◌+◌, ◌%◌, ◌^◌,
}
use smb_browser.Client.Traces.{Obeys, many, once, reports, takes_again}
use smb_browser.Protocol.Ioctl.{IoctlResponse}
use smb_browser.Session.{Session, advance}
use smb_browser.Session.Copy.{copy_loop, copy_opened, with_resume_key}
use smb_browser.Session.Copy.Cleanup.{ClosedReply, Obeys-ioctl}
use smb_browser.Session.Copy.Closes.{
  Stands, abandon-Closed, advance-Stands, chosen, complete-Closed, copy_chunk-Closed, open_plan,
}
use smb_browser.Wire.{FileId}
use smb_browser.Protocol.Command

module _ (source target : FileId) (path : List ℕ) (size : ℕ) where
  copy_loop-Closed :
      (rounds : ℕ) (resume_key : List ℕ) (offset : ℕ) (s : Session) (n : ℕ)
      → size ≤ offset + rounds
      → Stands s n
      → Obeys s.tree_id s.session_id ClosedReply n open_plan
          (copy_loop source target path size rounds resume_key offset s)
  unfolding copy_loop
  copy_loop-Closed zero resume_key offset s n enough same =
      rw (le→not_ltb offset size (omega arith)) (complete-Closed source target path size s n same)
  copy_loop-Closed (suc rounds) resume_key offset s n enough same =
      chosen (ltb offset size)
        (copy_chunk-Closed source target path size offset resume_key _
          (λ total s1 n1 some_bytes same1.
            reports (copy_loop-Closed rounds resume_key (offset + total) s1 n1 (omega arith) same1))
          s n same)
        (complete-Closed source target path size s n same)

  with_resume_key-Closed :
      (s : Session) (n : ℕ) (resume : IoctlResponse)
      → Stands s n
      → Obeys s.tree_id s.session_id ClosedReply n open_plan
          (with_resume_key source target path size s resume)
  unfolding with_resume_key
  with_resume_key-Closed s n resume same =
      chosen (ltb (length resume.output) 24) (abandon-Closed source target path size s n _ same)
        (copy_loop-Closed size resume.output 0 s n (omega arith) same)

  -- For every answer of the transport and every moment of a cancellation, copyFileServerSide
  -- ends once both files are open: its loop never needs more rounds than the file has bytes. It
  -- sends only IOCTL requests and then two CLOSE requests, each with the next message id, the
  -- tree and the session. Whenever it returns, with success or with an error, it has sent both
  -- CLOSE requests, and the next message id is the one behind the last. It reads no byte
  -- outside a buffer. An exception of a builder may end it earlier.
  pub copy_opened-Closed :
      (s : Session) (n : ℕ)
      → s.next_message_id % 2 ^ 64 ≡ n % 2 ^ 64
      → Obeys s.tree_id s.session_id ClosedReply n
          (many Command.ioctl ∷ once Command.close ∷ once Command.close ∷ [])
          (copy_opened source target path size s)
  unfolding copy_opened advance
  copy_opened-Closed s n same =
      chosen (size == 0) (complete-Closed source target path size s n same) (
        Obeys-ioctl s n same _ _ _ takes_again
          (λ e.
            abandon-Closed source target path size (advance s 1) (n + 1) e
              (advance-Stands s n same))
          λ resume. with_resume_key-Closed (advance s 1) (n + 1) resume (advance-Stands s n same))
