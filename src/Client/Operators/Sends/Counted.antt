-- ===== src/Client/Operators/Sends/Counted.antt =====
-- The requests of src/native_smb/RemoteStatReader.cpp and RemoteMetadataOperator.cpp, whose errors
-- count the messages that were sent.
use smb_browser.Base.{
  String, arith, inl, inr, length, not_ltb→le, refl, ◌≡◌, ◌≤◌, ◌⊎◌, List, ℕ, [], ◌+◌, ◌∷◌,
}
use smb_browser.Client.{Client, Ending, call, decoded, unless_cancelled}
use smb_browser.Client.Exchangers.Sends.{
  Any, close-Obeys, create-Decodes, created_payload-Obeys, query_info-Obeys,
}
use smb_browser.Client.Operators.Stat.{RemoteStatResult, stat, stat_result, stat_standard}
use smb_browser.Client.Safety.Rules.{Ends, Got, Obeys-call, Obeys-decoded, Obeys-unless_cancelled}
use smb_browser.Client.Traces.{Obeys, Part, ends, once, takes_once}
use smb_browser.Protocol.File.{CreateResponse}
use smb_browser.Protocol.Info.{
  FileBasicInformation, decode_file_basic_information, decode_file_standard_information,
}
use smb_browser.Wire.{DecodeResult, ProtocolError, cancelled}
use smb_browser.Wire.Reads.{
  Ensures, Ensures-reject_if, Ensures-step, byte_at_in, read_u32_le_in, read_u64_le_in,
}
use smb_browser.Protocol.Command

-- The error counts the messages that were sent, unless it is a cancellation.
abbrev pub CountedFailure : ℕ → ℕ → ℕ → ProtocolError → Type 0
CountedFailure start count n e =
    (n ≤ start + count) × ((e.code ≡ cancelled) ⊎ (n ≡ start + e.messages_used))

module _ (t s m count : ℕ) {A : Type 0} (Good : ℕ → List Part → A → Type 0) where
  abbrev pub CountedEnd : ℕ → List Part → Ending A → Type 0
  CountedEnd = Ends Good (CountedFailure m count) λ n. ⊥

  pub Obeys-counted_stop :
      (message : String) (n : ℕ) (plan : List Part) (k : Client (Ending A))
      → n ≤ m + count
      → Obeys t s CountedEnd n plan k
      → Obeys t s CountedEnd n plan (unless_cancelled message k)
  Obeys-counted_stop message n plan k h d =
      Obeys-unless_cancelled t s _ _ _ message n plan k (h, inl refl) d

  pub Obeys-counted_decoded :
      {B : Type 0} (used : ℕ) (plan : List Part) (r : DecodeResult B) (k : B → Client (Ending A))
      → used ≤ count
      → Ensures Any r
      → ((b : B) → Obeys t s CountedEnd (m + used) plan (k b))
      → Obeys t s CountedEnd (m + used) plan (decoded used r k)
  Obeys-counted_decoded used plan r k h inside d =
      Obeys-decoded t s _ _ _ Any used (m + used) plan r k inside (λ e. (omega arith, inr refl))
        λ b p. d b

  pub Obeys-counted_call :
      {B : Type 0} (P : B → Type 0) (used n : ℕ) (before after : List Part) (c : Client (Ending B))
      (k : B → Client (Ending A))
      → m + used ≡ n + 1
      → used ≤ count
      → Obeys t s (Got P n after) n before c
      → ((b : B) → P b → Obeys t s CountedEnd (m + used) after (k b))
      → Obeys t s CountedEnd n before (call used c k)
  Obeys-counted_call P used n before after c k i h d each =
      Obeys-call t s _ _ _ P used n (m + used) before after c k i d (λ e. (omega arith, inr refl))
        (λ e stopped. (omega arith, inl stopped)) each

decode_file_basic_information-Ensures :
    (bytes : List ℕ) → Ensures Any (decode_file_basic_information bytes)
unfolding decode_file_basic_information
decode_file_basic_information-Ensures bytes = Ensures-reject_if Any _ _ _ _ λ long.
    let size = not_ltb→le (length bytes) 40 long in
    Ensures-step Any _ (read_u64_le_in bytes 0 (omega arith)) (
      Ensures-step Any _ (read_u64_le_in bytes 8 (omega arith)) (
        Ensures-step Any _ (read_u64_le_in bytes 16 (omega arith)) (
          Ensures-step Any _ (read_u64_le_in bytes 24 (omega arith))
            (Ensures-step Any _ (read_u32_le_in bytes 32 (omega arith)) tt))))

decode_file_standard_information-Ensures :
    (bytes : List ℕ) → Ensures Any (decode_file_standard_information bytes)
unfolding decode_file_standard_information
decode_file_standard_information-Ensures bytes = Ensures-reject_if Any _ _ _ _ λ long.
    let size = not_ltb→le (length bytes) 24 long in
    Ensures-step Any _ (read_u64_le_in bytes 0 (omega arith)) (
      Ensures-step Any _ (read_u64_le_in bytes 8 (omega arith)) (
        Ensures-step Any _ (read_u32_le_in bytes 16 (omega arith)) (
          Ensures-step Any _ (byte_at_in bytes 20 (omega arith))
            (Ensures-step Any _ (byte_at_in bytes 21 (omega arith)) tt))))

-- Every message was sent and counted.
abbrev pub StatSent : ℕ → ℕ → List Part → RemoteStatResult → Type 0
StatSent m n plan r = (n ≡ m + r.messages_used) × (plan ≡ [])

module _ (t s m : ℕ) where
  -- The second half of `stat`, behind the decoded FILE_BASIC_INFORMATION.
  standard-Obeys :
      (created : CreateResponse) (basic : FileBasicInformation)
      → Obeys t s
          (Ends (StatSent m) (CountedFailure m 4) λ n. ⊥)
          (m + 2)
          (once Command.query_info ∷ once Command.close ∷ [])
          (stat_standard created basic m t s)
  unfolding stat_standard stat_result
  standard-Obeys created basic =
      Obeys-counted_call t s m 4 _ Any 3 (m + 2) _ _ _ _ (omega arith) (omega arith)
        (query_info-Obeys t s (m + 2) _ takes_once)
        λ standard_response found. Obeys-counted_stop t s m 4 _ _ (m + 3) _ _ (omega arith) (
          Obeys-counted_decoded t s m 4 _ 3 _ _ _ (omega arith)
            (decode_file_standard_information-Ensures standard_response.buffer)
            λ standard.
              Obeys-counted_call t s m 4 _ Any 4 (m + 3) _ _ _ _ (omega arith) (omega arith)
                (close-Obeys t s (m + 3) _ takes_once) λ closed shut. ends (refl, refl))

  pub stat-Obeys :
      (path : List ℕ)
      → Obeys t s
          (Ends (StatSent m) (CountedFailure m 4) λ n. ⊥)
          m
          (once Command.create
            ∷ once Command.query_info
            ∷ once Command.query_info
            ∷ once Command.close
            ∷ [])
          (stat path m t s)
  unfolding stat
  stat-Obeys path = Obeys-counted_stop t s m 4 _ _ m _ _ (omega arith) (
      Obeys-counted_call t s m 4 _ _ 1 m _ _ _ _ refl (omega arith)
        (created_payload-Obeys t s m _ takes_once)
        λ payload small. Obeys-counted_stop t s m 4 _ _ (m + 1) _ _ (omega arith) (
          Obeys-counted_decoded t s m 4 _ 1 _ _ _ (omega arith) (create-Decodes payload small)
            λ created.
              Obeys-counted_call t s m 4 _ Any 2 (m + 1) _ _ _ _ (omega arith) (omega arith)
                (query_info-Obeys t s (m + 1) _ takes_once)
                λ basic_response found. Obeys-counted_stop t s m 4 _ _ (m + 2) _ _ (omega arith) (
                  Obeys-counted_decoded t s m 4 _ 2 _ _ _ (omega arith)
                    (decode_file_basic_information-Ensures basic_response.buffer)
                    λ basic. standard-Obeys created basic)))
