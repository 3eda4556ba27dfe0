-- ===== src/Dfs/Fetcher.antt =====
-- src/native_smb/RemoteDfsReferralFetcher.cpp, and getDfsReferrals of NativeSmbSession.cpp.
use smb_browser.Base.{arith, refl, ◌≡◌, List, ℕ, [], ◌+◌, ◌∷◌}
use smb_browser.Client.{
  Client, Ending, call, decoded, exchange_payload, finish, returned, unless_cancelled, with_bytes,
}
use smb_browser.Client.Operators.Sends.Counted.{
  CountedFailure, Obeys-counted_call, Obeys-counted_decoded, Obeys-counted_stop,
}
use smb_browser.Client.Safety.Exchanges.{exchange_payload-Obeys}
use smb_browser.Client.Safety.Requests.{Builds-Any, build_ioctl_request-IsMessage}
use smb_browser.Client.Safety.Rules.{Ends, Obeys-with_bytes}
use smb_browser.Client.Traces.{Obeys, ends, once, takes_once}
use smb_browser.Dfs.{
  DfsReferralResponse, build_dfs_get_referral_request, decode_dfs_referral_response,
}
use smb_browser.Dfs.Safety.{decode_dfs_referral_response-Ensures}
use smb_browser.Protocol.Ioctl.{IoctlRequestOptions, build_ioctl_request, decode_ioctl_response}
use smb_browser.Protocol.Ioctl.Safety.{decode_ioctl_response-Ensures}
use smb_browser.Session.{Reply, Session, counted_by}
use smb_browser.Session.Fresh.{Leaves, Next, counted_by-Leaves}
use smb_browser.Session.Fresh.Counted.{UnlessCancelled, counted_failure}
use smb_browser.Wire.{success}
use smb_browser.Wire.Reads.{Ensures-weaken}
use smb_browser.Protocol.Command

pub record NativeDfsReferralResult : Type 0 where
  pub response : DfsReferralResponse
  pub messages_used : ℕ

-- The file id is that of no file.
unfoldable pub referral_options : List ℕ → IoctlRequestOptions
referral_options input = record {
  ctl_code = 0x00060194;
  file_id = record { persistent = 0xffffffffffffffff; volatile_id = 0xffffffffffffffff };
  input = input;
  max_input_response = 0;
  max_output_response = 65536;
  flags = 1;
}

-- RemoteDfsReferralFetcher::getReferrals: the referral level is the default, 3.
unfoldable pub get_referrals : List ℕ → ℕ → ℕ → ℕ → Client (Ending NativeDfsReferralResult)
get_referrals request_path message_id tree_id session_id =
    unless_cancelled "SMB DFS referral request was cancelled." (
      with_bytes (build_dfs_get_referral_request request_path 3) λ input.
        call 1
          (exchange_payload
            (build_ioctl_request (referral_options input) message_id tree_id session_id))
          λ payload. decoded 1 (decode_ioctl_response payload) λ ioctl.
            decoded 1 (decode_dfs_referral_response ioctl.output) λ referrals.
              finish (returned (success (record { response = referrals; messages_used = 1 }))))

-- NativeSmbSession::getDfsReferrals
unfoldable pub get_dfs_referrals : Session → List ℕ → Client (Reply NativeDfsReferralResult)
get_dfs_referrals s request_path =
    counted_by s (λ r. r.messages_used) (λ e. e.messages_used) (λ r. r)
      (get_referrals request_path s.next_message_id s.tree_id s.session_id)

module _ (t i m : ℕ) where
  get_referrals-Obeys :
      (request_path : List ℕ)
      → Obeys t i
          (Ends (λ n plan r. (n ≡ m + r.messages_used) × (plan ≡ [])) (CountedFailure m 1) λ n. ⊥)
          m
          (once Command.ioctl ∷ [])
          (get_referrals request_path m t i)
  unfolding get_referrals
  get_referrals-Obeys request_path = Obeys-counted_stop t i m 1 _ _ m _ _ (omega arith) (
      Obeys-with_bytes t i _ _ _ _ m _ _ _ (Builds-Any _) λ input any.
        Obeys-counted_call t i m 1 _ _ 1 m _ _ _ _ refl (omega arith)
          (exchange_payload-Obeys t i m Command.ioctl takes_once _
            (build_ioctl_request-IsMessage m t i _))
          λ payload small.
            Obeys-counted_decoded t i m 1 _ 1 _ _ _ (omega arith)
              (Ensures-weaken _ (decode_ioctl_response-Ensures payload) λ a p. tt)
              λ ioctl.
                Obeys-counted_decoded t i m 1 _ 1 _ _ _ (omega arith)
                  (Ensures-weaken _ (decode_dfs_referral_response-Ensures ioctl.output) λ a p. tt)
                  λ referrals. ends (refl, refl))

module _ (s : Session) where
  -- For every answer that the transport gives and every moment of a cancellation,
  -- getDfsReferrals sends one IOCTL request with the next message id, the tree and the session,
  -- or none, and reads no byte outside a buffer. When it succeeds it has sent the request. The
  -- next message id is the one behind the last that was sent, after a success and after every
  -- error but a cancellation. When a builder throws, the operation ends there, and of the next
  -- id nothing is said.
  pub get_dfs_referrals-Leaves :
      (request_path : List ℕ)
      → Obeys s.tree_id s.session_id
          (Leaves Next (UnlessCancelled s))
          s.next_message_id
          (once Command.ioctl ∷ [])
          (get_dfs_referrals s request_path)
  unfolding get_dfs_referrals
  get_dfs_referrals-Leaves request_path =
      counted_by-Leaves s _ _ (CountedFailure s.next_message_id 1) (λ n. ⊥) (UnlessCancelled s)
        (λ r. r.messages_used) (λ e. e.messages_used) _ _
        (get_referrals-Obeys s.tree_id s.session_id s.next_message_id request_path)
        (λ n rest a good. good) (counted_failure s 1)
