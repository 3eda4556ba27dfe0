-- ===== src/Client/Exchangers/Sends.antt =====
-- The exchangers of src/native_smb under the rules of Client/Safety.
use smb_browser.Base.{arith, inr, refl, length, ◌<◌, ◌^◌, List, ℕ}
use smb_browser.Client.{exchange_decoded, exchange_payload}
use smb_browser.Client.Exchangers.{
  session_setup, setup_of, close, query_info, read, set_info, wait, write,
}
use smb_browser.Client.Safety.Exchanges.{
  answered-Obeys, Decodes, Decodes-Ensures, exchange_decoded-Obeys, exchange_payload-Obeys,
  exchanger-Obeys,
}
use smb_browser.Client.Safety.Requests.{
  IsMessage, build_session_setup_request-IsMessage, build_change_notify_request-IsMessage,
  build_close_request-IsMessage, build_create_request-IsMessage, build_query_info_request-IsMessage,
  build_read_request-IsMessage, build_set_info_request-IsMessage, build_write_request-IsMessage,
}
use smb_browser.Client.Safety.Rules.{Obeys-exchange, Obeys-unless_cancelled, Obeys-with_bytes, Got}
use smb_browser.Client.Traces.{Takes, Obeys, Part}
use smb_browser.Protocol.File.{
  CloseRequestOptions, CreateRequestOptions, build_create_request, decode_create_response,
}
use smb_browser.Protocol.File.Safety.{decode_close_response-Ensures, decode_create_response-Ensures}
use smb_browser.Protocol.Header.{request}
use smb_browser.Protocol.Header.Responses.{Ensures-success}
use smb_browser.Protocol.Info.{
  decode_set_info_response, set_info_kind, QueryInfoRequestOptions, SetInfoRequestOptions,
}
use smb_browser.Protocol.Info.Safety.{decode_query_info_response-Ensures}
use smb_browser.Protocol.Notify.{ChangeNotifyRequestOptions}
use smb_browser.Protocol.Notify.Safety.{decode_change_notify_response-Ensures}
use smb_browser.Protocol.Session.{SessionSetupRequestOptions}
use smb_browser.Protocol.Session.Safety.{decode_session_setup_response-Ensures}
use smb_browser.Protocol.Transfer.{ReadRequestOptions, WriteRequestOptions}
use smb_browser.Protocol.Transfer.Safety.{
  decode_read_response-Ensures, decode_write_response-Ensures,
}
use smb_browser.Wire.{built}
use smb_browser.Wire.Reads.{Ensures, Ensures-bind}
use smb_browser.Protocol.Command

abbrev pub Any : {A : Type 0} → A → Type 0
Any a = Unit {0}

pub create-Decodes : Decodes decode_create_response
create-Decodes = Decodes-Ensures _ _ λ bytes small. decode_create_response-Ensures bytes

decode_set_info_response-Ensures : (bytes : List ℕ) → Ensures Any (decode_set_info_response bytes)
unfolding decode_set_info_response
decode_set_info_response-Ensures bytes =
    Ensures-success Any set_info_kind bytes _ (omega arith) λ found. tt

setup_of-Decodes : (request : List ℕ) → Decodes (setup_of request)
unfolding setup_of
setup_of-Decodes request bytes small =
    Ensures-bind _ Any _ _ (decode_session_setup_response-Ensures bytes) λ response found. tt

module _ (t s n : ℕ) {before plan : List Part} where
  pub read-Obeys :
      (options : ReadRequestOptions)
      → Takes Command.read before plan
      → Obeys t s (Got Any n plan) n before (read options n t s)
  unfolding read
  read-Obeys options takes =
      exchanger-Obeys t s n Command.read takes _ _
        (Decodes-Ensures _ _ λ bytes small. decode_read_response-Ensures bytes) _
        (build_read_request-IsMessage n t s options)

  pub write-Obeys :
      (options : WriteRequestOptions)
      → Takes Command.write before plan
      → Obeys t s (Got Any n plan) n before (write options n t s)
  unfolding write
  write-Obeys options takes =
      exchanger-Obeys t s n Command.write takes _ _
        (Decodes-Ensures _ _ λ bytes small. decode_write_response-Ensures bytes) _
        (build_write_request-IsMessage n t s options)

  pub close-Obeys :
      (options : CloseRequestOptions)
      → Takes Command.close before plan
      → Obeys t s (Got Any n plan) n before (close options n t s)
  unfolding close
  close-Obeys options takes =
      exchanger-Obeys t s n Command.close takes _ _
        (Decodes-Ensures _ _ λ bytes small. decode_close_response-Ensures bytes) _
        (build_close_request-IsMessage n t s options)

  pub query_info-Obeys :
      (options : QueryInfoRequestOptions)
      → Takes Command.query_info before plan
      → Obeys t s (Got Any n plan) n before (query_info options n t s)
  unfolding query_info
  query_info-Obeys options takes =
      exchanger-Obeys t s n Command.query_info takes _ _
        (Decodes-Ensures _ _ λ bytes small. decode_query_info_response-Ensures bytes) _
        (build_query_info_request-IsMessage n t s options)

  pub set_info-Obeys :
      (options : SetInfoRequestOptions)
      → Takes Command.set_info before plan
      → Obeys t s (Got Any n plan) n before (set_info options n t s)
  unfolding set_info
  set_info-Obeys options takes =
      exchanger-Obeys t s n Command.set_info takes _ _
        (Decodes-Ensures _ _ λ bytes small. decode_set_info_response-Ensures bytes) _
        (build_set_info_request-IsMessage n t s options)

  pub wait-Obeys :
      (options : ChangeNotifyRequestOptions)
      → Takes Command.change_notify before plan
      → Obeys t s (Got Any n plan) n before (wait options n t s)
  unfolding wait
  wait-Obeys options takes =
      exchanger-Obeys t s n Command.change_notify takes _ _
        (Decodes-Ensures _ _ decode_change_notify_response-Ensures) _
        (build_change_notify_request-IsMessage n t s options)

  -- The CREATE that each operator begins with, in the two forms that they have.
  pub created_payload-Obeys :
      (options : CreateRequestOptions)
      → Takes Command.create before plan
      → Obeys t s
          (Got (λ payload. length payload < 2 ^ 32) n plan)
          n
          before
          (exchange_payload (build_create_request options n t s))
  created_payload-Obeys options takes =
      exchange_payload-Obeys t s n Command.create takes _
        (build_create_request-IsMessage n t s options)

  pub created-Obeys :
      (used : ℕ) (options : CreateRequestOptions)
      → Takes Command.create before plan
      → Obeys t s
          (Got Any n plan)
          n
          before
          (exchange_decoded used (build_create_request options n t s) decode_create_response)
  created-Obeys used options takes =
      exchange_decoded-Obeys t s n Command.create takes used _ _
        (build_create_request-IsMessage n t s options) create-Decodes

module _ (s n : ℕ) {before plan : List Part} where
  pub session_setup-Obeys :
      (options : SessionSetupRequestOptions)
      → Takes Command.session_setup before plan
      → Obeys 0 s (Got Any n plan) n before (session_setup options n s)
  unfolding session_setup
  session_setup-Obeys options takes =
      let P = IsMessage 0 s Command.session_setup n in
      Obeys-unless_cancelled 0 s _ _ _ _ n before _ (inr (refl, refl)) (
        Obeys-with_bytes 0 s _ _ _ P n before _ _
          (build_session_setup_request-IsMessage n s options)
          λ request holds.
            Obeys-exchange 0 s _ _ _ n Command.session_setup before plan (built request) _ takes
              holds
              λ answer ok.
                answered-Obeys 0 s n Command.session_setup takes _ (setup_of request)
                  (setup_of-Decodes request) answer ok)
