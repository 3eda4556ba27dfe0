-- ===== src/Client/Exchangers.antt =====
-- The exchangers of src/native_smb: one request and its response. ReadExchanger.cpp,
-- WriteExchanger.cpp, CloseExchanger.cpp, QueryInfoExchanger.cpp, SetInfoExchanger.cpp,
-- ChangeNotifyExchanger.cpp, SessionSetupExchanger.cpp and TreeConnector.cpp.
pub mod Sends
pub mod Connects
use smb_browser.Base.{Bool, List, ℕ}
use smb_browser.Client.{
  Ending, returned, Client, decoded, exchange, exchanger, finish, unless_cancelled, with_bytes,
}
use smb_browser.Protocol.File.{
  CloseRequestOptions, CloseResponse, build_close_request, decode_close_response,
}
use smb_browser.Protocol.Frame.{decode_direct_tcp_payload}
use smb_browser.Protocol.Header.{decode_smb2_sync_header, request}
use smb_browser.Protocol.Info.{
  QueryInfoRequestOptions, QueryInfoResponse, SetInfoRequestOptions, build_query_info_request,
  build_set_info_request, decode_query_info_response, decode_set_info_response,
}
use smb_browser.Protocol.Notify.{
  ChangeNotifyRequestOptions, ChangeNotifyResponse, build_change_notify_request,
  decode_change_notify_response,
}
use smb_browser.Protocol.Session.{
  SessionSetupRequestOptions, SessionSetupResponse, build_session_setup_request,
  decode_session_setup_response,
}
use smb_browser.Protocol.Transfer.{
  ReadRequestOptions, ReadResponse, WriteRequestOptions, WriteResponse, build_read_request,
  build_write_request, decode_read_response, decode_write_response,
}
use smb_browser.Protocol.Tree.{
  StatusResponse, TreeConnectRequestOptions, build_tree_connect_request,
  decode_tree_connect_response,
}
use smb_browser.Wire.{◌>>◌, DecodeResult, built, success, ◌>>=◌}

unfoldable pub read : ReadRequestOptions → ℕ → ℕ → ℕ → Client (Ending ReadResponse)
read options message_id tree_id session_id =
    exchanger "SMB read was cancelled." (build_read_request options message_id tree_id session_id)
      decode_read_response

unfoldable pub write : WriteRequestOptions → ℕ → ℕ → ℕ → Client (Ending WriteResponse)
write options message_id tree_id session_id =
    exchanger "SMB write was cancelled." (build_write_request options message_id tree_id session_id)
      decode_write_response

unfoldable pub close : CloseRequestOptions → ℕ → ℕ → ℕ → Client (Ending CloseResponse)
close options message_id tree_id session_id =
    exchanger "SMB close was cancelled." (build_close_request options message_id tree_id session_id)
      decode_close_response

unfoldable pub query_info : QueryInfoRequestOptions → ℕ → ℕ → ℕ → Client (Ending QueryInfoResponse)
query_info options message_id tree_id session_id =
    exchanger "SMB query info was cancelled."
      (build_query_info_request options message_id tree_id session_id) decode_query_info_response

unfoldable pub set_info : SetInfoRequestOptions → ℕ → ℕ → ℕ → Client (Ending StatusResponse)
set_info options message_id tree_id session_id =
    exchanger "SMB set info was cancelled."
      (build_set_info_request options message_id tree_id session_id) decode_set_info_response

-- ChangeNotifyExchanger::wait
unfoldable pub wait : ChangeNotifyRequestOptions → ℕ → ℕ → ℕ → Client (Ending ChangeNotifyResponse)
wait options message_id tree_id session_id =
    exchanger "SMB change notify was cancelled."
      (build_change_notify_request options message_id tree_id session_id)
      decode_change_notify_response

pub record SessionSetupResult : Type 0 where
  pub response : SessionSetupResponse
  pub request_payload : List ℕ
  pub response_payload : List ℕ

-- The decoded response, with the payload that it was decoded from.
unfoldable pub setup_of : List ℕ → List ℕ → DecodeResult SessionSetupResult
setup_of request payload = do
  response ← decode_session_setup_response payload
  success (record { response = response; request_payload = request; response_payload = payload })

-- SessionSetupExchanger::exchange
unfoldable pub session_setup :
    SessionSetupRequestOptions → ℕ → ℕ → Client (Ending SessionSetupResult)
session_setup options message_id session_id = unless_cancelled "SMB session setup was cancelled." (
    with_bytes (build_session_setup_request options message_id session_id) λ request.
      exchange (built request) λ answer. decoded 0 answer λ bytes.
        unless_cancelled "SMB session setup was cancelled." (
          decoded 0 (decode_direct_tcp_payload bytes)
            λ payload. decoded 0 (setup_of request payload) λ r. finish (returned (success r))))

pub record TreeConnectResult : Type 0 where
  pub tree_id : ℕ
  pub share_type : ℕ
  pub is_dfs : Bool
  pub is_dfs_root : Bool
  pub requires_encryption : Bool
  pub maximal_access : ℕ

unfoldable pub connected : List ℕ → DecodeResult TreeConnectResult
connected payload = do
  response ← decode_tree_connect_response payload
  header ← decode_smb2_sync_header payload
  success (record {
    tree_id = header.tree_id;
    share_type = response.share_type;
    is_dfs = response.is_dfs;
    is_dfs_root = response.is_dfs_root;
    requires_encryption = response.requires_encryption;
    maximal_access = response.maximal_access;
  })

-- TreeConnector::connect
unfoldable pub tree_connect : TreeConnectRequestOptions → ℕ → ℕ → Client (Ending TreeConnectResult)
tree_connect options message_id session_id =
    exchanger "SMB tree connect was cancelled."
      (build_tree_connect_request options message_id session_id) connected
