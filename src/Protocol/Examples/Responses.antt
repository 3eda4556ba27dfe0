-- ===== src/Protocol/Examples/Responses.antt =====
-- The response decoders on concrete messages.
use smb_browser.Base.{List, [], arith, inl, inr, refl, replicate, ℕ, ◌++◌, ◌∷◌, ◌≡◌}
use smb_browser.Protocol.Examples.{reply, reply-HasFixedPart, reply-IsResponse, reply-IsSuccess}
use smb_browser.Protocol.File.{close_kind, create_kind}
use smb_browser.Protocol.Header.{
  Smb2SyncHeader, decode_smb2_sync_header, encode_smb2_sync_header, response_header,
}
use smb_browser.Protocol.Header.Accepts.{response_header_reflected}
use smb_browser.Protocol.Header.RoundTrip.{IsHeader, decode_smb2_sync_header-encode}
use smb_browser.Protocol.Info.{query_info_kind}
use smb_browser.Protocol.Info.Safety.{IsQueryInfo}
use smb_browser.Protocol.Ioctl.{decode_ioctl_response, ioctl_kind}
use smb_browser.Protocol.Ioctl.Safety.{
  IsIoctl, decode_ioctl_response-Ensures, decode_ioctl_response_in, ioctl_response_of,
}
use smb_browser.Protocol.Session.{
  decode_negotiate_response, decode_session_setup_response, default_initial_dialects, has_dialect,
  negotiate_kind, session_setup_kind,
}
use smb_browser.Protocol.Session.Accepts.{decode_negotiate_response_in}
use smb_browser.Protocol.Session.Safety.{
  IsNegotiate, IsSessionSetup, decode_negotiate_response-Ensures,
  decode_session_setup_response-Ensures, negotiate_response_of, session_setup_response_of,
}
use smb_browser.Protocol.Status.{status_more_processing_required}
use smb_browser.Protocol.Transfer.{decode_read_response, read_kind, write_kind}
use smb_browser.Protocol.Transfer.Safety.{
  IsRead, decode_read_response-Ensures, decode_read_response_in, read_response_of,
}
use smb_browser.Protocol.Tree.{tree_connect_kind}
use smb_browser.Wire.{failed, protocol_unsupported, success}
use smb_browser.Wire.Reads.{Ensures}

abbrev tree_connect_body : List ℕ
tree_connect_body = 16 ∷ 0 ∷ 1 ∷ 0 ∷ 1 ∷ 0 ∷ 0 ∷ 0 ∷ 0 ∷ 0 ∷ 0 ∷ 0 ∷ 255 ∷ 1 ∷ 31 ∷ 0 ∷ []

abbrev tree_connect_bytes : List ℕ
tree_connect_bytes = reply tree_connect_kind.command 0 tree_connect_body

abbrev create_body : List ℕ
create_body =
    89 ∷ 0 ∷ 0 ∷ 0 ∷ 1 ∷ 0 ∷ 0 ∷ 0 ∷ 7 ∷ 7 ∷ 7 ∷ 7 ∷ 7 ∷ 7 ∷ 7 ∷ 7 ∷ 7 ∷ 7 ∷ 7 ∷ 7 ∷ 7 ∷ 7 ∷ 7 ∷ 7
    ∷ 7 ∷ 7 ∷ 7 ∷ 7 ∷ 7 ∷ 7 ∷ 7 ∷ 7 ∷ 7 ∷ 7 ∷ 7 ∷ 7 ∷ 7 ∷ 7 ∷ 7 ∷ 7 ∷ 7 ∷ 7 ∷ 7 ∷ 7 ∷ 7 ∷ 7 ∷ 7 ∷ 7
    ∷ 7 ∷ 7 ∷ 7 ∷ 7 ∷ 7 ∷ 7 ∷ 7 ∷ 7 ∷ 7 ∷ 7 ∷ 7 ∷ 7 ∷ 7 ∷ 7 ∷ 7 ∷ 7 ∷ 7 ∷ 7 ∷ 7 ∷ 7 ∷ 7 ∷ 7 ∷ 7 ∷ 7
    ∷ 7 ∷ 7 ∷ 7 ∷ 7 ∷ 7 ∷ 7 ∷ 7 ∷ 7 ∷ 0 ∷ 0 ∷ 0 ∷ 0 ∷ 0 ∷ 0 ∷ 0 ∷ 0 ∷ []

abbrev create_bytes : List ℕ
create_bytes = reply create_kind.command 0 create_body

abbrev close_body : List ℕ
close_body =
    60 ∷ 0 ∷ 1 ∷ 0 ∷ 0 ∷ 0 ∷ 0 ∷ 0 ∷ 9 ∷ 9 ∷ 9 ∷ 9 ∷ 9 ∷ 9 ∷ 9 ∷ 9 ∷ 9 ∷ 9 ∷ 9 ∷ 9 ∷ 9 ∷ 9 ∷ 9 ∷ 9
    ∷ 9 ∷ 9 ∷ 9 ∷ 9 ∷ 9 ∷ 9 ∷ 9 ∷ 9 ∷ 9 ∷ 9 ∷ 9 ∷ 9 ∷ 9 ∷ 9 ∷ 9 ∷ 9 ∷ 9 ∷ 9 ∷ 9 ∷ 9 ∷ 9 ∷ 9 ∷ 9 ∷ 9
    ∷ 9 ∷ 9 ∷ 9 ∷ 9 ∷ 9 ∷ 9 ∷ 9 ∷ 9 ∷ 9 ∷ 9 ∷ 9 ∷ 9 ∷ []

abbrev close_bytes : List ℕ
close_bytes = reply close_kind.command 0 close_body

abbrev write_body : List ℕ
write_body = 17 ∷ 0 ∷ 0 ∷ 0 ∷ 5 ∷ 0 ∷ 0 ∷ 0 ∷ 0 ∷ 0 ∷ 0 ∷ 0 ∷ 0 ∷ 0 ∷ 0 ∷ 0 ∷ []

abbrev write_bytes : List ℕ
write_bytes = reply write_kind.command 0 write_body

abbrev read_body : List ℕ
read_body = 17 ∷ 0 ∷ 80 ∷ 0 ∷ 3 ∷ 0 ∷ 0 ∷ 0 ∷ 0 ∷ 0 ∷ 0 ∷ 0 ∷ 0 ∷ 0 ∷ 0 ∷ 0 ∷ 104 ∷ 105 ∷ 33 ∷ []

abbrev read_bytes : List ℕ
read_bytes = reply read_kind.command 0 read_body

decode_read_response-Ensures_example :
    Ensures
      (λ r. IsRead read_bytes × (r ≡ read_response_of read_bytes))
      (decode_read_response read_bytes)
decode_read_response-Ensures_example = decode_read_response-Ensures read_bytes

read_bytes-IsRead : IsRead read_bytes
read_bytes-IsRead = record {
  accepted = reply-IsSuccess read_kind read_body refl (omega arith);
  inside = inr (omega arith, omega arith);
}

decode_read_response_in_example :
    decode_read_response read_bytes ≡ success (read_response_of read_bytes)
decode_read_response_in_example = decode_read_response_in read_bytes read_bytes-IsRead

abbrev query_info_body : List ℕ
query_info_body = 9 ∷ 0 ∷ 72 ∷ 0 ∷ 4 ∷ 0 ∷ 0 ∷ 0 ∷ 1 ∷ 2 ∷ 3 ∷ 4 ∷ []

abbrev query_info_bytes : List ℕ
query_info_bytes = reply query_info_kind.command 0 query_info_body

query_info_bytes-IsQueryInfo : IsQueryInfo query_info_bytes
query_info_bytes-IsQueryInfo = record {
  accepted = reply-IsSuccess query_info_kind query_info_body refl (omega arith);
  inside = inr (omega arith, omega arith);
}

abbrev ioctl_body : List ℕ
ioctl_body =
    49 ∷ 0 ∷ 0 ∷ 0 ∷ 148 ∷ 1 ∷ 6 ∷ 0 ∷ 255 ∷ 255 ∷ 255 ∷ 255 ∷ 255 ∷ 255 ∷ 255 ∷ 255 ∷ 255 ∷ 255
    ∷ 255 ∷ 255 ∷ 255 ∷ 255 ∷ 255 ∷ 255 ∷ 112 ∷ 0 ∷ 0 ∷ 0 ∷ 0 ∷ 0 ∷ 0 ∷ 0 ∷ 112 ∷ 0 ∷ 0 ∷ 0 ∷ 2 ∷ 0
    ∷ 0 ∷ 0 ∷ 0 ∷ 0 ∷ 0 ∷ 0 ∷ 0 ∷ 0 ∷ 0 ∷ 0 ∷ 42 ∷ 43 ∷ []

abbrev ioctl_bytes : List ℕ
ioctl_bytes = reply ioctl_kind.command 0 ioctl_body

decode_ioctl_response-Ensures_example :
    Ensures
      (λ r. IsIoctl ioctl_bytes × (r ≡ ioctl_response_of ioctl_bytes))
      (decode_ioctl_response ioctl_bytes)
decode_ioctl_response-Ensures_example = decode_ioctl_response-Ensures ioctl_bytes

ioctl_bytes-IsIoctl : IsIoctl ioctl_bytes
ioctl_bytes-IsIoctl = record {
  accepted = reply-IsSuccess ioctl_kind ioctl_body refl (omega arith);
  input_inside = inl refl;
  output_inside = inr (omega arith, omega arith);
}

decode_ioctl_response_in_example :
    decode_ioctl_response ioctl_bytes ≡ success (ioctl_response_of ioctl_bytes)
decode_ioctl_response_in_example = decode_ioctl_response_in ioctl_bytes ioctl_bytes-IsIoctl

abbrev negotiate_body : List ℕ
negotiate_body =
    65 ∷ 0 ∷ 1 ∷ 0 ∷ 17 ∷ 3 ∷ 0 ∷ 0 ∷ 8 ∷ 8 ∷ 8 ∷ 8 ∷ 8 ∷ 8 ∷ 8 ∷ 8 ∷ 8 ∷ 8 ∷ 8 ∷ 8 ∷ 8 ∷ 8 ∷ 8 ∷ 8
    ∷ 0 ∷ 0 ∷ 0 ∷ 0 ∷ 0 ∷ 0 ∷ 16 ∷ 0 ∷ 0 ∷ 0 ∷ 16 ∷ 0 ∷ 0 ∷ 0 ∷ 16 ∷ 0 ∷ 0 ∷ 0 ∷ 0 ∷ 0 ∷ 0 ∷ 0 ∷ 0
    ∷ 0 ∷ 0 ∷ 0 ∷ 0 ∷ 0 ∷ 0 ∷ 0 ∷ 0 ∷ 0 ∷ 128 ∷ 0 ∷ 3 ∷ 0 ∷ 0 ∷ 0 ∷ 0 ∷ 0 ∷ 1 ∷ 2 ∷ 3 ∷ []

abbrev negotiate_bytes : List ℕ
negotiate_bytes = reply negotiate_kind.command 0 negotiate_body

decode_negotiate_response-Ensures_example :
    Ensures
      (λ r.
        IsNegotiate default_initial_dialects negotiate_bytes
        × (r ≡ negotiate_response_of negotiate_bytes))
      (decode_negotiate_response negotiate_bytes default_initial_dialects)
decode_negotiate_response-Ensures_example =
    decode_negotiate_response-Ensures negotiate_bytes default_initial_dialects

negotiate_bytes-IsNegotiate : IsNegotiate default_initial_dialects negotiate_bytes
unfolding has_dialect
negotiate_bytes-IsNegotiate = record {
  accepted = reply-IsSuccess negotiate_kind negotiate_body refl (omega arith);
  dialect_offered = refl;
  buffer_low = omega arith;
  buffer_high = omega arith;
}

decode_negotiate_response_in_example :
    decode_negotiate_response negotiate_bytes default_initial_dialects
    ≡ success (negotiate_response_of negotiate_bytes)
decode_negotiate_response_in_example =
    decode_negotiate_response_in negotiate_bytes default_initial_dialects
      negotiate_bytes-IsNegotiate

abbrev session_setup_body : List ℕ
session_setup_body = 9 ∷ 0 ∷ 0 ∷ 0 ∷ 72 ∷ 0 ∷ 2 ∷ 0 ∷ 96 ∷ 72 ∷ []

-- The server asks for another round.
abbrev session_setup_bytes : List ℕ
session_setup_bytes =
    reply session_setup_kind.command status_more_processing_required session_setup_body

decode_session_setup_response-Ensures_example :
    Ensures
      (λ r.
        IsSessionSetup session_setup_bytes × (r ≡ session_setup_response_of session_setup_bytes))
      (decode_session_setup_response session_setup_bytes)
decode_session_setup_response-Ensures_example =
    decode_session_setup_response-Ensures session_setup_bytes

session_setup_bytes-IsSessionSetup : IsSessionSetup session_setup_bytes
session_setup_bytes-IsSessionSetup = record {
  response = reply-IsResponse session_setup_kind status_more_processing_required session_setup_body;
  status = inr refl;
  fixed_part =
      reply-HasFixedPart session_setup_kind status_more_processing_required session_setup_body refl
        (omega arith);
  inside = inr (omega arith, omega arith);
}

-- A READ request, sent back.
abbrev sent : Smb2SyncHeader
sent = record {
  credit_charge = 1;
  status = 0;
  command = read_kind.command;
  credit_request = 1;
  flags = 0;
  next_command = 0;
  message_id = 7;
  tree_id = 3;
  session_id = 11;
  signature = replicate 16 0;
}

sent-IsHeader : IsHeader sent
sent-IsHeader = record {
  credit_charge = omega arith;
  status = omega arith;
  command = omega arith;
  credit_request = omega arith;
  flags = omega arith;
  next_command = omega arith;
  message_id = omega arith;
  tree_id = omega arith;
  session_id = omega arith;
  signature = refl;
}

response_header_reflected_example :
    response_header read_kind (encode_smb2_sync_header sent ++ (49 ∷ 0 ∷ []))
    ≡ failed protocol_unsupported "SMB2 READ response is missing server-to-redirector flag."
response_header_reflected_example =
    response_header_reflected read_kind sent (49 ∷ 0 ∷ []) sent-IsHeader refl refl

decode_smb2_sync_header-encode_example :
    decode_smb2_sync_header (encode_smb2_sync_header sent ++ (49 ∷ 0 ∷ [])) ≡ success sent
decode_smb2_sync_header-encode_example =
    decode_smb2_sync_header-encode sent (49 ∷ 0 ∷ []) sent-IsHeader
