-- ===== src/Protocol/Examples/Codecs.antt =====
-- The codecs on concrete values.
use smb_browser.Base.{
  List, [], arith, drop, inl, inr, refl, replicate, take, true, ℕ, ◌*◌, ◌++◌, ◌+◌, ◌<◌, ◌↔◌, ◌∷◌,
  ◌≡◌, ◌≢◌, ◌≤◌, ◌⊎◌,
}
use smb_browser.Protocol.Frame.{decode_direct_tcp_payload, encode_direct_tcp_frame}
use smb_browser.Protocol.Frame.RoundTrip.{
  decode_direct_tcp_payload-encode, decode_direct_tcp_payload_cut, framed,
}
use smb_browser.Protocol.Header.{request}
use smb_browser.Protocol.Info.{FileBasicInformation}
use smb_browser.Protocol.Session.{
  NegotiateRequestOptions, build_negotiate_request, has_dialect, required, smb302, smb311,
}
use smb_browser.Protocol.Session.Contexts.{build_negotiate_request_contexts, contexts_of}
use smb_browser.Protocol.Status.{error_code_for_nt_status, status_notify_enum_dir, status_success}
use smb_browser.Protocol.Status.Codes.{error_code_for_nt_status-no_error}
use smb_browser.Protocol.Transfer.{charged}
use smb_browser.Protocol.Transfer.Credits.{charged_lem, charged_wraps}
use smb_browser.Protocol.Utf16.{decode_utf16_le, encode_utf16_le, utf8_code_point}
use smb_browser.Protocol.Utf16.RoundTrip.{decode_utf16_le-encode_utf16_le, utf16, utf8}
use smb_browser.Protocol.Utf16.Surrogates.{encode_utf16_le_surrogate}
use smb_browser.Wire.{built, failed, io_error, no_error, success}
use smb_browser.Wire.Reads.{u32_of}
use smb_browser.Protocol.Command

-- A letter of each length of UTF-8: U+0041, U+00E9, U+20AC, U+1F600.
abbrev letters : List ℕ
letters = 0x41 ∷ 0xe9 ∷ 0x20ac ∷ 0x1f600 ∷ []

decode_utf16_le-encode_utf16_le_example :
    (encode_utf16_le (utf8 letters) ≡ built (utf16 letters))
    × (decode_utf16_le (utf16 letters) ≡ success (utf8 letters))
decode_utf16_le-encode_utf16_le_example = decode_utf16_le-encode_utf16_le letters (
  inl (omega arith),
  (inl (omega arith), (inl (omega arith), (inr (omega arith, omega arith), tt))),
)

encode_utf16_le_surrogate_example :
    (encode_utf16_le (utf8_code_point 0xd800) ≡ built (0 ∷ 0xd8 ∷ []))
    × ((t : List ℕ) → decode_utf16_le (0 ∷ 0xd8 ∷ []) ≢ success t)
encode_utf16_le_surrogate_example = encode_utf16_le_surrogate 0xd800 (omega arith) (omega arith)

decode_direct_tcp_payload-encode_example :
    (encode_direct_tcp_frame (9 ∷ 8 ∷ 7 ∷ []) ≡ built (framed (9 ∷ 8 ∷ 7 ∷ [])))
    × (decode_direct_tcp_payload (framed (9 ∷ 8 ∷ 7 ∷ []) ++ (6 ∷ [])) ≡ success (9 ∷ 8 ∷ 7 ∷ []))
decode_direct_tcp_payload-encode_example =
    decode_direct_tcp_payload-encode (9 ∷ 8 ∷ 7 ∷ []) (6 ∷ []) (omega arith)

decode_direct_tcp_payload_cut_example :
    decode_direct_tcp_payload (take 4 (framed (9 ∷ 8 ∷ 7 ∷ [])) ++ (9 ∷ 8 ∷ []))
    ≡ failed io_error "SMB2 Direct TCP frame is shorter than declared payload."
decode_direct_tcp_payload_cut_example =
    decode_direct_tcp_payload_cut (9 ∷ 8 ∷ []) 7 [] (omega arith)

abbrev basic : FileBasicInformation
basic = record {
  creation_time = 132223104000000000;
  last_access_time = 1;
  last_write_time = 2;
  change_time = 3;
  file_attributes = 0x20;
}

abbrev copied_chunks : List ℕ
copied_chunks = 2 ∷ 0 ∷ 0 ∷ 0 ∷ 1 ∷ 0 ∷ 0 ∷ 0 ∷ 0 ∷ 1 ∷ 0 ∷ 0 ∷ []

error_code_for_nt_status-no_error_example :
    (error_code_for_nt_status 0xc0000022 ≡ no_error)
    ↔ ((0xc0000022 ≡ status_success) ⊎ (0xc0000022 ≡ status_notify_enum_dir))
error_code_for_nt_status-no_error_example = error_code_for_nt_status-no_error 0xc0000022

-- A request of 100000 bytes takes two credits.
charged_lem_example :
    (100000 ≤ (charged (request Command.read 7 3 11) 100000).credit_charge * 65536)
    × ((charged (request Command.read 7 3 11) 100000).credit_charge * 65536 < 100000 + 65536)
    × ((charged (request Command.read 7 3 11) 100000).credit_request
        ≡ (charged (request Command.read 7 3 11) 100000).credit_charge)
charged_lem_example = charged_lem (request Command.read 7 3 11) 100000 (omega arith) (omega arith)

charged_wraps_example :
    ((charged (request Command.read 7 3 11) 0xffffffff).credit_charge ≡ 0)
    × ((charged (request Command.read 7 3 11) 0xffffffff).credit_request ≡ 1)
charged_wraps_example =
    charged_wraps (request Command.read 7 3 11) 0xffffffff (omega arith) (omega arith)

abbrev offer : NegotiateRequestOptions
offer = record {
  dialects = smb302 ∷ smb311 ∷ [];
  signing = required;
  capabilities = 0x40;
  client_guid = replicate 16 3;
}

offers_smb311 : has_dialect offer.dialects smb311 ≡ true
unfolding has_dialect
offers_smb311 = refl

-- The contexts of two dialects begin at byte 104.
build_negotiate_request_contexts_example :
    (bytes : List ℕ) × (build_negotiate_request offer 0 ≡ built bytes)
    × (u32_of bytes 92 ≡ 104)
    × (drop 104 bytes ≡ contexts_of offer)
build_negotiate_request_contexts_example =
    build_negotiate_request_contexts offer 0 offers_smb311 refl (omega arith)
