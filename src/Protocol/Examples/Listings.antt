-- ===== src/Protocol/Examples/Listings.antt =====
-- The decoders of chained entries on concrete messages.
use smb_browser.Base.{All, List, [], arith, false, true, ℕ, ◌∷◌, ◌≡◌}
use smb_browser.Protocol.Chain.Walk.{Chain}
use smb_browser.Protocol.Directory.{decode_query_directory_response, query_directory_kind}
use smb_browser.Protocol.Directory.Safety.{
  IsQueryDirectory, decode_query_directory_response-Ensures,
}
use smb_browser.Protocol.Ea.{
  FileFullEaInformation, build_file_full_ea_information, decode_file_full_ea_information,
}
use smb_browser.Protocol.Ea.Entries.{decode_file_full_ea_information-build, ea_bytes}
use smb_browser.Protocol.Ea.RoundTrip.{IsEa}
use smb_browser.Protocol.Ea.Walk.{IsEaEntry, decode_file_full_ea_information-Ensures}
use smb_browser.Protocol.Examples.{reply}
use smb_browser.Protocol.Header.Responses.{IsResponse}
use smb_browser.Protocol.Notify.{change_notify_kind, decode_change_notify_response}
use smb_browser.Protocol.Notify.Safety.{IsChangeNotify, decode_change_notify_response-Ensures}
use smb_browser.Wire.{built, success}
use smb_browser.Wire.Reads.{Ensures}

abbrev query_directory_body : List ℕ
query_directory_body =
    9 ∷ 0 ∷ 72 ∷ 0 ∷ 218 ∷ 0 ∷ 0 ∷ 0 ∷ 112 ∷ 0 ∷ 0 ∷ 0 ∷ 7 ∷ 0 ∷ 0 ∷ 0 ∷ 1 ∷ 1 ∷ 1 ∷ 1 ∷ 1 ∷ 1 ∷ 1
    ∷ 1 ∷ 1 ∷ 1 ∷ 1 ∷ 1 ∷ 1 ∷ 1 ∷ 1 ∷ 1 ∷ 1 ∷ 1 ∷ 1 ∷ 1 ∷ 1 ∷ 1 ∷ 1 ∷ 1 ∷ 1 ∷ 1 ∷ 1 ∷ 1 ∷ 1 ∷ 1 ∷ 1
    ∷ 1 ∷ 5 ∷ 0 ∷ 0 ∷ 0 ∷ 0 ∷ 0 ∷ 0 ∷ 0 ∷ 8 ∷ 0 ∷ 0 ∷ 0 ∷ 0 ∷ 0 ∷ 0 ∷ 0 ∷ 32 ∷ 0 ∷ 0 ∷ 0 ∷ 4 ∷ 0 ∷ 0
    ∷ 0 ∷ 0 ∷ 0 ∷ 0 ∷ 0 ∷ 0 ∷ 0 ∷ 0 ∷ 0 ∷ 0 ∷ 0 ∷ 0 ∷ 0 ∷ 0 ∷ 0 ∷ 0 ∷ 0 ∷ 0 ∷ 0 ∷ 0 ∷ 0 ∷ 0 ∷ 0 ∷ 0
    ∷ 0 ∷ 0 ∷ 0 ∷ 0 ∷ 0 ∷ 0 ∷ 0 ∷ 0 ∷ 0 ∷ 6 ∷ 0 ∷ 0 ∷ 0 ∷ 0 ∷ 0 ∷ 0 ∷ 0 ∷ 97 ∷ 0 ∷ 98 ∷ 0 ∷ 0 ∷ 0
    ∷ 0 ∷ 0 ∷ 0 ∷ 0 ∷ 0 ∷ 0 ∷ 7 ∷ 0 ∷ 0 ∷ 0 ∷ 1 ∷ 1 ∷ 1 ∷ 1 ∷ 1 ∷ 1 ∷ 1 ∷ 1 ∷ 1 ∷ 1 ∷ 1 ∷ 1 ∷ 1 ∷ 1
    ∷ 1 ∷ 1 ∷ 1 ∷ 1 ∷ 1 ∷ 1 ∷ 1 ∷ 1 ∷ 1 ∷ 1 ∷ 1 ∷ 1 ∷ 1 ∷ 1 ∷ 1 ∷ 1 ∷ 1 ∷ 1 ∷ 5 ∷ 0 ∷ 0 ∷ 0 ∷ 0 ∷ 0
    ∷ 0 ∷ 0 ∷ 8 ∷ 0 ∷ 0 ∷ 0 ∷ 0 ∷ 0 ∷ 0 ∷ 0 ∷ 32 ∷ 0 ∷ 0 ∷ 0 ∷ 2 ∷ 0 ∷ 0 ∷ 0 ∷ 0 ∷ 0 ∷ 0 ∷ 0 ∷ 0 ∷ 0
    ∷ 0 ∷ 0 ∷ 0 ∷ 0 ∷ 0 ∷ 0 ∷ 0 ∷ 0 ∷ 0 ∷ 0 ∷ 0 ∷ 0 ∷ 0 ∷ 0 ∷ 0 ∷ 0 ∷ 0 ∷ 0 ∷ 0 ∷ 0 ∷ 0 ∷ 0 ∷ 0 ∷ 0
    ∷ 0 ∷ 0 ∷ 6 ∷ 0 ∷ 0 ∷ 0 ∷ 0 ∷ 0 ∷ 0 ∷ 0 ∷ 99 ∷ 0 ∷ []

abbrev query_directory_bytes : List ℕ
query_directory_bytes = reply query_directory_kind.command 0 query_directory_body

abbrev change_notify_body : List ℕ
change_notify_body =
    9 ∷ 0 ∷ 72 ∷ 0 ∷ 30 ∷ 0 ∷ 0 ∷ 0 ∷ 16 ∷ 0 ∷ 0 ∷ 0 ∷ 1 ∷ 0 ∷ 0 ∷ 0 ∷ 4 ∷ 0 ∷ 0 ∷ 0 ∷ 97 ∷ 0 ∷ 98
    ∷ 0 ∷ 0 ∷ 0 ∷ 0 ∷ 0 ∷ 1 ∷ 0 ∷ 0 ∷ 0 ∷ 2 ∷ 0 ∷ 0 ∷ 0 ∷ 99 ∷ 0 ∷ []

abbrev change_notify_bytes : List ℕ
change_notify_bytes = reply change_notify_kind.command 0 change_notify_body

decode_query_directory_response-Ensures_example :
    Ensures
      (λ r.
        IsResponse query_directory_kind query_directory_bytes
        × IsQueryDirectory query_directory_bytes r)
      (decode_query_directory_response query_directory_bytes)
decode_query_directory_response-Ensures_example =
    decode_query_directory_response-Ensures query_directory_bytes (omega arith)

decode_change_notify_response-Ensures_example :
    Ensures (IsChangeNotify change_notify_bytes) (decode_change_notify_response change_notify_bytes)
decode_change_notify_response-Ensures_example =
    decode_change_notify_response-Ensures change_notify_bytes (omega arith)

abbrev attribute_bytes : List ℕ
attribute_bytes =
    20 ∷ 0 ∷ 0 ∷ 0 ∷ 0 ∷ 3 ∷ 3 ∷ 0 ∷ 97 ∷ 98 ∷ 99 ∷ 0 ∷ 1 ∷ 2 ∷ 3 ∷ 0 ∷ 0 ∷ 0 ∷ 0 ∷ 0 ∷ 0 ∷ 0 ∷ 0
    ∷ 0 ∷ 128 ∷ 1 ∷ 0 ∷ 0 ∷ 122 ∷ 0 ∷ []

decode_file_full_ea_information-Ensures_example :
    Ensures
      (Chain (IsEaEntry attribute_bytes) 30 0)
      (decode_file_full_ea_information attribute_bytes)
decode_file_full_ea_information-Ensures_example =
    decode_file_full_ea_information-Ensures attribute_bytes

abbrev attributes : List FileFullEaInformation
attributes =
    record { name = 97 ∷ 98 ∷ []; value = 1 ∷ 2 ∷ 3 ∷ []; need_ea = false }
    ∷ record { name = 122 ∷ []; value = []; need_ea = true }
    ∷ []

attributes-IsEa : All IsEa attributes
attributes-IsEa = (
  record { name_low = omega arith; name_high = omega arith; value_high = omega arith },
  (record { name_low = omega arith; name_high = omega arith; value_high = omega arith }, tt),
)

decode_file_full_ea_information-build_example :
    (build_file_full_ea_information attributes ≡ built (ea_bytes attributes))
    × (decode_file_full_ea_information (ea_bytes attributes) ≡ success attributes)
decode_file_full_ea_information-build_example =
    decode_file_full_ea_information-build attributes attributes-IsEa
