-- ===== src/Protocol/Status.antt =====
-- NTSTATUS values: the constants of Protocol.h, errorCodeForNtStatus, ntStatusName and
-- ntStatusFailureMessage of Protocol.cpp.
pub mod Codes
use smb_browser.Base.{
  ℕ, zero, suc, ◌+◌, ◌/◌, ◌%◌, ◌==◌, ltb, if◌then◌else◌, List, [], ◌∷◌, String, ◌<>◌,
}
use smb_browser.Wire.{
  ErrorCode, no_error, timeout, share_unavailable, authentication_failed, permission_denied,
  protocol_unsupported, file_not_found, already_exists, directory_not_empty, invalid_path,
  network_error, unsupported_capability, DecodeResult, failed,
}

abbrev pub status_success : ℕ
status_success = 0x00000000

abbrev pub status_notify_enum_dir : ℕ
status_notify_enum_dir = 0x0000010c

abbrev pub status_no_such_file : ℕ
status_no_such_file = 0xc000000f

abbrev pub status_access_denied : ℕ
status_access_denied = 0xc0000022

abbrev pub status_object_name_not_found : ℕ
status_object_name_not_found = 0xc0000034

abbrev pub status_object_name_collision : ℕ
status_object_name_collision = 0xc0000035

abbrev pub status_object_path_not_found : ℕ
status_object_path_not_found = 0xc000003a

abbrev pub status_object_path_syntax_bad : ℕ
status_object_path_syntax_bad = 0xc000003b

abbrev pub status_invalid_parameter : ℕ
status_invalid_parameter = 0xc000000d

abbrev pub status_invalid_device_request : ℕ
status_invalid_device_request = 0xc0000010

abbrev pub status_more_processing_required : ℕ
status_more_processing_required = 0xc0000016

abbrev pub status_sharing_violation : ℕ
status_sharing_violation = 0xc0000043

abbrev pub status_logon_failure : ℕ
status_logon_failure = 0xc000006d

abbrev pub status_account_restriction : ℕ
status_account_restriction = 0xc000006e

abbrev pub status_invalid_logon_hours : ℕ
status_invalid_logon_hours = 0xc000006f

abbrev pub status_invalid_workstation : ℕ
status_invalid_workstation = 0xc0000070

abbrev pub status_password_expired : ℕ
status_password_expired = 0xc0000071

abbrev pub status_account_disabled : ℕ
status_account_disabled = 0xc0000072

abbrev pub status_io_timeout : ℕ
status_io_timeout = 0xc00000b5

abbrev pub status_file_is_a_directory : ℕ
status_file_is_a_directory = 0xc00000ba

abbrev pub status_not_supported : ℕ
status_not_supported = 0xc00000bb

abbrev pub status_network_name_deleted : ℕ
status_network_name_deleted = 0xc00000c9

abbrev pub status_network_access_denied : ℕ
status_network_access_denied = 0xc00000ca

abbrev pub status_bad_network_name : ℕ
status_bad_network_name = 0xc00000cc

abbrev pub status_directory_not_empty : ℕ
status_directory_not_empty = 0xc0000101

abbrev pub status_not_a_directory : ℕ
status_not_a_directory = 0xc0000103

abbrev pub status_path_not_covered : ℕ
status_path_not_covered = 0xc0000257

abbrev pub status_no_more_files : ℕ
status_no_more_files = 0x80000006

-- The cases of errorCodeForNtStatus and of ntStatusName, in the source's order.
abbrev error_codes : List (ℕ × ErrorCode)
error_codes =
    (status_success, no_error)
    ∷ (status_notify_enum_dir, no_error)
    ∷ (status_logon_failure, authentication_failed)
    ∷ (status_account_restriction, authentication_failed)
    ∷ (status_invalid_logon_hours, authentication_failed)
    ∷ (status_invalid_workstation, authentication_failed)
    ∷ (status_password_expired, authentication_failed)
    ∷ (status_account_disabled, authentication_failed)
    ∷ (status_access_denied, permission_denied)
    ∷ (status_network_access_denied, permission_denied)
    ∷ (status_sharing_violation, permission_denied)
    ∷ (status_bad_network_name, share_unavailable)
    ∷ (status_network_name_deleted, share_unavailable)
    ∷ (status_path_not_covered, share_unavailable)
    ∷ (status_no_such_file, file_not_found)
    ∷ (status_object_name_not_found, file_not_found)
    ∷ (status_object_path_not_found, file_not_found)
    ∷ (status_object_name_collision, already_exists)
    ∷ (status_directory_not_empty, directory_not_empty)
    ∷ (status_object_path_syntax_bad, invalid_path)
    ∷ (status_not_a_directory, invalid_path)
    ∷ (status_file_is_a_directory, invalid_path)
    ∷ (status_invalid_parameter, unsupported_capability)
    ∷ (status_invalid_device_request, unsupported_capability)
    ∷ (status_io_timeout, timeout)
    ∷ (status_not_supported, protocol_unsupported)
    ∷ []

abbrev status_names : List (ℕ × String)
status_names =
    (status_success, "STATUS_SUCCESS")
    ∷ (status_notify_enum_dir, "STATUS_NOTIFY_ENUM_DIR")
    ∷ (status_no_such_file, "STATUS_NO_SUCH_FILE")
    ∷ (status_access_denied, "STATUS_ACCESS_DENIED")
    ∷ (status_object_name_not_found, "STATUS_OBJECT_NAME_NOT_FOUND")
    ∷ (status_object_name_collision, "STATUS_OBJECT_NAME_COLLISION")
    ∷ (status_object_path_not_found, "STATUS_OBJECT_PATH_NOT_FOUND")
    ∷ (status_object_path_syntax_bad, "STATUS_OBJECT_PATH_SYNTAX_BAD")
    ∷ (status_invalid_parameter, "STATUS_INVALID_PARAMETER")
    ∷ (status_invalid_device_request, "STATUS_INVALID_DEVICE_REQUEST")
    ∷ (status_more_processing_required, "STATUS_MORE_PROCESSING_REQUIRED")
    ∷ (status_sharing_violation, "STATUS_SHARING_VIOLATION")
    ∷ (status_logon_failure, "STATUS_LOGON_FAILURE")
    ∷ (status_account_restriction, "STATUS_ACCOUNT_RESTRICTION")
    ∷ (status_invalid_logon_hours, "STATUS_INVALID_LOGON_HOURS")
    ∷ (status_invalid_workstation, "STATUS_INVALID_WORKSTATION")
    ∷ (status_password_expired, "STATUS_PASSWORD_EXPIRED")
    ∷ (status_account_disabled, "STATUS_ACCOUNT_DISABLED")
    ∷ (status_io_timeout, "STATUS_IO_TIMEOUT")
    ∷ (status_file_is_a_directory, "STATUS_FILE_IS_A_DIRECTORY")
    ∷ (status_not_supported, "STATUS_NOT_SUPPORTED")
    ∷ (status_network_name_deleted, "STATUS_NETWORK_NAME_DELETED")
    ∷ (status_network_access_denied, "STATUS_NETWORK_ACCESS_DENIED")
    ∷ (status_bad_network_name, "STATUS_BAD_NETWORK_NAME")
    ∷ (status_directory_not_empty, "STATUS_DIRECTORY_NOT_EMPTY")
    ∷ (status_not_a_directory, "STATUS_NOT_A_DIRECTORY")
    ∷ (status_path_not_covered, "STATUS_PATH_NOT_COVERED")
    ∷ (status_no_more_files, "STATUS_NO_MORE_FILES")
    ∷ []

-- A `switch` over distinct labels.
switch {ℓ} : {A : Type ℓ} → ℕ → List (ℕ × A) → A → A
switch x [] default = default
switch x ((label, a) ∷ cases) default = if x == label then a else switch x cases default

pub error_code_for_nt_status : ℕ → ErrorCode
unfolding switch
error_code_for_nt_status status = switch status error_codes network_error

pub nt_status_name : ℕ → String
unfolding switch
nt_status_name status = switch status status_names "STATUS_UNMAPPED"

pub hex_digit : ℕ → String
unfolding switch
hex_digit d =
    switch d
      ((0, "0")
        ∷ (1, "1")
        ∷ (2, "2")
        ∷ (3, "3")
        ∷ (4, "4")
        ∷ (5, "5")
        ∷ (6, "6")
        ∷ (7, "7")
        ∷ (8, "8")
        ∷ (9, "9")
        ∷ (10, "A")
        ∷ (11, "B")
        ∷ (12, "C")
        ∷ (13, "D")
        ∷ (14, "E")
        ∷ [])
      "F"

-- `std::uppercase << std::hex << std::setw(8) << std::setfill('0')`: the lowest `digits` digits.
hex : ℕ → ℕ → String
unfolding hex_digit
hex zero v = ""
hex (suc digits) v = hex digits (v / 16) <> hex_digit (v % 16)

pub nt_status_failure_message : ℕ → String → String
unfolding hex nt_status_name
nt_status_failure_message status operation =
    operation <> " failed with " <> nt_status_name status <> " (0x" <> hex 8 status <> ")."

-- failureFromNtStatus
abbrev pub failure_from_nt_status {ℓ} : {A : Type ℓ} → ℕ → String → DecodeResult A
failure_from_nt_status status operation =
    failed (error_code_for_nt_status status) (nt_status_failure_message status operation)
