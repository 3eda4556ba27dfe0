-- ===== src/Errors.antt =====
-- The errors of src/core/Error.h and src/core/Error.cpp.
use smb_browser.Base.{Bool, String, false, true}

-- `no_code` is `ErrorCode::None`.
pub data ErrorCode : Type 0 where
  no_code invalid_path dns_error server_unavailable share_unavailable : ErrorCode
  authentication_failed permission_denied timeout protocol_unsupported network_error : ErrorCode
  file_not_found already_exists directory_not_empty operation_cancelled local_io_error : ErrorCode
  storage_error credential_store_unavailable credential_not_found unknown : ErrorCode

pub data ErrorCategory : Type 0 where
  general validation storage credentials smb transfer : ErrorCategory

pub record AppError : Type 0 where
  pub code : ErrorCode
  pub category : ErrorCategory
  pub user_message : String
  pub sanitized_technical_details : String
  pub retryable : Bool

unfoldable pub default_user_message : ErrorCode → String
default_user_message no_code = ""
default_user_message invalid_path = "The path is not valid."
default_user_message dns_error = "The server name could not be resolved."
default_user_message server_unavailable = "The server is unavailable."
default_user_message share_unavailable = "The shared folder is unavailable."
default_user_message authentication_failed = "The username or password is incorrect."
default_user_message permission_denied = "You do not have permission to perform this operation."
default_user_message timeout = "The operation timed out."
default_user_message protocol_unsupported = "The SMB protocol version is not supported."
default_user_message network_error = "A network error occurred."
default_user_message file_not_found = "The file or folder was not found."
default_user_message already_exists = "A file or folder with this name already exists."
default_user_message directory_not_empty = "The folder is not empty."
default_user_message operation_cancelled = "The operation was cancelled."
default_user_message local_io_error = "A local file system error occurred."
default_user_message storage_error = "The local database operation failed."
default_user_message credential_store_unavailable = "The credential store is unavailable."
default_user_message credential_not_found = "The saved credential was not found."
default_user_message unknown = "An unknown error occurred."

unfoldable pub from_code : ErrorCode → ErrorCategory → String → Bool → AppError
from_code code category details retryable = record {
  code = code;
  category = category;
  user_message = default_user_message code;
  sanitized_technical_details = details;
  retryable = retryable;
}

-- `AppError::none()`
abbrev pub no_app_error : AppError
no_app_error = record {
  code = no_code;
  category = general;
  user_message = "";
  sanitized_technical_details = "";
  retryable = false;
}

unfoldable pub has_error : AppError → Bool
has_error e = elim e.code [ no_code ↦ false | _ ↦ true ]
