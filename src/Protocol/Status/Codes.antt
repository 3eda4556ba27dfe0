-- ===== src/Protocol/Status/Codes.antt =====
-- errorCodeForNtStatus of Protocol.cpp and ErrorCode::None.
use smb_browser.Base.{ℕ, ◌≡◌, ◌⊎◌, ◌↔◌, arith}
use smb_browser.Protocol.Status.{error_code_for_nt_status, status_success, status_notify_enum_dir}
use smb_browser.Wire.{no_error}

-- errorCodeForNtStatus gives ErrorCode::None for STATUS_SUCCESS and STATUS_NOTIFY_ENUM_DIR, and
-- for no other status.
pub error_code_for_nt_status-no_error :
    (status : ℕ)
    → (error_code_for_nt_status status ≡ no_error)
      ↔ ((status ≡ status_success) ⊎ (status ≡ status_notify_enum_dir))
unfolding error_code_for_nt_status
error_code_for_nt_status-no_error status = (λ h. ground arith, λ h. ground arith)
