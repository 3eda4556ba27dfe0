-- ===== src/Protocol/Transfer/Credits.antt =====
-- The credits that a READ or a WRITE is charged for its bytes.
use smb_browser.Base.{arith, ℕ, ◌*◌, ◌+◌, ◌<◌, ◌^◌, ◌≡◌, ◌≤◌}
use smb_browser.Protocol.Header.{Smb2SyncHeader}
use smb_browser.Protocol.Transfer.{charged}

-- A READ or WRITE request of 1 to 65535 * 65536 bytes is charged the least number of credits
-- that pays for its bytes at 65536 bytes a credit, and asks for as many credits as it is
-- charged.
pub charged_lem :
    (header : Smb2SyncHeader) (bytes : ℕ)
    → 0 < bytes
    → bytes ≤ 65535 * 65536
    → (bytes ≤ (charged header bytes).credit_charge * 65536)
      × ((charged header bytes).credit_charge * 65536 < bytes + 65536)
      × ((charged header bytes).credit_request ≡ (charged header bytes).credit_charge)
unfolding charged
charged_lem header bytes low high = ground arith

-- For a length above 65535 * 65536 that fits a uint32_t, the credit charge of a READ or WRITE
-- request wraps to 0, while the request asks for one credit.
pub charged_wraps :
    (header : Smb2SyncHeader) (bytes : ℕ)
    → 65535 * 65536 < bytes
    → bytes < 2 ^ 32
    → ((charged header bytes).credit_charge ≡ 0) × ((charged header bytes).credit_request ≡ 1)
unfolding charged
charged_wraps header bytes low high = ground arith
