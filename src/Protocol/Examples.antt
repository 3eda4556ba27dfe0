-- ===== src/Protocol/Examples.antt =====
-- Messages of a server for the examples, with a lemma for each check that they pass.
mod Responses
mod Listings
mod Codecs
use smb_browser.Base.{List, arith, length, refl, replicate, ℕ, ◌%◌, ◌++◌, ◌/◌, ◌∷◌, ◌≡◌, ◌≤◌}
use smb_browser.Protocol.Header.{ResponseKind}
use smb_browser.Protocol.Header.Responses.{HasFixedPart, IsResponse, IsSuccess}
use smb_browser.Wire.Reads.{u16_of}

-- A response: its header with the server-to-redirector flag, and its body.
abbrev pub reply : ℕ → ℕ → List ℕ → List ℕ
reply command status body =
    0xfe
    ∷ 0x53
    ∷ 0x4d
    ∷ 0x42
    ∷ 64
    ∷ 0
    ∷ 1
    ∷ 0
    ∷ status % 256
    ∷ status / 256 % 256
    ∷ status / 65536 % 256
    ∷ status / 16777216 % 256
    ∷ command
    ∷ 0
    ∷ 1
    ∷ 0
    ∷ 1
    ∷ 0
    ∷ 0
    ∷ 0
    ∷ (replicate 44 5 ++ body)

pub reply-IsResponse :
    (kind : ResponseKind) (status : ℕ) (body : List ℕ)
    → IsResponse kind (reply kind.command status body)
reply-IsResponse kind status body = record {
  size = omega arith;
  protocol_id = refl;
  structure_size = refl;
  command = omega arith;
  from_server = λ e. omega arith;
}

-- The body begins with the structure size of its kind.
pub reply-HasFixedPart :
    (kind : ResponseKind) (status : ℕ) (body : List ℕ)
    → u16_of body 0 ≡ kind.structure_size
    → kind.fixed_size ≤ length body
    → HasFixedPart kind (reply kind.command status body)
reply-HasFixedPart kind status body structure long = record {
  fixed_size = omega arith;
  fixed_structure = structure;
}

pub reply-IsSuccess :
    (kind : ResponseKind) (body : List ℕ)
    → u16_of body 0 ≡ kind.structure_size
    → kind.fixed_size ≤ length body
    → IsSuccess kind (reply kind.command 0 body)
reply-IsSuccess kind body structure long = record {
  response = reply-IsResponse kind 0 body;
  succeeded = refl;
  fixed_part = reply-HasFixedPart kind 0 body structure long;
}
