-- ===== src/Protocol/Buffers/Safety.antt =====
-- The tests of Buffers, and what lies inside a message.
use smb_browser.Base.{
  ◌<◌, ap, inl, inr, refl, suc, zero, ◌-◌, ◌∙◌, List, String, arith, drop, false, length, take, ℕ,
  ◌+◌, ◌≡◌, ◌≤◌, ◌⊎◌,
}
use smb_browser.Protocol.Buffers.{copied, announced, out_of_bounds}
use smb_browser.Wire.{reject_if, ◌>>=◌, ◌>>◌, slice, success}
use smb_browser.Wire.Reads.{u16_of, u32_of, slice_in, Ensures, Ensures-reject_if}

-- What the tests establish.
abbrev pub IsInside : ℕ → ℕ → List ℕ → Type 0
IsInside offset size bytes = (size ≡ 0) ⊎ ((64 ≤ offset) × (offset + size ≤ length bytes))

abbrev pub buffer_of : List ℕ → ℕ → ℕ → List ℕ
buffer_of bytes offset size = take size (drop offset bytes)

pub out_of_bounds-IsInside :
    (offset size : ℕ) (bytes : List ℕ)
    → out_of_bounds offset size bytes ≡ false
    → IsInside offset size bytes
unfolding out_of_bounds
out_of_bounds-IsInside offset size bytes h = ground arith

pub slice_buffer :
    (bytes : List ℕ) (offset size : ℕ)
    → offset + size ≤ length bytes
    → slice bytes offset (offset + size) ≡ success (buffer_of bytes offset size)
slice_buffer bytes offset size h =
    slice_in bytes offset (offset + size) (omega arith) h
    ∙ ap (λ (n : ℕ). success (take n (drop offset bytes))) {x = offset + size - offset} {y = size}
        (omega arith)

pub copied_in :
    (offset size : ℕ) (bytes : List ℕ)
    → IsInside offset size bytes
    → copied offset size bytes ≡ success (buffer_of bytes offset size)
unfolding copied
copied_in offset zero bytes h = refl
copied_in offset (suc size) bytes (inl e) = absurd (omega arith)
copied_in offset (suc size) bytes (inr (low, high)) =
    ground (arith, slice_buffer bytes offset (suc size) high)

-- The copy is made inside the message, and is what was announced.
pub announced-Ensures :
    (offset size : ℕ) (message : String) (bytes : List ℕ)
    → Ensures
        (λ b. IsInside offset size bytes × (b ≡ buffer_of bytes offset size))
        (announced offset size message bytes)
unfolding announced
announced-Ensures offset size message bytes =
    Ensures-reject_if (λ b. IsInside offset size bytes × (b ≡ buffer_of bytes offset size)) _ _ _ _
      λ h.
        let inside : IsInside offset size bytes = out_of_bounds-IsInside offset size bytes h in
        rw (copied_in offset size bytes inside) (inside, refl)

-- Where there is output it lies in the message.
pub inside_bound :
    (offset size o : ℕ) (bytes : List ℕ)
    → IsInside offset size bytes
    → offset ≤ o
    → o < offset + size
    → offset + size ≤ length bytes
inside_bound offset size o bytes (inl e) from low = absurd (omega arith)
inside_bound offset size o bytes (inr (_, high)) from low = high

-- The end of the part of the message that holds the entries of a list.
abbrev pub output_end : List ℕ → ℕ
output_end bytes = u16_of bytes 66 + u32_of bytes 68

pub IsInside-out_of_bounds :
    (offset size : ℕ) (bytes : List ℕ)
    → IsInside offset size bytes
    → out_of_bounds offset size bytes ≡ false
unfolding out_of_bounds
IsInside-out_of_bounds offset size bytes h = ground arith

pub announced_in :
    (offset size : ℕ) (message : String) (bytes : List ℕ)
    → IsInside offset size bytes
    → announced offset size message bytes ≡ success (buffer_of bytes offset size)
unfolding announced ◌>>=◌ ◌>>◌ reject_if
announced_in offset size message bytes h =
    rw (IsInside-out_of_bounds offset size bytes h) (copied_in offset size bytes h)
