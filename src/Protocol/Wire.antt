-- ===== src/Protocol/Wire.antt =====
-- server/rust/src/protocol.rs: writing a field into a fixed buffer.
use tcpunch.Base.{
  ℕ, ◌+◌, ◌≤◌, ◌≡◌, List, ◌++◌, Option, none, some, arith, take, drop, length, leb, le→leb,
  if◌then◌else◌, length-append, length-take_of_le, take-append_self, drop-append_self, drop-add,
  length-drop,
}

-- `buf[at..at + src.len()].copy_from_slice(src)`; `none` is the panic of a slice out of range.
unfoldable pub copy_at : (at : ℕ) → (src buf : List ℕ) → Option (List ℕ)
copy_at at src buf =
    if leb (at + length src) (length buf)
    then some (take at buf ++ (src ++ drop (at + length src) buf))
    else none

-- A write at the seam of a buffer keeps what stands before and behind it.
pub copy_at_seam :
    (at : ℕ) (front src old back : List ℕ)
    → length front ≡ at
    → length old ≡ length src
    → copy_at at src (front ++ (old ++ back)) ≡ some (front ++ (src ++ back))
unfolding copy_at
copy_at_seam at front src old back hf hs =
    let fits : at + length src ≤ length (front ++ (old ++ back)) =
      omega (arith, length-append front (old ++ back), length-append old back) in
    rw (
      le→leb _ _ fits,
      take-append_self at front (old ++ back) hf,
      drop-add at (length src) (front ++ (old ++ back)),
      drop-append_self at front (old ++ back) hf,
      drop-append_self (length src) old back hs,
    )

-- A write never changes the size of the buffer.
pub length-copy_at :
    (at : ℕ) (src buf out : List ℕ) → copy_at at src buf ≡ some out → length out ≡ length buf
unfolding copy_at
length-copy_at at src buf out h = ground (
  arith,
  length-append (take at buf) (src ++ drop (at + length src) buf),
  length-append src (drop (at + length src) buf),
  length-drop (at + length src) buf,
  length-take_of_le at buf,
)
