-- ===== src/Protocol/Text/Laws.antt =====
-- What the null-terminated fields hold and what reading them gives
-- (server/rust/src/protocol.rs).
use tcpunch.Base.{
  ℕ, suc, ◌≤◌, ◌<◌, ◌≡◌, refl, ap, List, [], ◌∷◌, ◌++◌, true, none, some, arith, take, length, All,
  ok, err, inl, inr, Bool-cases, length-append, ◌==◌, subst, replicate, if◌then◌else◌, ◌-◌,
  length-take_of_le, Result, zeros, length-zeros,
}
use tcpunch.Uuid.{IsPlain}
use tcpunch.Protocol.{invalid_utf8, ProtocolError}
use tcpunch.Protocol.Text.{
  lead, utf8_from, is_utf8, from_utf8, position_zero, text_end, parse_null_terminated_string,
}

pub lead_ascii : (b : ℕ) → b < 128 → lead b ≡ some (0, 0x80, 0xbf)
unfolding lead
lead_ascii b h = ground arith

-- ASCII is UTF-8.
pub is_utf8_plain : (bs : List ℕ) → All IsPlain bs → is_utf8 bs ≡ true
unfolding utf8_from
is_utf8_plain [] h = refl
is_utf8_plain (b ∷ bs) h = rw (lead_ascii b h.0.1, utf8_from) (is_utf8_plain bs h.1)

abbrev pub IsNonzero : ℕ → Type 0
IsNonzero b = 0 < b

pub position_zero-append :
    (bs rest : List ℕ) → All IsNonzero bs → position_zero (bs ++ 0 ∷ rest) ≡ some (length bs)
unfolding position_zero
position_zero-append [] rest h = refl
position_zero-append (b ∷ bs) rest h = ground (arith, position_zero-append bs rest h.1)

position_zero-none : (bs : List ℕ) → All IsNonzero bs → position_zero bs ≡ none
unfolding position_zero
position_zero-none [] h = refl
position_zero-none (b ∷ bs) h = ground (arith, position_zero-none bs h.1)

take-append_length : (bs rest : List ℕ) → take (length bs) (bs ++ rest) ≡ bs
take-append_length [] rest = refl
take-append_length (b ∷ bs) rest = ap (◌∷◌ b) (take-append_length bs rest)

-- A field that holds a text and then a NUL reads as the text.
pub parse_terminated :
    (bs rest : List ℕ)
    → All IsNonzero bs
    → is_utf8 bs ≡ true
    → parse_null_terminated_string (bs ++ 0 ∷ rest) ≡ ok bs
unfolding parse_null_terminated_string text_end from_utf8
parse_terminated bs rest h u =
    rw (position_zero-append bs rest h, text_end, take-append_length bs (0 ∷ rest), from_utf8, u)

-- A text padded with NULs to a field of `k` bytes.
abbrev pub padded : ℕ → List ℕ → List ℕ
padded k bs = bs ++ zeros (k - length bs)

pub length-padded : (k : ℕ) (bs : List ℕ) → length bs ≤ k → length (padded k bs) ≡ k
length-padded k bs h =
    omega (arith, length-append bs (zeros (k - length bs)), length-zeros (k - length bs))

pub parse_padded :
    (k : ℕ) (bs : List ℕ)
    → All IsNonzero bs
    → length bs < k
    → parse_null_terminated_string (padded k bs) ≡ from_utf8 bs
unfolding parse_null_terminated_string text_end
parse_padded k bs h lt =
    let e : k - length bs ≡ suc (k - length bs - 1) = omega arith in
    rw (
      e,
      position_zero-append bs (replicate (k - length bs - 1) 0) h,
      text_end,
      take-append_length bs (0 ∷ replicate (k - length bs - 1) 0),
    )

text_end-cons :
    (b : ℕ) (bs : List ℕ) → text_end (b ∷ bs) ≡ (if b == 0 then 0 else suc (text_end bs))
unfolding text_end position_zero
text_end-cons b bs = ground arith

text_end-bounds : (bs : List ℕ) → All IsNonzero (take (text_end bs) bs) × (text_end bs ≤ length bs)
text_end-bounds [] = (unfold text_end in tt, unfold text_end position_zero in omega arith)
text_end-bounds (b ∷ bs) = elim (Bool-cases (b == 0)) [
  | inl z ↦ rw (text_end-cons b bs, z) (tt, omega arith)
  | inr nz ↦
      let (h, le) = text_end-bounds bs in
      rw (text_end-cons b bs, nz) ((ground arith, h), omega arith)
]

from_utf8-ok : (bs s : List ℕ) → from_utf8 bs ≡ ok s → (is_utf8 s ≡ true) × (bs ≡ s)
unfolding from_utf8
from_utf8-ok bs s h = elim (Bool-cases (is_utf8 bs)) [
  | inl u ↦ from_valid u (rw u at h)
  | inr n ↦ absurd (ok-ne-err (rw n at h))
]
  where
    ok-ne-err : ¬ ◌≡◌ {A = Result (List ℕ) ProtocolError} (err invalid_utf8) (ok s)
    ok-ne-err e = cc

    from_valid :
        is_utf8 bs ≡ true
        → ◌≡◌ {A = Result (List ℕ) ProtocolError} (ok bs) (ok s)
        → (is_utf8 s ≡ true) × (bs ≡ s)
    from_valid u e = let p : bs ≡ s = cc in (rw (← p) u, p)

-- Whatever a field is read as is UTF-8 and has no NUL, and is no longer than the field.
pub parse_sound :
    (bs s : List ℕ)
    → parse_null_terminated_string bs ≡ ok s
    → All IsNonzero s × (is_utf8 s ≡ true) × (length s ≤ length bs)
unfolding parse_null_terminated_string
parse_sound bs s h =
    let (u, e) = from_utf8-ok (take (text_end bs) bs) s h in
    let (z, le) = text_end-bounds bs in
    (
      subst (All IsNonzero) e z,
      u,
      omega (arith, ap length e, length-take_of_le (text_end bs) bs le),
    )
