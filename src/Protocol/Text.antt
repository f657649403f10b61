-- ===== src/Protocol/Text.antt =====
-- server/rust/src/protocol.rs: null-terminated strings in byte fields, and the standard library's
-- `String::from_utf8`.
pub mod Laws
use tcpunch.Base.{
  ℕ, zero, suc, ◌+◌, List, [], ◌∷◌, Bool, true, false, Option, none, some, ◌&&◌, ◌==◌, leb,
  if◌then◌else◌, take, length, Result, ok, err,
}
use tcpunch.Protocol.{ProtocolError, invalid_utf8}

-- What a lead byte announces: the continuation bytes to come, and the range of the first of them.
unfoldable pub lead : ℕ → Option (ℕ × ℕ × ℕ)
lead b =
    if leb b 0x7f
    then some (0, 0x80, 0xbf)
    else if leb b 0xc1
    then none
    else if leb b 0xdf
    then some (1, 0x80, 0xbf)
    else if b == 0xe0
    then some (2, 0xa0, 0xbf)
    else if b == 0xed
    then some (2, 0x80, 0x9f)
    else if leb b 0xef
    then some (2, 0x80, 0xbf)
    else if b == 0xf0
    then some (3, 0x90, 0xbf)
    else if leb b 0xf3
    then some (3, 0x80, 0xbf)
    else if b == 0xf4
    then some (3, 0x80, 0x8f)
    else none

-- `k` continuation bytes are due, the next one between `lo` and `hi`.
unfoldable pub utf8_from : (k lo hi : ℕ) → List ℕ → Bool
unfolding lead
utf8_from zero lo hi [] = true
utf8_from (suc k) lo hi [] = false
utf8_from zero lo hi (b ∷ bs) = elim (lead b) [
  | none ↦ false
  | some (k, lo', hi') ↦ utf8_from k lo' hi' bs
]
utf8_from (suc k) lo hi (b ∷ bs) = leb lo b && leb b hi && utf8_from k 0x80 0xbf bs

abbrev pub is_utf8 : List ℕ → Bool
is_utf8 = utf8_from 0 0x80 0xbf

-- `String::from_utf8(bytes).map_err(|_| ProtocolError::InvalidUtf8)`
unfoldable pub from_utf8 : List ℕ → Result (List ℕ) ProtocolError
unfolding utf8_from
from_utf8 bytes = if is_utf8 bytes then ok bytes else err invalid_utf8

-- `data.iter().position(|&b| b == 0)`
unfoldable pub position_zero : List ℕ → Option ℕ
position_zero [] = none
position_zero (b ∷ bs) =
    if b == 0 then some 0 else elim (position_zero bs) [ none ↦ none | some i ↦ some (i + 1) ]

unfoldable pub text_end : List ℕ → ℕ
unfolding position_zero
text_end bytes = elim (position_zero bytes) [ none ↦ length bytes | some i ↦ i ]

unfoldable pub parse_null_terminated_string : List ℕ → Result (List ℕ) ProtocolError
unfolding from_utf8 text_end
parse_null_terminated_string bytes = from_utf8 (take (text_end bytes) bytes)
