-- ===== src/Protocol/Request.antt =====
-- server/rust/src/protocol.rs: `ClientRequest`, read from and written to its wire format. The
-- `String` of the name is the list of its UTF-8 bytes.
pub mod Laws
pub mod RoundTrip
use tcpunch.Base.{
  ℕ, ◌-◌, ◌+◌, ◌==◌, List, [], ◌∷◌, Option, none, some, Result, ok, err, Bool, true, false, ltb,
  min, if◌then◌else◌, take, drop, length, replicate,
}
use tcpunch.Base.Fallible.{◌>>=◌}
use tcpunch.Base.Partial.{◌>>=◌ as bind}
use tcpunch.Uuid.{UuidApi}
use tcpunch.Protocol.{
  max_pairing_name, token_length, client_request_size, ProtocolError, invalid_length,
  empty_pairing_name, invalid_token,
}
use tcpunch.Protocol.Text.{parse_null_terminated_string}
use tcpunch.Protocol.Wire.{copy_at}

-- `s.is_empty()`
abbrev pub is_empty : List ℕ → Bool
is_empty [] = true
is_empty (b ∷ bs) = false

module _ (U : UuidApi) where
  open U use {Uuid, to_string, parse_str}

  pub record ClientRequest : Type 0 where
    pub pairing_name : List ℕ
    pub reconnect_token : Option Uuid

  -- `Uuid::parse_str(&token_str).map_err(|_| ProtocolError::InvalidToken)?`
  unfoldable pub parse_token : List ℕ → Result Uuid ProtocolError
  parse_token text = elim (parse_str text) [ none ↦ err invalid_token | some u ↦ ok u ]

  unfoldable pub parse_reconnect_token : List ℕ → Result (Option Uuid) ProtocolError
  unfolding parse_token
  parse_reconnect_token text =
      if is_empty text then ok none else (parse_token text >>= λ u. ok (some u))

  unfoldable pub from_bytes : List ℕ → Result ClientRequest ProtocolError
  from_bytes bytes =
      if ltb (length bytes) client_request_size
      then err (invalid_length client_request_size (length bytes))
      else do
        name ← parse_null_terminated_string (take max_pairing_name bytes)
        if is_empty name then err empty_pairing_name else do
          token_str ← parse_null_terminated_string (take token_length (drop max_pairing_name bytes))
          token ← parse_reconnect_token token_str
          ok (record { pairing_name = name; reconnect_token = token })

  -- The token field of the buffer, written where the request has a token.
  unfoldable pub write_token : Option Uuid → List ℕ → Option (List ℕ)
  write_token none buf = some buf
  write_token (some token) buf = copy_at max_pairing_name (to_string token) buf

  -- `none` would be a panic of a slice out of range.
  unfoldable pub to_bytes : ClientRequest → Option (List ℕ)
  unfolding write_token
  to_bytes req =
      let name_len = min (length req.pairing_name) (max_pairing_name - 1) in
      bind (copy_at 0 (take name_len req.pairing_name) (replicate client_request_size 0))
        (write_token req.reconnect_token)
