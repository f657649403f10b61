-- ===== src/Protocol/Response/Laws.antt =====
-- `ServerResponse` on the wire (server/rust/src/protocol.rs): what is written and what is read.
use tcpunch.Protocol.Text.Laws.{parse_terminated, IsNonzero, is_utf8_plain}
use tcpunch.Protocol.Request.Laws.{is_empty_of_length}
use tcpunch.Protocol.Request.{parse_token}
use tcpunch.Protocol.Text.{from_utf8}
use tcpunch.Base.{
  none, some, ℕ, ◌≡◌, List, some, ◌∷◌, ◌++◌, [], ◌≢◌, length, Option, ok, arith, length-append, ◌/◌,
  refl, ◌%◌, take, take_of_length-le, All-weaken,
}
use tcpunch.Uuid.{UuidApi, IsPlain}
use tcpunch.Protocol.{
  PairingStatus, waiting, paired, timeout, error, status_to_u8, status_from_u8, unspecified,
  is_unspecified, octets, to_be_bytes, from_be_bytes, PeerConnectionData, server_response_size,
}
use tcpunch.Protocol.Wire.{copy_at}
use tcpunch.Protocol.Response.{
  ServerResponse, to_bytes, from_bytes, peer_ip, peer_port, read_peer, parse_response_token,
  parse_token, parse_null_terminated_string,
}

-- The codes of the wire and the statuses are in bijection on 0 to 3.
pub status_from_u8-to_u8 : (s : PairingStatus) → status_from_u8 (status_to_u8 s) ≡ s
unfolding status_from_u8 status_to_u8
status_from_u8-to_u8 waiting = refl
status_from_u8-to_u8 paired = refl
status_from_u8-to_u8 timeout = refl
status_from_u8-to_u8 error = refl

-- A port of 16 bits is its two bytes, the high one first.
pub from_be_bytes-to_be_bytes : (p : ℕ) → from_be_bytes (p / 256) (p % 256) ≡ p
unfolding from_be_bytes
from_be_bytes-to_be_bytes p = omega arith

module _ (U : UuidApi) where
  open U use {to_string, length-to_string}

  -- The thirteen bytes before the token.
  pub header : ServerResponse U → List ℕ → List ℕ
  unfolding status_to_u8 octets to_be_bytes peer_ip peer_port
  header r rest =
      status_to_u8 r.status
      ∷ r.your_info.ip.a
      ∷ r.your_info.ip.b
      ∷ r.your_info.ip.c
      ∷ r.your_info.ip.d
      ∷ r.your_info.port / 256
      ∷ r.your_info.port % 256
      ∷ (peer_ip r.peer_info).a
      ∷ (peer_ip r.peer_info).b
      ∷ (peer_ip r.peer_info).c
      ∷ (peer_ip r.peer_info).d
      ∷ peer_port r.peer_info / 256
      ∷ peer_port r.peer_info % 256
      ∷ rest

  pub to_bytes-header :
      (r : ServerResponse U)
      → to_bytes U r ≡ some (header r (to_string r.reconnect_token ++ 0 ∷ []))
  unfolding to_bytes header copy_at octets to_be_bytes
  to_bytes-header r = rw (length-to_string r.reconnect_token)

  length-header :
      (r : ServerResponse U)
      → length (header r (to_string r.reconnect_token ++ 0 ∷ [])) ≡ server_response_size
  unfolding header
  length-header r = omega (
    arith,
    length-append (to_string r.reconnect_token) (0 ∷ []),
    length-to_string r.reconnect_token,
  )

  token_field :
      (u : U.Uuid)
      → parse_null_terminated_string (take 37 (to_string u ++ 0 ∷ [])) ≡ ok (to_string u)
  unfolding from_utf8
  token_field u = rw (
    take_of_length-le 37 (to_string u ++ 0 ∷ [])
        (omega (arith, length-append (to_string u) (0 ∷ []), length-to_string u)),
    parse_terminated (to_string u) []
        (All-weaken IsPlain IsNonzero (λ b h. h.0) (to_string u) (U.to_string-IsPlain u))
        (is_utf8_plain (to_string u) (U.to_string-IsPlain u)),
  )

  parse_response_token-to_string : (u : U.Uuid) → parse_response_token U (to_string u) ≡ ok u
  unfolding parse_response_token parse_token
  parse_response_token-to_string u = rw (
    is_empty_of_length U (to_string u) (omega (arith, length-to_string u)),
    U.parse_str-to_string u,
    parse_token,
  )

  read_peer-peer_ip :
      (p : Option PeerConnectionData)
      → p ≢ some (record { ip = unspecified; port = 0 })
      → read_peer (peer_ip p) (from_be_bytes (peer_port p / 256) (peer_port p % 256)) ≡ p
  unfolding read_peer is_unspecified peer_ip peer_port
  read_peer-peer_ip none h = rw (from_be_bytes-to_be_bytes 0)
  read_peer-peer_ip (some p) h = rw (from_be_bytes-to_be_bytes p.port) (ground arith)

  -- Any response is written to 50 bytes, with no panic, and reads back as itself: all but the one
  -- whose peer is 0.0.0.0:0, which the wire has no form for.
  pub from_bytes-to_bytes_response :
      (r : ServerResponse U)
      → r.peer_info ≢ some (record { ip = unspecified; port = 0 })
      → (bytes : List ℕ) × (to_bytes U r ≡ some bytes)
        × (length bytes ≡ server_response_size)
        × (from_bytes U bytes ≡ ok r)
  from_bytes-to_bytes_response r h =
      (header r (to_string r.reconnect_token ++ 0 ∷ []), to_bytes-header r, length-header r, back)
    where
      u : U.Uuid
      u = r.reconnect_token

      length-tail : length (to_string u ++ 0 ∷ []) ≡ 37
      length-tail = omega (arith, length-append (to_string u) (0 ∷ []), length-to_string u)

      back : from_bytes U (header r (to_string r.reconnect_token ++ 0 ∷ [])) ≡ ok r
      back =
          unfold from_bytes header in
          rw (
            length-tail,
            token_field u,
            parse_response_token-to_string u,
            status_from_u8-to_u8 r.status,
            from_be_bytes-to_be_bytes r.your_info.port,
            read_peer-peer_ip r.peer_info h,
          )
