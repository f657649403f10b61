-- ===== src/Protocol.antt =====
-- server/rust/src/protocol.rs: the constants, the data types and the small conversions. A `String`
-- is the list of its UTF-8 bytes.
pub mod Text
pub mod Wire
pub mod Request
pub mod Response
use tcpunch.Base.{
  ℕ, ◌+◌, ◌/◌, ◌%◌, ◌*◌, List, [], ◌∷◌, Option, none, some, Bool, ◌&&◌, ◌==◌, if◌then◌else◌, get_or,
}

abbrev pub max_pairing_name : ℕ
max_pairing_name = 100

abbrev pub token_length : ℕ
token_length = 37

abbrev pub client_request_size : ℕ
client_request_size = max_pairing_name + token_length + 4

abbrev pub server_response_size : ℕ
server_response_size = 1 + 4 + 2 + 4 + 2 + token_length

pub data PairingStatus : Type 0 where
  waiting paired timeout error : PairingStatus

-- `self.status as u8`
unfoldable pub status_to_u8 : PairingStatus → ℕ
status_to_u8 waiting = 0
status_to_u8 paired = 1
status_to_u8 timeout = 2
status_to_u8 error = 3

unfoldable pub status_from_u8 : ℕ → PairingStatus
status_from_u8 v =
    if v == 0 then waiting else if v == 1 then paired else if v == 2 then timeout else error

-- `std::net::Ipv4Addr` as its octets.
pub record Ipv4Addr : Type 0 where
  pub a : ℕ
  pub b : ℕ
  pub c : ℕ
  pub d : ℕ

abbrev pub unspecified : Ipv4Addr
unspecified = record { a = 0; b = 0; c = 0; d = 0 }

unfoldable pub is_unspecified : Ipv4Addr → Bool
is_unspecified ip = ip.a == 0 && ip.b == 0 && ip.c == 0 && ip.d == 0

unfoldable pub octets : Ipv4Addr → List ℕ
octets ip = ip.a ∷ ip.b ∷ ip.c ∷ ip.d ∷ []

-- `u16::to_be_bytes` and `u16::from_be_bytes`
unfoldable pub to_be_bytes : ℕ → List ℕ
to_be_bytes p = p / 256 ∷ p % 256 ∷ []

unfoldable pub from_be_bytes : ℕ → ℕ → ℕ
from_be_bytes hi lo = hi * 256 + lo

-- `std::net::SocketAddr`: an address with its port.
pub data SocketAddr : Type 0 where
  v4 : Ipv4Addr → ℕ → SocketAddr
  v6 : List ℕ → ℕ → SocketAddr

pub record PeerConnectionData : Type 0 where
  pub ip : Ipv4Addr
  pub port : ℕ

unfoldable pub from_socket_addr : SocketAddr → Option PeerConnectionData
from_socket_addr (v4 ip port) = some (record { ip = ip; port = port })
from_socket_addr (v6 ip port) = none

unfoldable pub to_socket_addr : PeerConnectionData → SocketAddr
to_socket_addr info = v4 info.ip info.port

-- The errors that parsing returns; `Io` is never built by the repository's code.
pub data ProtocolError : Type 0 where
  invalid_length : (expected got : ℕ) → ProtocolError
  empty_pairing_name invalid_token invalid_utf8 : ProtocolError
