-- ===== src/Protocol/Response.antt =====
-- server/rust/src/protocol.rs: `ServerResponse`, its constructors and its wire format.
pub mod Laws
use tcpunch.Base.{
  ℕ, ◌+◌, ◌==◌, ◌&&◌, List, Option, none, some, Result, ok, err, ltb, if◌then◌else◌, take, drop,
  length, get_or, replicate, ◌∷◌, [],
}
use tcpunch.Base.Fallible.{◌>>=◌}
use tcpunch.Base.Partial.{◌>>=◌ as bind}
use tcpunch.Uuid.{UuidApi}
use tcpunch.Protocol.{
  PairingStatus, status_to_u8, status_from_u8, Ipv4Addr, unspecified, is_unspecified, octets,
  to_be_bytes, from_be_bytes, PeerConnectionData, token_length, server_response_size, ProtocolError,
  invalid_length,
}
use tcpunch.Protocol.Text.{parse_null_terminated_string}
use tcpunch.Protocol.Wire.{copy_at}
use tcpunch.Protocol.Request.{is_empty, parse_token}

-- `self.peer_info.map(|p| p.ip).unwrap_or(Ipv4Addr::UNSPECIFIED)`
unfoldable pub peer_ip : Option PeerConnectionData → Ipv4Addr
peer_ip none = unspecified
peer_ip (some p) = p.ip

-- `self.peer_info.map(|p| p.port).unwrap_or(0)`
unfoldable pub peer_port : Option PeerConnectionData → ℕ
peer_port none = 0
peer_port (some p) = p.port

unfoldable pub read_ip : List ℕ → ℕ → Ipv4Addr
read_ip bytes offset = record {
  a = get_or bytes offset 0;
  b = get_or bytes (offset + 1) 0;
  c = get_or bytes (offset + 2) 0;
  d = get_or bytes (offset + 3) 0;
}

unfoldable pub read_port : List ℕ → ℕ → ℕ
read_port bytes offset = from_be_bytes (get_or bytes offset 0) (get_or bytes (offset + 1) 0)

-- All zeros stand for an absent peer.
unfoldable pub read_peer : Ipv4Addr → ℕ → Option PeerConnectionData
unfolding is_unspecified
read_peer ip port =
    if is_unspecified ip && port == 0 then none else some (record { ip = ip; port = port })

module _ (U : UuidApi) where
  open U use {Uuid, nil, to_string}

  pub record ServerResponse : Type 0 where
    pub status : PairingStatus
    pub your_info : PeerConnectionData
    pub peer_info : Option PeerConnectionData
    pub reconnect_token : Uuid

  unfoldable pub waiting : PeerConnectionData → Uuid → ServerResponse
  waiting your_info token = record {
    status = PairingStatus.waiting;
    your_info = your_info;
    peer_info = none;
    reconnect_token = token;
  }

  unfoldable pub paired : PeerConnectionData → PeerConnectionData → Uuid → ServerResponse
  paired your_info peer_info token = record {
    status = PairingStatus.paired;
    your_info = your_info;
    peer_info = some peer_info;
    reconnect_token = token;
  }

  unfoldable pub timeout : PeerConnectionData → Uuid → ServerResponse
  timeout your_info token = record {
    status = PairingStatus.timeout;
    your_info = your_info;
    peer_info = none;
    reconnect_token = token;
  }

  unfoldable pub error : ServerResponse
  error = record {
    status = PairingStatus.error;
    your_info = record { ip = unspecified; port = 0 };
    peer_info = none;
    reconnect_token = nil;
  }

  -- `none` would be a panic of a slice out of range.
  unfoldable pub to_bytes : ServerResponse → Option (List ℕ)
  unfolding peer_ip peer_port
  to_bytes r =
      let buf = replicate server_response_size 0 in
      bind (copy_at 0 (status_to_u8 r.status ∷ []) buf) λ buf₁.
        bind (copy_at 1 (octets r.your_info.ip) buf₁) λ buf₂.
          bind (copy_at 5 (to_be_bytes r.your_info.port) buf₂) λ buf₃.
            bind (copy_at 7 (octets (peer_ip r.peer_info)) buf₃) λ buf₄.
              bind (copy_at 11 (to_be_bytes (peer_port r.peer_info)) buf₄)
                λ buf₅. copy_at 13 (to_string r.reconnect_token) buf₅

  -- An empty token field reads as the nil UUID.
  unfoldable pub parse_response_token : List ℕ → Result Uuid ProtocolError
  parse_response_token text = if is_empty text then ok nil else parse_token U text

  unfoldable pub from_bytes : List ℕ → Result ServerResponse ProtocolError
  unfolding read_ip read_port
  from_bytes bytes =
      if ltb (length bytes) server_response_size
      then err (invalid_length server_response_size (length bytes))
      else do
        let status = status_from_u8 (get_or bytes 0 0)
        token_str ← parse_null_terminated_string (take token_length (drop 13 bytes))
        token ← parse_response_token token_str
        ok (record {
          status = status;
          your_info = record { ip = read_ip bytes 1; port = read_port bytes 5 };
          peer_info = read_peer (read_ip bytes 7) (read_port bytes 11);
          reconnect_token = token;
        })
