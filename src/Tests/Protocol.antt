-- ===== src/Tests/Protocol.antt =====
-- The wire protocol at concrete messages (server/rust/src/protocol.rs).
use tcpunch.Protocol.Text.{utf8_from}
use tcpunch.Base.{ℕ, refl, ◌≡◌, some, List, length, ◌∷◌, replicate, none, arith, [], err, ◌++◌, ok}
use tcpunch.Tests.Texts.{lobby, host}
use tcpunch.Tests.Sample.{sample_uuid, id_a}
use tcpunch.Protocol.{server_response_size, client_request_size, invalid_utf8}
use tcpunch.Protocol.Request.{ClientRequest}
use tcpunch.Protocol.Request.RoundTrip
use tcpunch.Protocol.Request.RoundTrip.{IsWireName}
use tcpunch.Protocol.Response.{ServerResponse}
use tcpunch.Protocol.Response.Laws
use tcpunch.Protocol.Request
use tcpunch.Protocol.Response

abbrev request : ClientRequest sample_uuid
request = record { pairing_name = lobby; reconnect_token = some id_a }

pub lobby-IsWireName : IsWireName lobby
unfolding utf8_from
lobby-IsWireName = record {
  nonzero = omega arith;
  utf8 = refl;
  nonempty = omega arith;
  fits = omega arith;
}

to_bytes_total_example :
    (bytes : List ℕ) × (Request.to_bytes sample_uuid request ≡ some bytes)
    × (length bytes ≡ client_request_size)
to_bytes_total_example = RoundTrip.to_bytes_total sample_uuid request

request_round_trip_example :
    (bytes : List ℕ) × (Request.to_bytes sample_uuid request ≡ some bytes)
    × (length bytes ≡ client_request_size)
    × (Request.from_bytes sample_uuid bytes ≡ ok request)
request_round_trip_example =
    RoundTrip.from_bytes-to_bytes_request sample_uuid request lobby-IsWireName

-- A name of 98 letters and then a letter of two bytes, of which the cut takes away the second.
abbrev split_name : List ℕ
split_name = replicate 98 b'x' ++ (0xc3 ∷ 0xa9 ∷ [])

split_name_rejected :
    (bytes : List ℕ) × (Request.to_bytes sample_uuid
        (record { pairing_name = split_name; reconnect_token = none })
      ≡ some bytes)
    × (Request.from_bytes sample_uuid bytes ≡ err invalid_utf8)
unfolding utf8_from
split_name_rejected =
    RoundTrip.from_bytes-to_bytes_long sample_uuid
      (record { pairing_name = split_name; reconnect_token = none }) (omega arith) (omega arith)

response_round_trip_example :
    (bytes : List ℕ) × (Response.to_bytes sample_uuid (Response.paired sample_uuid host host id_a)
      ≡ some bytes)
    × (length bytes ≡ server_response_size)
    × (Response.from_bytes sample_uuid bytes ≡ ok (Response.paired sample_uuid host host id_a))
unfolding Response.paired
response_round_trip_example =
    Laws.from_bytes-to_bytes_response sample_uuid (Response.paired sample_uuid host host id_a)
      (λ e. ground arith)

abbrev request_bytes : List ℕ
request_bytes = (RoundTrip.from_bytes-to_bytes_request sample_uuid request lobby-IsWireName).0
