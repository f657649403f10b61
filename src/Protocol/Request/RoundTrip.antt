-- ===== src/Protocol/Request/RoundTrip.antt =====
-- `ClientRequest` read back from its wire format (server/rust/src/protocol.rs).
use tcpunch.Base.Fallible.{>>=-eq-ok}
use tcpunch.Protocol.Text.Laws.{IsNonzero, parse_sound}
use tcpunch.Protocol.Text.{is_utf8, from_utf8}
use tcpunch.Protocol.{
  client_request_size, invalid_utf8, ProtocolError, empty_pairing_name, invalid_length,
  token_length, max_pairing_name,
}
use tcpunch.Uuid.{UuidApi}
use tcpunch.Base.{
  [], ◌∷◌, ℕ, All, List, ◌≡◌, ◌<◌, length, some, ok, true, ◌≤◌, if◌then◌else◌, ◌∙◌,
  take_of_length-le, arith, take, Result, err, ◌∷◌, min, Bool-cases, All-take, inl, ltb, drop, inr,
  length-take_le,
}
use tcpunch.Protocol.Request.{
  ClientRequest, from_bytes, to_bytes, is_empty, parse_null_terminated_string, ◌>>=◌,
  parse_reconnect_token,
}
use tcpunch.Protocol.Request.Laws.{
  sent_name, encoding, to_bytes-encoding, length-encoding, from_bytes-encoding, is_empty_of_length,
  name_result, length-sent_name,
}

-- A name that the 100-byte field can hold: UTF-8 with no NUL, of 1 to 99 bytes.
pub record IsWireName (name : List ℕ) : Type 0 where
  pub nonzero : All IsNonzero name
  pub utf8 : is_utf8 name ≡ true
  pub nonempty : 0 < length name
  pub fits : length name ≤ 99

sent_name_short : (name : List ℕ) → length name ≤ 99 → sent_name name ≡ name
sent_name_short name h = take_of_length-le _ name (omega arith)

module _ (U : UuidApi) where
  -- Writing any request gives 141 bytes, with no panic.
  pub to_bytes_total :
      (req : ClientRequest U)
      → (bytes : List ℕ) × (to_bytes U req ≡ some bytes) × (length bytes ≡ client_request_size)
  to_bytes_total req = (encoding U req, to_bytes-encoding U req, length-encoding U req)

  -- A request whose name has 1 to 99 bytes of UTF-8 with no NUL is written to 141 bytes that read
  -- back as the same request, token included.
  pub from_bytes-to_bytes_request :
      (req : ClientRequest U)
      → IsWireName req.pairing_name
      → (bytes : List ℕ) × (to_bytes U req ≡ some bytes)
        × (length bytes ≡ client_request_size)
        × (from_bytes U bytes ≡ ok req)
  from_bytes-to_bytes_request req h =
      (encoding U req, to_bytes-encoding U req, length-encoding U req, back)
    where
      same : sent_name req.pairing_name ≡ req.pairing_name
      same = sent_name_short req.pairing_name h.fits

      back : from_bytes U (encoding U req) ≡ ok req
      back =
          from_bytes-encoding U req (rw same h.nonzero)
          ∙ rw same (
              unfold from_utf8 name_result in
              rw (h.utf8, is_empty_of_length U req.pairing_name h.nonempty))

  -- A name with no NUL of more than 99 bytes is cut after byte 99. If the cut name is UTF-8 the
  -- request reads back with the cut name, and else it is rejected as invalid UTF-8.
  pub from_bytes-to_bytes_long :
      (req : ClientRequest U)
      → All IsNonzero req.pairing_name
      → 99 < length req.pairing_name
      → (bytes : List ℕ) × (to_bytes U req ≡ some bytes)
        × (from_bytes U bytes ≡ (
            if is_utf8 (take 99 req.pairing_name)
            then ok (record req { pairing_name = take 99 req.pairing_name })
            else err invalid_utf8))
  from_bytes-to_bytes_long req h long = (encoding U req, to_bytes-encoding U req, back)
    where
      name : List ℕ
      name = req.pairing_name

      cut : sent_name name ≡ take 99 name
      cut = let e : min (length name) 99 ≡ 99 = omega arith in rw e

      some_left : 0 < length (take 99 name)
      some_left = rw (← cut) (omega (arith, length-sent_name name))

      back : from_bytes U (encoding U req) ≡ (
          if is_utf8 (take 99 name)
          then ok (record req { pairing_name = take 99 name })
          else err invalid_utf8)
      back =
          from_bytes-encoding U req (rw cut (All-take IsNonzero 99 name h))
          ∙ rw cut (elim (Bool-cases (is_utf8 (take 99 name))) [
            | inl u ↦ unfold from_utf8 name_result in rw (u, is_empty_of_length U _ some_left)
            | inr n ↦ unfold from_utf8 in rw n
          ])

  parse_rest : List ℕ → List ℕ → Result (ClientRequest U) ProtocolError
  parse_rest bytes name =
      if is_empty name
      then err empty_pairing_name
      else (parse_null_terminated_string (take token_length (drop max_pairing_name bytes))
          >>= λ token_str. parse_reconnect_token U token_str >>= λ token.
              ok (record { pairing_name = name; reconnect_token = token }))

  parse_rest-name :
      (bytes name : List ℕ) (req : ClientRequest U)
      → parse_rest bytes name ≡ ok req
      → (0 < length name) × (req.pairing_name ≡ name)
  unfolding parse_rest
  parse_rest-name bytes [] req h = ground arith
  parse_rest-name bytes (b ∷ bs) req h =
      let (s, _, e) =
        >>=-eq-ok (parse_null_terminated_string (take token_length (drop max_pairing_name bytes))) _
          h in
      let (t, _, e') = >>=-eq-ok (parse_reconnect_token U s) _ e in (omega arith, ground arith)

  -- What `from_bytes` accepts has at least 141 bytes, and its name is UTF-8 of 1 to 100 bytes with
  -- no NUL.
  pub from_bytes_sound :
      (bytes : List ℕ) (req : ClientRequest U)
      → from_bytes U bytes ≡ ok req
      → (client_request_size ≤ length bytes)
        × All IsNonzero req.pairing_name
        × (is_utf8 req.pairing_name ≡ true)
        × (0 < length req.pairing_name)
        × (length req.pairing_name ≤ 100)
  unfolding from_bytes parse_rest
  from_bytes_sound bytes req h = elim (Bool-cases (ltb (length bytes) client_request_size)) [
    | inl short ↦ absurd (err-ne-ok (rw short at h))
    | inr long ↦
        let (name, parsed, rest) =
          >>=-eq-ok (parse_null_terminated_string (take max_pairing_name bytes)) (parse_rest bytes)
            (rw long at h) in
        let (some_name, same) = parse_rest-name bytes name req rest in
        let (nz, u, le) = parse_sound (take max_pairing_name bytes) name parsed in
        rw same (ground arith, nz, u, some_name, omega (arith, length-take_le 100 bytes))
  ]
    where
      err-ne-ok :
          ¬ ◌≡◌ {A = Result (ClientRequest U) ProtocolError}
            (err (invalid_length client_request_size (length bytes)))
            (ok req)
      err-ne-ok e = cc
