-- ===== src/Protocol/Request/Laws.antt =====
-- `ClientRequest` on the wire (server/rust/src/protocol.rs): what is written and what is read.
use tcpunch.Base.{
  ℕ, ◌-◌, ◌+◌, ◌≤◌, ◌<◌, ◌≡◌, refl, sym, ap, ◌∙◌, List, [], ◌∷◌, ◌++◌, true, false, Option, none,
  some, Result, ok, err, arith, take, drop, length, All, All-weaken, min, if◌then◌else◌,
  append_assoc, length-append, length-take_of_le, take-append_self, drop-append_self, zeros,
  zeros-append, length-zeros,
}
use tcpunch.Uuid.{UuidApi, IsPlain}
use tcpunch.Protocol.{client_request_size, ProtocolError, empty_pairing_name}
use tcpunch.Protocol.Text.{parse_null_terminated_string, from_utf8, is_utf8, utf8_from}
use tcpunch.Protocol.Text.Laws.{IsNonzero, padded, length-padded, parse_padded, is_utf8_plain}
use tcpunch.Protocol.Wire.{copy_at, copy_at_seam}
use tcpunch.Protocol.Request.{
  ClientRequest, is_empty, parse_token, parse_reconnect_token, from_bytes, write_token, to_bytes,
  ◌>>=◌,
}

-- The name as it is sent: its first 99 bytes.
abbrev pub sent_name : List ℕ → List ℕ
sent_name name = take (min (length name) 99) name

pub length-sent_name : (name : List ℕ) → length (sent_name name) ≡ min (length name) 99
length-sent_name name = length-take_of_le (min (length name) 99) name (omega arith)

-- The first write: the name field holds the name, and the rest of the buffer is zero.
write_name :
    (n : List ℕ)
    → length n ≤ 99
    → copy_at 0 n (zeros client_request_size) ≡ some (padded 100 n ++ (zeros 36 ++ zeros 5))
write_name n h =
    rw (split) (copy_at_seam 0 [] n (zeros (length n)) rest refl (length-zeros (length n)))
    ∙ ap some regroup
  where
    rest : List ℕ
    rest = zeros (100 - length n) ++ (zeros 36 ++ zeros 5)

    total : length n + (100 - length n + (36 + 5)) ≡ 141
    total = omega arith

    split : zeros client_request_size ≡ zeros (length n) ++ rest
    split = sym (
        ap (λ r. zeros (length n) ++ r)
          (ap (λ r. zeros (100 - length n) ++ r) (zeros-append 36 5)
            ∙ zeros-append (100 - length n) (36 + 5))
        ∙ zeros-append (length n) (100 - length n + (36 + 5))
        ∙ ap zeros total)

    regroup : n ++ rest ≡ padded 100 n ++ (zeros 36 ++ zeros 5)
    regroup = sym (append_assoc n (zeros (100 - length n)) (zeros 36 ++ zeros 5))

module _ (U : UuidApi) where
  open U use {Uuid, to_string, parse_str, length-to_string, to_string-IsPlain, parse_str-to_string}

  token_text : Option Uuid → List ℕ
  token_text none = []
  token_text (some u) = to_string u

  write_token-padded :
      (front : List ℕ) (t : Option Uuid)
      → length front ≡ 100
      → write_token U t (front ++ (zeros 36 ++ zeros 5))
        ≡ some (front ++ (padded 37 (token_text t) ++ zeros 4))
  unfolding write_token token_text
  write_token-padded front none h = refl
  write_token-padded front (some u) h =
      copy_at_seam 100 front (to_string u) (zeros 36) (zeros 5) h (sym (length-to_string u))
      ∙ ap some (ap (λ r. front ++ r) tail)
    where
      tail : to_string u ++ zeros 5 ≡ padded 37 (to_string u) ++ zeros 4
      tail = rw (length-to_string u) (sym (append_assoc (to_string u) (zeros 1) (zeros 4)))

  -- The bytes of a request: the name field, the token field and four zero bytes.
  pub encoding : ClientRequest U → List ℕ
  unfolding token_text
  encoding req =
      padded 100 (sent_name req.pairing_name)
      ++ (padded 37 (token_text req.reconnect_token) ++ zeros 4)

  pub to_bytes-encoding : (req : ClientRequest U) → to_bytes U req ≡ some (encoding req)
  unfolding to_bytes encoding
  to_bytes-encoding req = rw (write_name n short) (
      write_token-padded (padded 100 n) req.reconnect_token
        (length-padded 100 n (omega (arith, short))))
    where
      n : List ℕ
      n = sent_name req.pairing_name

      short : length n ≤ 99
      short = omega (arith, length-sent_name req.pairing_name)

  length-token_text : (t : Option Uuid) → length (token_text t) < 37
  unfolding token_text
  length-token_text none = omega arith
  length-token_text (some u) = omega (arith, length-to_string u)

  token_text-IsNonzero : (t : Option Uuid) → All IsNonzero (token_text t)
  unfolding token_text
  token_text-IsNonzero none = tt
  token_text-IsNonzero (some u) =
      All-weaken IsPlain IsNonzero (λ b h. h.0) (to_string u) (to_string-IsPlain u)

  token_text-utf8 : (t : Option Uuid) → is_utf8 (token_text t) ≡ true
  unfolding token_text utf8_from
  token_text-utf8 none = refl
  token_text-utf8 (some u) = is_utf8_plain (to_string u) (to_string-IsPlain u)

  -- A text of some bytes is not empty.
  pub is_empty_of_length : (bs : List ℕ) → 0 < length bs → is_empty bs ≡ false
  is_empty_of_length [] h = absurd (omega arith)
  is_empty_of_length (b ∷ bs) h = refl

  parse_reconnect_token-text : (t : Option Uuid) → parse_reconnect_token U (token_text t) ≡ ok t
  unfolding token_text parse_reconnect_token parse_token
  parse_reconnect_token-text none = refl
  parse_reconnect_token-text (some u) = rw (
    is_empty_of_length (to_string u) (omega (arith, length-to_string u)),
    parse_str-to_string u,
    parse_token,
  )

  pub length-encoding : (req : ClientRequest U) → length (encoding req) ≡ client_request_size
  unfolding encoding
  length-encoding req = omega (
    arith,
    length-append (padded 100 (sent_name req.pairing_name))
        (padded 37 (token_text req.reconnect_token) ++ zeros 4),
    length-append (padded 37 (token_text req.reconnect_token)) (zeros 4),
    length-padded 100 (sent_name req.pairing_name),
    length-padded 37 (token_text req.reconnect_token),
    length-sent_name req.pairing_name,
    length-token_text req.reconnect_token,
  )

  -- What `from_bytes` makes of the sent name, once the fields are split.
  unfoldable pub name_result : List ℕ → Option Uuid → Result (ClientRequest U) ProtocolError
  name_result name t =
      if is_empty name
      then err empty_pairing_name
      else ok (record { pairing_name = name; reconnect_token = t })

  name_slice :
      (req : ClientRequest U) → take 100 (encoding req) ≡ padded 100 (sent_name req.pairing_name)
  unfolding encoding
  name_slice req = take-append_self 100 _ _ (
      length-padded 100 (sent_name req.pairing_name)
        (omega (arith, length-sent_name req.pairing_name)))

  token_slice :
      (req : ClientRequest U)
      → take 37 (drop 100 (encoding req)) ≡ padded 37 (token_text req.reconnect_token)
  unfolding encoding
  token_slice req =
      rw (drop-append_self 100 (padded 100 n) (padded 37 (token_text t) ++ zeros 4) length-n) (
        take-append_self 37 (padded 37 (token_text t)) (zeros 4)
          (length-padded 37 (token_text t) (omega (arith, length-token_text t))))
    where
      t : Option Uuid
      t = req.reconnect_token

      n : List ℕ
      n = sent_name req.pairing_name

      length-n : length (padded 100 n) ≡ 100
      length-n = length-padded 100 n (omega (arith, length-sent_name req.pairing_name))

  token_field :
      (req : ClientRequest U)
      → parse_null_terminated_string (take 37 (drop 100 (encoding req)))
        ≡ ok (token_text req.reconnect_token)
  unfolding from_utf8
  token_field req =
      rw
        (
          token_slice req,
          parse_padded 37 (token_text t) (token_text-IsNonzero t) (length-token_text t),
        )
        (rw (token_text-utf8 t))
    where
      t : Option Uuid
      t = req.reconnect_token

  pub from_bytes-encoding :
      (req : ClientRequest U)
      → All IsNonzero (sent_name req.pairing_name)
      → from_bytes U (encoding req)
        ≡ (from_utf8 (sent_name req.pairing_name) >>= λ name. name_result name req.reconnect_token)
  unfolding from_bytes name_result
  from_bytes-encoding req h = rw (
    length-encoding req,
    name_slice req,
    parse_padded 100 (sent_name req.pairing_name) h
        (omega (arith, length-sent_name req.pairing_name)),
    token_field req,
    parse_reconnect_token-text req.reconnect_token,
  )
