-- ===== src/Tests/Sample.antt =====
-- A concrete value of each external interface, over which the tests run.
use tcpunch.Base.{
  ℕ, ◌≡◌, refl, some, Option, List, All, length, if◌then◌else◌, arith, replicate, none, ◌∷◌, ◌==◌,
  [],
}
use tcpunch.Uuid.{UuidApi, IsPlain}
use tcpunch.Platform.{Platform}
use tcpunch.Platform.Assoc.{assoc_map}
use tcpunch.Platform.Slots.{slot_channels}
use tcpunch.Protocol.{PeerConnectionData}

-- A few identifiers stand for all.
pub data SampleId : Type 0 where
  zero_id id_a id_b id_c id_d : SampleId

unfoldable pub SampleId-discrete : Discrete SampleId
SampleId-discrete = hlevel

abbrev pub digit : SampleId → ℕ
digit zero_id = b'0'
digit id_a = b'a'
digit id_b = b'b'
digit id_c = b'c'
digit id_d = b'd'

-- The same digit 36 times.
abbrev pub sample_text : SampleId → List ℕ
sample_text u = replicate 36 (digit u)

abbrev pub parse_digit : ℕ → Option SampleId
parse_digit d =
    if d == b'0'
    then some zero_id
    else if d == b'a'
    then some id_a
    else if d == b'b'
    then some id_b
    else if d == b'c'
    then some id_c
    else if d == b'd'
    then some id_d
    else none

abbrev pub parse_sample : List ℕ → Option SampleId
parse_sample [] = none
parse_sample (d ∷ ds) = if length ds == 35 then parse_digit d else none

pub sample_text-IsPlain : (u : SampleId) → All IsPlain (sample_text u)
sample_text-IsPlain zero_id = omega arith
sample_text-IsPlain id_a = omega arith
sample_text-IsPlain id_b = omega arith
sample_text-IsPlain id_c = omega arith
sample_text-IsPlain id_d = omega arith

pub length-sample_text : (u : SampleId) → length (sample_text u) ≡ 36
length-sample_text u = refl

pub parse_sample-text : (u : SampleId) → parse_sample (sample_text u) ≡ some u
parse_sample-text zero_id = refl
parse_sample-text id_a = refl
parse_sample-text id_b = refl
parse_sample-text id_c = refl
parse_sample-text id_d = refl

abbrev pub sample_uuid : UuidApi
sample_uuid = record {
  Uuid = SampleId;
  uuid_discrete = SampleId-discrete;
  nil = zero_id;
  to_string = sample_text;
  parse_str = parse_sample;
  length-to_string = length-sample_text;
  to_string-IsPlain = sample_text-IsPlain;
  parse_str-to_string = parse_sample-text;
}

abbrev pub sample_platform : Platform PeerConnectionData
sample_platform = record {
  uuid = sample_uuid;
  oneshot = slot_channels PeerConnectionData;
  dashmap = assoc_map;
  DateTime = ℕ;
}
