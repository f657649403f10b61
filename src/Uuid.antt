-- ===== src/Uuid.antt =====
-- The `uuid` crate as the server uses it (server/rust/src/protocol.rs and registry.rs). The crate
-- is not part of the repository: its type, operations and documented behaviour are the fields.
use tcpunch.Base.{ℕ, ◌≡◌, ◌<◌, List, Option, some, length, All}

-- A byte of an ASCII text with no NUL.
abbrev pub IsPlain : ℕ → Type 0
IsPlain b = (0 < b) × (b < 128)

pub record UuidApi : Type 1 where
  pub Uuid : Type 0
  pub uuid_discrete : Discrete Uuid
  pub nil : Uuid
  -- The bytes of the hyphenated form.
  pub to_string : Uuid → List ℕ
  pub parse_str : List ℕ → Option Uuid
  -- The hyphenated form has 36 hexadecimal digits and hyphens, and is read back.
  pub length-to_string : (u : Uuid) → length (to_string u) ≡ 36
  pub to_string-IsPlain : (u : Uuid) → All IsPlain (to_string u)
  pub parse_str-to_string : (u : Uuid) → parse_str (to_string u) ≡ some u
