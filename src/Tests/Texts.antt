-- ===== src/Tests/Texts.antt =====
-- A name and two addresses.
use tcpunch.Base.{ℕ, List, [], ◌∷◌}
use tcpunch.Protocol.{PeerConnectionData}

abbrev pub lobby : List ℕ
lobby = b'l' ∷ b'o' ∷ b'b' ∷ b'b' ∷ b'y' ∷ []

abbrev pub host : PeerConnectionData
host = record { ip = record { a = 192; b = 168; c = 1; d = 100 }; port = 12345 }

abbrev pub guest : PeerConnectionData
guest = record { ip = record { a = 10; b = 0; c = 0; d = 50 }; port = 54321 }
