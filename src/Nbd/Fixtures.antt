-- ===== src/Nbd/Fixtures.antt =====
-- A server and a backend for the examples of nbd.go.
use wii_bridge.Common.{ℕ, ◌+◌, Bool, true, false, none, List, [], ◌∷◌, length, replicate}
use wii_bridge.Nbd.{Backend, Server}

abbrev pub server : Server
server = record { export_name = 119 ∷ []; max_request = 1024 }

-- A backend of 4096 bytes that logs the end of each range it is asked for.
abbrev pub logging : Bool → Backend (List ℕ)
logging immutable = record {
  size = 4096;
  read_only = immutable;
  writable = true;
  read_at = λ n off s. ((replicate n 7, n, false), (off + n) ∷ s);
  write_at = λ payload off s. ((length payload, none), (off + length payload) ∷ s);
  sync = λ s. (false, s);
}
