-- ===== src/Node.antt =====
-- `vex_peer_t` and `vex_node_t` of src/vex.h: the state of a node.
-- A `char` array that holds a text is the text's bytes. The `int` flags are Booleans; no code gives
-- them another value than 0 and 1. An `int` that may be negative is an integer.
use vexconnect.Prelude.{ℕ, ◌+◌, ◌%◌, ◌^◌, List, Bool}
use vexconnect.Prelude.Int.{ℤ}
use vexconnect.Seen.{Cache}

abbrev pub max_peers : ℕ
max_peers = 32

pub record Peer : Type 0 where
  pub fd : ℤ
  pub name : List ℕ
  pub pubkey : List ℕ
  pub active : Bool
  pub rssi : ℤ
  pub last_seen : ℕ

pub record Node : Type 0 where
  pub sign_pk : List ℕ
  pub sign_sk : List ℕ
  pub box_pk : List ℕ
  pub box_sk : List ℕ
  pub node_name : List ℕ
  pub mesh_key : List ℕ
  pub peers : List Peer
  pub peer_count : ℤ
  pub seen : Cache
  pub packets_sent : ℕ
  pub packets_received : ℕ
  pub packets_relayed : ℕ
  pub packets_dropped : ℕ
  pub started_at : ℕ
  pub default_ttl : ℕ
  pub scan_interval : ℕ
  pub relay_enabled : Bool
  pub lora_enabled : Bool
  pub running : Bool
  pub listen_fd : ℤ

-- `++` on a `uint64_t`
abbrev pub count_up : ℕ → ℕ
count_up n = (n + 1) % 2 ^ 64
