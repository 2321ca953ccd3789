-- ===== src/Startup.antt =====
-- cmd/skylock/main.go: the flags over the configuration, the helpers, and the server that is started. A
-- string that is split is valid UTF-8, where a comma is one byte and no byte of another character.
pub mod Peers
pub mod Addresses
use sky_lock.Common.{
  ℕ, zero, suc, ◌+◌, ◌/◌, ◌%◌, ◌==◌, List, [], ◌∷◌, ◌++◌, Text, text, str_eq, if◌then◌else◌, Option,
  none, some, Result, ok, err, ℤ, pos, negsuc,
}
use sky_lock.Config.{Config, load}
use sky_lock.Raft.Node.{Node, new_node}
use sky_lock.Transport.{Transport, new_transport, set_raft_node}
use sky_lock.Wiring.{System, boot}

-- The flags; an empty string or 0 is a flag that is not given.
pub record Flags : Type 0 where
  pub config_file : Text
  pub node_id : Text
  pub grpc_port : ℤ
  pub http_port : ℤ
  pub peers : Text

-- `current` has the characters since the last comma.
unfoldable pub collect : Text → List Text → Text → List Text
collect current result [] = if str_eq current [] then result else result ++ current ∷ []
collect current result (c ∷ cs) =
    let past = collect [] (result ++ current ∷ []) cs in
    let skipped = collect current result cs in
    let more = collect (current ++ c ∷ []) result cs in
    if c == b',' then if str_eq current [] then skipped else past else more

unfoldable pub split_peers : Text → List Text
unfolding collect
split_peers peers = if str_eq peers [] then [] else collect [] [] peers

-- The loop of `itoa`, which does not run for a number that is not positive.
unfoldable pub decimal_loop : ℕ → ℕ → Text → Text
decimal_loop zero n result = result
decimal_loop (suc fuel) n result =
    let rest = decimal_loop fuel (n / 10) ((b'0' + n % 10) ∷ result) in
    if n == 0 then result else rest

unfoldable pub decimal : ℤ → Text
unfolding decimal_loop
decimal (pos n) = if n == 0 then text "0" else decimal_loop n n []
decimal (negsuc n) = []

unfoldable pub format_addr : ℤ → Text
unfolding decimal
format_addr port = text ":" ++ decimal port

-- A port that is given by its flag, or the one of the configuration.
abbrev given : ℤ → ℤ → ℤ
given (pos zero) port = port
given (pos (suc n)) port = pos (suc n)
given (negsuc n) port = negsuc n

unfoldable pub override : Flags → Config → Config
unfolding split_peers
override flags cfg =
    let cluster = cfg.cluster in
    let server = cfg.server in
    record cfg {
      cluster = record {
        node_id = if str_eq flags.node_id [] then cluster.node_id else flags.node_id;
        peers = if str_eq flags.peers [] then cluster.peers else split_peers flags.peers;
      };
      server = record {
        grpc_port = given flags.grpc_port server.grpc_port;
        http_port = given flags.http_port server.http_port;
      };
    }

-- What `main` has made when it starts the listeners, with the addresses that they get.
pub record Server {ℓ} (C : Type ℓ) : Type ℓ where
  pub transport : Transport C
  pub raft_node : Node
  pub system : System
  pub grpc_addr : Text
  pub http_addr : Text

unfoldable pub start {ℓ} : {C : Type ℓ} → Config → ℕ → Server C
unfolding format_addr
start cfg now =
    let node = new_node cfg.cluster.node_id cfg.cluster.peers cfg.raft in
    record {
      transport = set_raft_node node new_transport;
      raft_node = node;
      system = boot cfg.session.default_ttl cfg.session.max_ttl now;
      grpc_addr = format_addr cfg.server.grpc_port;
      http_addr = format_addr cfg.server.http_port;
    }

-- `main` up to the start of its listeners; an error ends the process.
module _ {ℓ κ} {F : Type ℓ} {C : Type κ} (read : Text → Result Text F)
    (unmarshal : F → Config → Result Text Config) where
  unfoldable pub launch : Flags → ℕ → Result Text (Server C)
  unfolding override
  launch flags now = elim (load read unmarshal flags.config_file) [
    | err e ↦ err e
    | ok cfg ↦ ok (start (override flags cfg) now)
  ]
