-- ===== src/Config.antt =====
-- internal/config/config.go. A duration is its number of nanoseconds, and those of raft are not
-- negative. What viper does is a parameter:
-- reading a file, and writing what the file sets over a configuration.
use sky_lock.Common.{
  ℤ, pos, ℕ, ◌*◌, Bool, false, List, [], Text, text, str_eq, if◌then◌else◌, Result, ok, err,
}
use sky_lock.Raft.Node.{RaftConfig}

pub record ClusterConfig : Type 0 where
  pub node_id : Text
  pub peers : List Text

pub record ServerConfig : Type 0 where
  pub grpc_port : ℤ
  pub http_port : ℤ

pub record SessionConfig : Type 0 where
  pub default_ttl : ℤ
  pub max_ttl : ℤ

pub record StorageConfig : Type 0 where
  pub data_dir : Text
  pub wal_enabled : Bool
  pub snapshot_interval : ℤ

pub record Config : Type 0 where
  pub cluster : ClusterConfig
  pub server : ServerConfig
  pub raft : RaftConfig
  pub session : SessionConfig
  pub storage : StorageConfig

abbrev millisecond : ℕ
millisecond = 1000000

abbrev second : ℕ
second = 1000000000

unfoldable pub default_config : Config
default_config = record {
  cluster = record { node_id = text "node-1"; peers = [] };
  server = record { grpc_port = pos 5001; http_port = pos 8080 };
  raft = record {
    election_timeout_min = 150 * millisecond;
    election_timeout_max = 300 * millisecond;
    heartbeat_interval = 50 * millisecond;
  };
  session = record { default_ttl = pos (10 * second); max_ttl = pos (60 * second) };
  storage = record {
    data_dir = text "./data";
    wal_enabled = false;
    snapshot_interval = pos (300 * second);
  };
}

-- `F` is what viper has read of a file.
module _ {ℓ} {F : Type ℓ} (read : Text → Result Text F)
    (unmarshal : F → Config → Result Text Config) where
  unfoldable pub load : Text → Result Text Config
  unfolding default_config
  load config_path =
      if str_eq config_path []
      then ok default_config
      else elim (read config_path) [ err e ↦ err e | ok file ↦ unmarshal file default_config ]
