-- ===== src/Config.antt =====
-- The settings of the broker: internal/config/config.go.
pub mod Load
pub mod Checks
pub mod Valid
use distributed_message_brok.Prelude.{ℕ, ◌*◌, ◌^◌, [], ◌∷◌, Option, Bool, true, false}
use distributed_message_brok.Bytes.{Bytes}

-- Go's int and int64 are 64-bit patterns, a time.Duration is one in nanoseconds.
pub record BrokerConfig : Type 0 where
  pub grpc_address : Bytes
  pub http_address : Bytes
  pub graceful_shutdown_timeout : ℕ
  pub shutdown_timeout_str : Bytes

pub record StorageConfig : Type 0 where
  pub data_directory : Bytes
  pub max_record_bytes : ℕ
  pub max_batch_bytes : ℕ
  pub segment_max_bytes : ℕ
  pub index_interval_bytes : ℕ
  pub flush_mode : Bytes

pub record ObservabilityConfig : Type 0 where
  pub log_level : Bytes
  pub log_format : Bytes
  pub metrics_enabled : Bool
  pub pprof_enabled : Bool
  pub mutex_profile_fraction : ℕ
  pub block_profile_rate : ℕ

pub record RetentionConfig : Type 0 where
  pub default_max_age_str : Bytes
  pub default_max_partition_bytes : ℕ
  pub check_interval_str : Bytes
  pub default_max_age : ℕ
  pub check_interval : ℕ

pub record Config : Type 0 where
  pub broker : BrokerConfig
  pub storage : StorageConfig
  pub retention : RetentionConfig
  pub observability : ObservabilityConfig

-- Each error of Load, by what it is about.
pub data ConfigError : Type 0 where
  open_file parse_yaml metrics_variable pprof_variable : ConfigError
  empty_address bad_address bad_port : ConfigError
  bad_timeout timeout_not_positive empty_directory record_not_positive batch_below_record :
      ConfigError
  segment_not_positive segment_below_batch interval_not_positive interval_above_segment :
      ConfigError
  bad_flush_mode bad_log_level bad_log_format : ConfigError
  bad_max_age short_max_age broken_max_age bad_check_interval short_check_interval : ConfigError
  no_partition_bytes : ConfigError

-- The variables that Load reads.
pub data Variable : Type 0 where
  grpc_address_variable shutdown_timeout_variable data_directory_variable : Variable
  max_record_bytes_variable max_batch_bytes_variable segment_max_bytes_variable : Variable
  index_interval_bytes_variable flush_mode_variable log_level_variable log_format_variable :
      Variable
  retention_max_age_variable retention_max_partition_bytes_variable : Variable
  retention_check_interval_variable http_address_variable metrics_enabled_variable : Variable
  pprof_enabled_variable mutex_profile_fraction_variable block_profile_rate_variable : Variable

-- What the libraries do: time.ParseDuration, Sscanf of "%d" into an int or int64 and into a uint64,
-- strconv.ParseBool and Atoi, the port of net.SplitHostPort, strings.ToLower. `none` is an error.
pub record Libraries : Type 0 where
  pub parse_duration : Bytes → Option ℕ
  pub scan_int : Bytes → Option ℕ
  pub scan_uint : Bytes → Option ℕ
  pub parse_bool : Bytes → Option Bool
  pub atoi : Bytes → Option ℕ
  pub split_port : Bytes → Option Bytes
  pub to_lower : Bytes → Bytes

-- What Load finds at its path: no path, a file with what the YAML decoder makes of the defaults, no
-- file, or another error of os.Open.
pub data ConfigFile : Type 0 where
  no_path missing unreadable : ConfigFile
  opened : (Config → Option Config) → ConfigFile

-- "sync", "async", "debug", "info", "warn", "error", "json" and "text".
abbrev pub sync_word : Bytes
sync_word = 0x73 ∷ 0x79 ∷ 0x6E ∷ 0x63 ∷ []

abbrev pub async_word : Bytes
async_word = 0x61 ∷ 0x73 ∷ 0x79 ∷ 0x6E ∷ 0x63 ∷ []

abbrev pub debug_word : Bytes
debug_word = 0x64 ∷ 0x65 ∷ 0x62 ∷ 0x75 ∷ 0x67 ∷ []

abbrev pub info_word : Bytes
info_word = 0x69 ∷ 0x6E ∷ 0x66 ∷ 0x6F ∷ []

abbrev pub warn_word : Bytes
warn_word = 0x77 ∷ 0x61 ∷ 0x72 ∷ 0x6E ∷ []

abbrev pub error_word : Bytes
error_word = 0x65 ∷ 0x72 ∷ 0x72 ∷ 0x6F ∷ 0x72 ∷ []

abbrev pub json_word : Bytes
json_word = 0x6A ∷ 0x73 ∷ 0x6F ∷ 0x6E ∷ []

abbrev pub text_word : Bytes
text_word = 0x74 ∷ 0x65 ∷ 0x78 ∷ 0x74 ∷ []

abbrev pub second : ℕ
second = 10 ^ 9

-- DefaultConfig
unfoldable pub default_config : Config
default_config = record {
  broker = record {
    -- "localhost:50051" and "localhost:9093"
    grpc_address =
        0x6C ∷ 0x6F ∷ 0x63 ∷ 0x61 ∷ 0x6C ∷ 0x68 ∷ 0x6F ∷ 0x73 ∷ 0x74 ∷ 0x3A ∷ 0x35 ∷ 0x30 ∷ 0x30
        ∷ 0x35 ∷ 0x31 ∷ [];
    http_address =
        0x6C ∷ 0x6F ∷ 0x63 ∷ 0x61 ∷ 0x6C ∷ 0x68 ∷ 0x6F ∷ 0x73 ∷ 0x74 ∷ 0x3A ∷ 0x39 ∷ 0x30 ∷ 0x39
        ∷ 0x33 ∷ [];
    graceful_shutdown_timeout = 0;
    -- "15s"
    shutdown_timeout_str = 0x31 ∷ 0x35 ∷ 0x73 ∷ [];
  };
  storage = record {
    -- "./data"
    data_directory = 0x2E ∷ 0x2F ∷ 0x64 ∷ 0x61 ∷ 0x74 ∷ 0x61 ∷ [];
    max_record_bytes = 1048576;
    max_batch_bytes = 5242880;
    segment_max_bytes = 134217728;
    index_interval_bytes = 4096;
    flush_mode = sync_word;
  };
  retention = record {
    -- "168h" and "5m"
    default_max_age_str = 0x31 ∷ 0x36 ∷ 0x38 ∷ 0x68 ∷ [];
    default_max_partition_bytes = 10737418240;
    check_interval_str = 0x35 ∷ 0x6D ∷ [];
    default_max_age = 168 * 3600 * second;
    check_interval = 5 * 60 * second;
  };
  observability = record {
    log_level = info_word;
    log_format = json_word;
    metrics_enabled = true;
    pprof_enabled = false;
    mutex_profile_fraction = 0;
    block_profile_rate = 0;
  };
}
