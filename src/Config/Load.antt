-- ===== src/Config/Load.antt =====
-- Load and validateAddr of internal/config/config.go.
use distributed_message_brok.Prelude.{
  ℕ, ◌%◌, [], ◌∷◌, Option, none, some, Bool, not, ◌&&◌, ◌||◌, ◌==◌, if◌then◌else◌, Result, ok, err,
  ◌>>=◌, ◌>>◌, ensure,
}
use distributed_message_brok.Bytes.{Bytes, lt_i64, eq_bytes}
use distributed_message_brok.Config.{
  StorageConfig, ObservabilityConfig, RetentionConfig, Config, ConfigError, open_file, parse_yaml,
  metrics_variable, pprof_variable, empty_address, bad_address, bad_port, bad_timeout,
  timeout_not_positive, empty_directory, record_not_positive, batch_below_record,
  segment_not_positive, segment_below_batch, interval_not_positive, interval_above_segment,
  bad_flush_mode, bad_log_level, bad_log_format, bad_max_age, short_max_age, broken_max_age,
  bad_check_interval, short_check_interval, no_partition_bytes, Variable, grpc_address_variable,
  shutdown_timeout_variable, data_directory_variable, max_record_bytes_variable,
  max_batch_bytes_variable, segment_max_bytes_variable, index_interval_bytes_variable,
  flush_mode_variable, log_level_variable, log_format_variable, retention_max_age_variable,
  retention_max_partition_bytes_variable, retention_check_interval_variable, http_address_variable,
  metrics_enabled_variable, pprof_enabled_variable, mutex_profile_fraction_variable,
  block_profile_rate_variable, Libraries, ConfigFile, no_path, missing, unreadable, opened,
  default_config, sync_word, async_word, debug_word, info_word, warn_word, error_word, json_word,
  text_word, second,
}

-- The first part of Load. `is_default` says that the path is ./config/config.yaml, which may be missing.
unfoldable pub read_file : ConfigFile → Bool → Config → Result ConfigError Config
read_file no_path is_default cfg = ok cfg
read_file missing is_default cfg = if is_default then ok cfg else err open_file
read_file unreadable is_default cfg = err open_file
read_file (opened decode) is_default cfg = elim (decode cfg) [
  | none ↦ err parse_yaml
  | some c ↦ ok c
]

-- `if val != "" { … = val }`
unfoldable pub text_or : Bytes → Bytes → Bytes
text_or [] current = current
text_or (b ∷ bs) current = b ∷ bs

-- The same for a number that Sscanf reads; its error is ignored.
unfoldable pub number_or : (Bytes → Option ℕ) → Bytes → ℕ → ℕ
number_or scan [] current = current
number_or scan (b ∷ bs) current = elim (scan (b ∷ bs)) [ none ↦ current | some n ↦ n ]

-- And for ParseBool, whose error is returned.
unfoldable pub bool_or :
    (Bytes → Option Bool) → ConfigError → Bytes → Bool → Result ConfigError Bool
bool_or parse e [] current = ok current
bool_or parse e (b ∷ bs) current = elim (parse (b ∷ bs)) [ none ↦ err e | some v ↦ ok v ]

-- The second part of Load. Only the two Booleans can fail, so the order of the rest does not show.
unfoldable pub override : Libraries → (Variable → Bytes) → Config → Result ConfigError Config
unfolding text_or number_or bool_or
override lib env cfg = do
  metrics ←
      bool_or lib.parse_bool metrics_variable (env metrics_enabled_variable)
        cfg.observability.metrics_enabled
  pprof ←
      bool_or lib.parse_bool pprof_variable (env pprof_enabled_variable)
        cfg.observability.pprof_enabled
  ok (record {
    broker = record cfg.broker {
      grpc_address = text_or (env grpc_address_variable) cfg.broker.grpc_address;
      http_address = text_or (env http_address_variable) cfg.broker.http_address;
      shutdown_timeout_str =
          text_or (env shutdown_timeout_variable) cfg.broker.shutdown_timeout_str;
    };
    storage = record {
      data_directory = text_or (env data_directory_variable) cfg.storage.data_directory;
      max_record_bytes =
          number_or lib.scan_int (env max_record_bytes_variable) cfg.storage.max_record_bytes;
      max_batch_bytes =
          number_or lib.scan_int (env max_batch_bytes_variable) cfg.storage.max_batch_bytes;
      segment_max_bytes =
          number_or lib.scan_int (env segment_max_bytes_variable) cfg.storage.segment_max_bytes;
      index_interval_bytes =
          number_or lib.scan_int (env index_interval_bytes_variable)
            cfg.storage.index_interval_bytes;
      flush_mode = text_or (env flush_mode_variable) cfg.storage.flush_mode;
    };
    retention = record cfg.retention {
      default_max_age_str =
          text_or (env retention_max_age_variable) cfg.retention.default_max_age_str;
      default_max_partition_bytes =
          number_or lib.scan_uint (env retention_max_partition_bytes_variable)
            cfg.retention.default_max_partition_bytes;
      check_interval_str =
          text_or (env retention_check_interval_variable) cfg.retention.check_interval_str;
    };
    observability = record {
      log_level = text_or (env log_level_variable) cfg.observability.log_level;
      log_format = text_or (env log_format_variable) cfg.observability.log_format;
      metrics_enabled = metrics;
      pprof_enabled = pprof;
      mutex_profile_fraction =
          number_or lib.scan_int (env mutex_profile_fraction_variable)
            cfg.observability.mutex_profile_fraction;
      block_profile_rate =
          number_or lib.scan_int (env block_profile_rate_variable)
            cfg.observability.block_profile_rate;
    };
  })

unfoldable pub or_error : {A : Type 0} → ConfigError → Option A → Result ConfigError A
or_error e none = err e
or_error e (some a) = ok a

-- validateAddr
unfoldable pub validate_addr : Libraries → Bytes → Result ConfigError (Unit {0})
unfolding or_error
validate_addr lib address = do
  ensure (not (eq_bytes address [])) empty_address
  port ← or_error bad_address (lib.split_port address)
  n ← or_error bad_port (lib.atoi port)
  ensure (not (lt_i64 n 0) && not (lt_i64 65535 n)) bad_port

-- The checks of the storage settings.
unfoldable pub check_storage : Libraries → StorageConfig → Result ConfigError StorageConfig
check_storage lib s = do
  ensure (not (eq_bytes s.data_directory [])) empty_directory
  ensure (lt_i64 0 s.max_record_bytes) record_not_positive
  ensure (not (lt_i64 s.max_batch_bytes s.max_record_bytes)) batch_below_record
  ensure (lt_i64 0 s.segment_max_bytes) segment_not_positive
  ensure (not (lt_i64 s.segment_max_bytes s.max_batch_bytes)) segment_below_batch
  ensure (lt_i64 0 s.index_interval_bytes) interval_not_positive
  ensure (not (lt_i64 s.segment_max_bytes s.index_interval_bytes)) interval_above_segment
  let mode = lib.to_lower s.flush_mode
  ensure (eq_bytes mode sync_word || eq_bytes mode async_word) bad_flush_mode
  ok (record s { flush_mode = mode })

unfoldable pub check_observability :
    Libraries → ObservabilityConfig → Result ConfigError ObservabilityConfig
check_observability lib o = do
  let level = lib.to_lower o.log_level
  ensure
      (eq_bytes level debug_word
        || (eq_bytes level info_word || (eq_bytes level warn_word || eq_bytes level error_word)))
      bad_log_level
  let form = lib.to_lower o.log_format
  ensure (eq_bytes form json_word || eq_bytes form text_word) bad_log_format
  ok (record o { log_level = level; log_format = form })

-- The checks of the retention settings; the remainder is taken of a duration of a second or more.
unfoldable pub check_retention : Libraries → RetentionConfig → Result ConfigError RetentionConfig
unfolding or_error
check_retention lib r = do
  max_age ← or_error bad_max_age (lib.parse_duration r.default_max_age_str)
  ensure (not (lt_i64 max_age second)) short_max_age
  ensure (max_age % second == 0) broken_max_age
  interval ← or_error bad_check_interval (lib.parse_duration r.check_interval_str)
  ensure (not (lt_i64 interval second)) short_check_interval
  ensure (not (r.default_max_partition_bytes == 0)) no_partition_bytes
  ok (record r { default_max_age = max_age; check_interval = interval })

-- The third part of Load.
unfoldable pub validate : Libraries → Config → Result ConfigError Config
unfolding or_error
validate lib cfg = do
  validate_addr lib cfg.broker.grpc_address
  validate_addr lib cfg.broker.http_address
  timeout ← or_error bad_timeout (lib.parse_duration cfg.broker.shutdown_timeout_str)
  ensure (lt_i64 0 timeout) timeout_not_positive
  storage ← check_storage lib cfg.storage
  observability ← check_observability lib cfg.observability
  retention ← check_retention lib cfg.retention
  ok (record {
    broker = record cfg.broker { graceful_shutdown_timeout = timeout };
    storage = storage;
    retention = retention;
    observability = observability;
  })

-- Load
unfoldable pub load : Libraries → ConfigFile → Bool → (Variable → Bytes) → Result ConfigError Config
load lib file is_default env = do
  read ← read_file file is_default default_config
  overridden ← override lib env read
  validate lib overridden
