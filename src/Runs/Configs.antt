-- ===== src/Runs/Configs.antt =====
-- Runs of the loading of settings.
use distributed_message_brok.Prelude.{◌*◌, ◌≡◌, [], ◌∷◌, none, some, true, refl, arith, ok}
use distributed_message_brok.Bytes.{Bytes, eq_bytes, lt_i64}
use distributed_message_brok.Config.{
  Config, Variable, flush_mode_variable, Libraries, missing, default_config, async_word, second,
}
use distributed_message_brok.Config.Load.{
  read_file, text_or, number_or, bool_or, override, or_error, validate_addr, check_storage,
  check_observability, check_retention, validate, load,
}
use distributed_message_brok.Config.Valid.{ParsesWords, ValidConfig, load-Valid}

-- Libraries with one answer each.
abbrev libraries : Libraries
libraries = record {
  parse_duration = λ bs. some (604800 * second);
  scan_int = λ bs. none;
  scan_uint = λ bs. none;
  parse_bool = λ bs. none;
  atoi = λ bs. some 50051;
  split_port = λ bs. some (0x35 ∷ 0x30 ∷ []);
  to_lower = λ bs. bs;
}

abbrev environment : Variable → Bytes
environment flush_mode_variable = async_word
environment v = []

abbrev loaded : Config
unfolding default_config
loaded = record default_config {
  broker = record default_config.broker { graceful_shutdown_timeout = 604800 * second };
  storage = record default_config.storage { flush_mode = async_word };
  retention = record default_config.retention { check_interval = 604800 * second };
}

loads : load libraries missing true environment ≡ ok loaded
unfolding loaded default_config read_file text_or number_or bool_or override or_error validate_addr
    check_storage check_observability check_retention validate load lt_i64 eq_bytes
loads = refl

words : ParsesWords libraries
words = record {
  durations = λ bs n e. ground arith;
  ports = λ bs n e. ground arith;
  ints = λ bs n e. cc;
}

load-Valid_example : ValidConfig libraries loaded
load-Valid_example = load-Valid libraries missing true environment loaded words tt loads
