-- ===== src/Config/Checks.antt =====
-- What the checks of the parts of a configuration let through.
use distributed_message_brok.Prelude.{
  ℕ, ◌%◌, ◌^◌, ◌≤◌, ◌<◌, ◌≡◌, ◌≢◌, ◌⊎◌, refl, arith, [], ◌∷◌, Option, none, some, true, not, ok,
}
use distributed_message_brok.Bytes.{Bytes, lt_i64, eq_bytes, eq_bytes_sound}
use distributed_message_brok.Config.{
  StorageConfig, ObservabilityConfig, RetentionConfig, Libraries, sync_word, async_word, debug_word,
  info_word, warn_word, error_word, json_word, text_word, second,
}
use distributed_message_brok.Config.Load.{
  or_error, validate_addr, check_storage, check_observability, check_retention,
}

-- The sizes are int64 patterns.
pub record Words (s : StorageConfig) : Type 0 where
  pub record_lt : s.max_record_bytes < 2 ^ 64
  pub batch_lt : s.max_batch_bytes < 2 ^ 64
  pub segment_lt : s.segment_max_bytes < 2 ^ 64
  pub interval_lt : s.index_interval_bytes < 2 ^ 64

not_empty : (bs : Bytes) → not (eq_bytes bs []) ≡ true → bs ≢ []
unfolding eq_bytes
not_empty [] h e = cc
not_empty (x ∷ xs) h e = cc

-- A record fits a batch, a batch a segment, and an index interval too.
pub record ValidStorage (s : StorageConfig) : Type 0 where
  pub directory : s.data_directory ≢ []
  pub record_positive : 0 < s.max_record_bytes
  pub record_le : s.max_record_bytes ≤ s.max_batch_bytes
  pub batch_le : s.max_batch_bytes ≤ s.segment_max_bytes
  pub segment_lt : s.segment_max_bytes < 2 ^ 63
  pub interval_positive : 0 < s.index_interval_bytes
  pub interval_le : s.index_interval_bytes ≤ s.segment_max_bytes
  pub mode : (s.flush_mode ≡ sync_word) ⊎ (s.flush_mode ≡ async_word)

pub check_storage-Valid :
    (lib : Libraries) (s s' : StorageConfig)
    → Words s
    → check_storage lib s ≡ ok s'
    → ValidStorage s'
unfolding check_storage lt_i64
check_storage-Valid lib s s' w h =
    let mode = lib.to_lower s.flush_mode in
    let one = eq_bytes_sound mode sync_word in
    let two = eq_bytes_sound mode async_word in
    let named = not_empty s.data_directory in
    record {
      directory = ground (arith, named);
      record_positive = ground arith;
      record_le = ground arith;
      batch_le = ground arith;
      segment_lt = ground arith;
      interval_positive = ground arith;
      interval_le = ground arith;
      mode = ground (arith, one, two);
    }

pub record ValidObservability (o : ObservabilityConfig) : Type 0 where
  pub level :
      (o.log_level ≡ debug_word)
      ⊎ ((o.log_level ≡ info_word) ⊎ ((o.log_level ≡ warn_word) ⊎ (o.log_level ≡ error_word)))
  pub form : (o.log_format ≡ json_word) ⊎ (o.log_format ≡ text_word)

pub check_observability-Valid :
    (lib : Libraries) (o o' : ObservabilityConfig)
    → check_observability lib o ≡ ok o'
    → ValidObservability o'
unfolding check_observability
check_observability-Valid lib o o' h =
    let level = lib.to_lower o.log_level in
    let form = lib.to_lower o.log_format in
    let one = eq_bytes_sound level debug_word in
    let two = eq_bytes_sound level info_word in
    let three = eq_bytes_sound level warn_word in
    let four = eq_bytes_sound level error_word in
    let five = eq_bytes_sound form json_word in
    let six = eq_bytes_sound form text_word in
    record { level = ground (arith, one, two, three, four); form = ground (arith, five, six) }

-- Durations are int64 patterns.
abbrev pub Durations : Libraries → Type 0
Durations lib = (bs : Bytes) (n : ℕ) → lib.parse_duration bs ≡ some n → n < 2 ^ 64

-- An age of whole seconds, and intervals of a second or more.
pub record ValidRetention (r : RetentionConfig) : Type 0 where
  pub age_ge : second ≤ r.default_max_age
  pub age_lt : r.default_max_age < 2 ^ 63
  pub age_whole : r.default_max_age % second ≡ 0
  pub interval_ge : second ≤ r.check_interval
  pub interval_lt : r.check_interval < 2 ^ 63
  pub bytes_positive : r.default_max_partition_bytes ≢ 0

pub check_retention-Valid :
    (lib : Libraries) (r r' : RetentionConfig)
    → Durations lib
    → check_retention lib r ≡ ok r'
    → ValidRetention r'
unfolding check_retention lt_i64 or_error
check_retention-Valid lib r r' w h =
    let age_word = w r.default_max_age_str r'.default_max_age in
    let interval_word = w r.check_interval_str r'.check_interval in
    record {
      age_ge = ground arith;
      age_lt = ground arith;
      age_whole = ground arith;
      interval_ge = ground arith;
      interval_lt = ground arith;
      bytes_positive = ground arith;
    }

-- An address with a port.
pub record ValidAddress (lib : Libraries) (address : Bytes) : Type 0 where
  pub port : Bytes
  pub number : ℕ
  pub is_set : address ≢ []
  pub splits : lib.split_port address ≡ some port
  pub is_number : lib.atoi port ≡ some number
  pub number_le : number ≤ 65535

pub validate_addr-Valid :
    (lib : Libraries) (address : Bytes)
    → ((bs : Bytes) (n : ℕ) → lib.atoi bs ≡ some n → n < 2 ^ 64)
    → validate_addr lib address ≡ ok tt
    → ValidAddress lib address
unfolding validate_addr or_error lt_i64
validate_addr-Valid lib address w h = by_port (lib.split_port address) refl
  where
    by_number :
        (port : Bytes) (n : Option ℕ)
        → lib.split_port address ≡ some port
        → lib.atoi port ≡ n
        → ValidAddress lib address
    by_number port none e f = absurd (ground arith)
    by_number port (some n) e f =
        let named = not_empty address in
        let word = w port n f in
        record {
          port = port;
          number = n;
          is_set = ground (arith, named);
          splits = e;
          is_number = f;
          number_le = ground arith;
        }

    by_port : (p : Option Bytes) → lib.split_port address ≡ p → ValidAddress lib address
    by_port none e = absurd (ground arith)
    by_port (some port) e = by_number port (lib.atoi port) e refl
