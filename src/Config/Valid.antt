-- ===== src/Config/Valid.antt =====
-- What a configuration that Load returns satisfies.
use distributed_message_brok.Prelude.{
  ℕ, ◌^◌, ◌<◌, ◌≡◌, refl, arith, [], ◌∷◌, Option, none, some, Bool, ok, >>=-eq-ok,
}
use distributed_message_brok.Bytes.{Bytes, lt_i64}
use distributed_message_brok.Config.{
  Config, Variable, max_record_bytes_variable, max_batch_bytes_variable, segment_max_bytes_variable,
  index_interval_bytes_variable, Libraries, ConfigFile, no_path, missing, unreadable, opened,
  default_config,
}
use distributed_message_brok.Config.Load.{read_file, number_or, override, or_error, validate, load}
use distributed_message_brok.Config.Checks.{
  Words, ValidStorage, check_storage-Valid, ValidObservability, check_observability-Valid,
  Durations, ValidRetention, check_retention-Valid, ValidAddress, validate_addr-Valid,
}

-- What the number parsers return are 64-bit words.
pub record ParsesWords (lib : Libraries) : Type 0 where
  pub durations : Durations lib
  pub ports : (bs : Bytes) (n : ℕ) → lib.atoi bs ≡ some n → n < 2 ^ 64
  pub ints : (bs : Bytes) (n : ℕ) → lib.scan_int bs ≡ some n → n < 2 ^ 64

-- And so are the sizes that the YAML decoder sets.
abbrev pub DecodesWords : ConfigFile → Type 0
DecodesWords no_path = Unit
DecodesWords missing = Unit
DecodesWords unreadable = Unit
DecodesWords (opened decode) = (c : Config) → decode default_config ≡ some c → Words c.storage

pub record ValidConfig (lib : Libraries) (cfg : Config) : Type 0 where
  pub grpc : ValidAddress lib cfg.broker.grpc_address
  pub http : ValidAddress lib cfg.broker.http_address
  pub timeout_positive : 0 < cfg.broker.graceful_shutdown_timeout
  pub timeout_lt : cfg.broker.graceful_shutdown_timeout < 2 ^ 63
  pub storage : ValidStorage cfg.storage
  pub observability : ValidObservability cfg.observability
  pub retention : ValidRetention cfg.retention

validate-Valid :
    (lib : Libraries) (cfg cfg' : Config)
    → ParsesWords lib
    → Words cfg.storage
    → validate lib cfg ≡ ok cfg'
    → ValidConfig lib cfg'
unfolding validate or_error lt_i64
validate-Valid lib cfg cfg' p w h =
    let a = validate_addr-Valid lib cfg.broker.grpc_address p.ports in
    let b = validate_addr-Valid lib cfg.broker.http_address p.ports in
    let c = check_storage-Valid lib cfg.storage cfg'.storage w in
    let d = check_observability-Valid lib cfg.observability cfg'.observability in
    let e = check_retention-Valid lib cfg.retention cfg'.retention p.durations in
    let t = p.durations cfg.broker.shutdown_timeout_str cfg'.broker.graceful_shutdown_timeout in
    record {
      grpc = ground (arith, a);
      http = ground (arith, b);
      timeout_positive = ground arith;
      timeout_lt = ground (arith, t);
      storage = ground (arith, c);
      observability = ground (arith, d);
      retention = ground (arith, e);
    }

number_or-lt :
    (scan : Bytes → Option ℕ) (bs : Bytes) (current : ℕ)
    → ((n : ℕ) → scan bs ≡ some n → n < 2 ^ 64)
    → current < 2 ^ 64
    → number_or scan bs current < 2 ^ 64
unfolding number_or
number_or-lt scan [] current w h = h
number_or-lt scan (b ∷ bs) current w h = by_result (scan (b ∷ bs)) refl
  where
    by_result :
        (o : Option ℕ)
        → scan (b ∷ bs) ≡ o
        → (elim o as (λ x. ℕ) [ none ↦ current | some n ↦ n ]) < 2 ^ 64
    by_result none e = h
    by_result (some n) e = w n e

override-Words :
    (lib : Libraries) (env : Variable → Bytes) (cfg cfg' : Config)
    → ParsesWords lib
    → Words cfg.storage
    → override lib env cfg ≡ ok cfg'
    → Words cfg'.storage
unfolding override
override-Words lib env cfg cfg' p w h =
    let word : (v : Variable) (n : ℕ) → n < 2 ^ 64 → number_or lib.scan_int (env v) n < 2 ^ 64 =
      λ v n lt. number_or-lt lib.scan_int (env v) n (p.ints (env v)) lt in
    let a = word max_record_bytes_variable cfg.storage.max_record_bytes w.record_lt in
    let b = word max_batch_bytes_variable cfg.storage.max_batch_bytes w.batch_lt in
    let c = word segment_max_bytes_variable cfg.storage.segment_max_bytes w.segment_lt in
    let d = word index_interval_bytes_variable cfg.storage.index_interval_bytes w.interval_lt in
    record {
      record_lt = ground (arith, a);
      batch_lt = ground (arith, b);
      segment_lt = ground (arith, c);
      interval_lt = ground (arith, d);
    }

read_file-Words :
    (file : ConfigFile) (is_default : Bool) (cfg : Config)
    → DecodesWords file
    → read_file file is_default default_config ≡ ok cfg
    → Words cfg.storage
unfolding read_file default_config
read_file-Words no_path d cfg w h = record {
  record_lt = ground arith;
  batch_lt = ground arith;
  segment_lt = ground arith;
  interval_lt = ground arith;
}
read_file-Words missing d cfg w h = record {
  record_lt = ground arith;
  batch_lt = ground arith;
  segment_lt = ground arith;
  interval_lt = ground arith;
}
read_file-Words unreadable d cfg w h = cc
read_file-Words (opened decode) d cfg w h = let c = w cfg in ground (arith, c)

-- Every configuration that Load returns is valid, whatever the file and the environment hold: both
-- addresses have a port up to 65535; a record fits the limit of a batch, a batch and an index interval
-- that of a segment, all above zero; the modes are known ones in lower case; the timeout is above zero;
-- the maximum age is a whole number of seconds above zero, the check interval a second or more, and the
-- partition limit is not zero. The number parsers and the decoder give 64-bit words.
pub load-Valid :
    (lib : Libraries) (file : ConfigFile) (is_default : Bool) (env : Variable → Bytes)
    (cfg : Config)
    → ParsesWords lib
    → DecodesWords file
    → load lib file is_default env ≡ ok cfg
    → ValidConfig lib cfg
unfolding load
load-Valid lib file is_default env cfg p w h =
    let (c, read, rest) = >>=-eq-ok (read_file file is_default default_config) _ h in
    let (c', overridden, valid) = >>=-eq-ok (override lib env c) (validate lib) rest in
    validate-Valid lib c' cfg p
      (override-Words lib env c c' p (read_file-Words file is_default c w read) overridden) valid
