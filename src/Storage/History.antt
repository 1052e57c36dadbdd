-- ===== src/Storage/History.antt =====
-- A store over its whole life: created in an empty directory, appended to, trimmed by retention.
use distributed_message_brok.Prelude.{
  ℕ, ◌+◌, ◌^◌, ◌≤◌, ◌<◌, ◌≡◌, refl, sym, ap, ◌∙◌, List, [], ◌∷◌, ◌++◌, append_assoc, true, arith,
  All-map, length, ok, some,
}
use distributed_message_brok.Bytes.{Bytes, Checksum}
use distributed_message_brok.Model.{Record, StoredRecord}
use distributed_message_brok.Storage.{Store}
use distributed_message_brok.Storage.SegmentFile.{new_segment}
use distributed_message_brok.Storage.Recover.{
  Settings, store_of, open_store, open_sorted, sort_files,
}
use distributed_message_brok.Storage.Batches.{content, records_of}
use distributed_message_brok.Storage.Append.{AppendIo, stored_records, append}
use distributed_message_brok.Storage.Assign.{append-Assigned}
use distributed_message_brok.Storage.Read.{read}
use distributed_message_brok.Storage.Select.{select, select-append}
use distributed_message_brok.Storage.Fetch.{Held}
use distributed_message_brok.Storage.Log.{log_records}
use distributed_message_brok.Storage.Refine.{read-select}
use distributed_message_brok.Storage.Retention.{RetentionIo, apply_retention}
use distributed_message_brok.Storage.Consistent.{Whole, Consistent-StoreHolds}
use distributed_message_brok.Storage.Grow.{Fresh, Logs}
use distributed_message_brok.Storage.Keep.{append-Logs}
use distributed_message_brok.Storage.Trim.{Kept, Kept-refl, Kept-trans, apply_retention-Kept}

-- A store and all the records ever appended to it, in order. An Append is one that returned offsets,
-- under the conditions that keep its offsets, times and sizes in range, and with a rollover that finds
-- the files of its new segment empty.
pub data History (crc : Checksum) : Store → List StoredRecord → Type 0 where
  created :
      (cfg : Settings) (index : Bytes) (s : Store)
      → open_store crc cfg (some index) [] ≡ ok s
      → History crc s []
  appended :
      (io : AppendIo) (rs : List Record) (s : Store) (recs : List StoredRecord) (q : ℕ × ℕ)
      → s.max_batch_bytes < 2 ^ 31
      → io.now < 2 ^ 63
      → s.log_end_offset + length rs < 2 ^ 64
      → Fresh io.new_files
      → (append crc io rs s).1 ≡ ok q
      → History crc s recs
      → History crc (append crc io rs s).0 (recs ++ stored_records s.log_end_offset io.now rs)
  trimmed :
      (io : RetentionIo) (now max_age limit : ℕ) (s : Store) (recs : List StoredRecord)
      → History crc s recs
      → History crc (apply_retention io now max_age limit s).0 recs

pub created-Logs :
    (crc : Checksum) (cfg : Settings) (index : Bytes)
    → Logs crc (store_of cfg [] (new_segment 0 true [] index) 0 0) []
unfolding store_of new_segment content records_of log_records
created-Logs crc cfg index =
    let last : Held = record { segment = new_segment 0 true [] index; batches = [] } in
    let whole : Whole crc cfg.max_batch_bytes last = record {
      file = refl;
      size = refl;
      chain = refl;
      room = omega arith;
      index = tt;
    } in
    record {
      front = [];
      last = last;
      consistent = record {
        closed_part = refl;
        active_part = refl;
        linked = (refl, whole, refl);
        is_open = refl;
        working = refl;
      };
      records = refl;
    }

module _ (crc : Checksum) where
  appended-Kept :
      (io : AppendIo) (rs : List Record) (s : Store) (recs : List StoredRecord) (q : ℕ × ℕ)
      → s.max_batch_bytes < 2 ^ 31
      → io.now < 2 ^ 63
      → s.log_end_offset + length rs < 2 ^ 64
      → Fresh io.new_files
      → (append crc io rs s).1 ≡ ok q
      → Kept crc 0 s recs
      → Kept crc 0 (append crc io rs s).0 (recs ++ stored_records s.log_end_offset io.now rs)
  appended-Kept io rs s recs q limit time room fresh h k =
      let new = stored_records s.log_end_offset io.now rs in
      let same = (append-Assigned crc io rs s q h).earliest in
      record {
        dropped = k.dropped;
        kept = k.kept ++ new;
        split =
            sym (append_assoc k.dropped k.kept new)
            ∙ ap (λ (t : List StoredRecord). t ++ new) k.split;
        logs = append-Logs crc io rs s k.kept q k.logs limit time room fresh h;
        behind = rw same k.behind;
        rises = omega arith;
      }

  -- Every store that was created in an empty directory and then went through Appends that returned
  -- offsets and retentions is consistent, and what it has lost of the records ever
  -- appended is the oldest part, in front of its earliest offset. Each Append had a batch limit below
  -- 2^31, a clock below 2^63, offsets that end below 2^64, and a rollover, if any, that found the
  -- files of its new segment empty.
  pub History-Kept : (s : Store) (recs : List StoredRecord) → History crc s recs → Kept crc 0 s recs
  unfolding open_store open_sorted sort_files
  History-Kept s recs (created cfg index s' h) =
      let e : store_of cfg [] (new_segment 0 true [] index) 0 0 ≡ s = cc in
      rw (sym e) (
        Kept-refl crc (store_of cfg [] (new_segment 0 true [] index) 0 0) []
          (created-Logs crc cfg index))
  History-Kept s recs (appended io rs s0 recs0 q limit time room fresh h before) =
      appended-Kept io rs s0 recs0 q limit time room fresh h (History-Kept s0 recs0 before)
  History-Kept s recs (trimmed io now max_age limit s0 recs0 before) =
      let k = History-Kept s0 recs0 before in
      Kept-trans crc k (apply_retention-Kept crc io now max_age limit s0 k.kept k.logs)

  -- A Read of a store that a history leads to, between its earliest offset and its end and with a limit
  -- above zero, answers from the list of all the records ever appended: those from the offset on, the
  -- first whatever its size and the next as many as stay within the limit.
  pub History-read :
      (s : Store) (recs : List StoredRecord) (offset max : ℕ)
      → History crc s recs
      → 0 < max
      → s.earliest_offset ≤ offset
      → offset ≤ s.log_end_offset
      → read crc offset max s ≡ ok (select max offset recs)
  History-read s recs offset max h limit low high =
      let k = History-Kept s recs h in
      let l = k.logs in
      read-select crc s (l.front ++ l.last ∷ []) offset max
        (Consistent-StoreHolds crc s l.front l.last l.consistent) limit low high
      ∙ ap (λ (t : List StoredRecord). ok (select max offset t)) l.records
      ∙ ap ok (
          sym (
            select-append max offset k.dropped k.kept
              (All-map (λ r lt. omega arith) k.dropped k.behind)))
      ∙ ap (λ (t : List StoredRecord). ok (select max offset t)) k.split
