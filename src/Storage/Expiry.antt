-- ===== src/Storage/Expiry.antt =====
-- What retention deletes, and what it leaves.
use distributed_message_brok.Prelude.{
  ℕ, ◌≤◌, ◌≡◌, inl, inr, refl, sym, ◌∙◌, List, [], ◌∷◌, ◌++◌, append_assoc, Bool, true, false,
  arith, Bool-cases, leb, ◌&&◌, ◌||◌,
}
use distributed_message_brok.Bytes.{lt_i64}
use distributed_message_brok.Storage.{Segment, Store}
use distributed_message_brok.Storage.Retention.{
  DeleteIo, RetentionIo, first_base, delete_oldest, expire, total_bytes, shrink, cutoff_of,
  apply_retention,
}

-- `s'` is `s` without some of its oldest closed segments, with the earliest offset of what is left.
pub record Shortened (s s' : Store) : Type 0 where
  pub dropped : List Segment
  pub oldest_first : s.closed_segments ≡ dropped ++ s'.closed_segments
  pub active : s'.active_segment ≡ s.active_segment
  pub end : s'.log_end_offset ≡ s.log_end_offset
  pub earliest : s'.earliest_offset ≡ first_base s'.closed_segments s'.active_segment

-- The earliest offset is where the first segment begins.
abbrev pub StartsAtFirst : Store → Type 0
StartsAtFirst s = s.earliest_offset ≡ first_base s.closed_segments s.active_segment

Shortened-refl : (s : Store) → StartsAtFirst s → Shortened s s
Shortened-refl s h = record {
  dropped = [];
  oldest_first = refl;
  active = refl;
  end = refl;
  earliest = h;
}

Shortened-trans : {s t u : Store} → Shortened s t → Shortened t u → Shortened s u
Shortened-trans {u = u} a b = record {
  dropped = a.dropped ++ b.dropped;
  oldest_first =
      a.oldest_first ∙ rw b.oldest_first (sym (append_assoc a.dropped b.dropped u.closed_segments));
  active = b.active ∙ a.active;
  end = b.end ∙ a.end;
  earliest = b.earliest;
}

delete_oldest-Shortened :
    (io : DeleteIo) (o : Segment) (rest : List Segment) (s : Store)
    → s.closed_segments ≡ o ∷ rest
    → StartsAtFirst s
    → Shortened s (delete_oldest io o rest s).0
unfolding delete_oldest
delete_oldest-Shortened io o rest s e h = elim (Bool-cases io.remove_log) [
  | inl r ↦
      rw r
        (record { dropped = o ∷ []; oldest_first = e; active = refl; end = refl; earliest = refl })
  | inr r ↦ rw r (Shortened-refl s h)
]

-- A deletion that reports no error has left the closed segments behind the oldest.
pub delete_oldest-closed :
    (io : DeleteIo) (o : Segment) (rest : List Segment) (s : Store)
    → (delete_oldest io o rest s).1 ≡ true
    → (delete_oldest io o rest s).0.closed_segments ≡ rest
unfolding delete_oldest
delete_oldest-closed io o rest s h = ground arith

expire-Shortened :
    (io : RetentionIo) (cutoff : ℕ) (ss : List Segment) (s : Store)
    → s.closed_segments ≡ ss
    → StartsAtFirst s
    → Shortened s (expire io cutoff ss s).0
unfolding expire
expire-Shortened io cutoff [] s e h = Shortened-refl s h
expire-Shortened io cutoff (o ∷ rest) s e h =
    let d = delete_oldest-Shortened (io.by_age o) o rest s e h in
    elim (Bool-cases (lt_i64 cutoff o.max_timestamp)) [
      | inl young ↦ rw young (Shortened-refl s h)
      | inr old ↦ elim (Bool-cases (delete_oldest (io.by_age o) o rest s).1) [
        | inl done ↦
            rw (old, done)
              (Shortened-trans d (
                expire-Shortened io cutoff rest (delete_oldest (io.by_age o) o rest s).0
                  (delete_oldest-closed (io.by_age o) o rest s done) d.earliest))
        | inr failed ↦ rw (old, failed) d
      ]
    ]

shrink-Shortened :
    (io : RetentionIo) (limit : ℕ) (ss : List Segment) (s : Store)
    → s.closed_segments ≡ ss
    → StartsAtFirst s
    → Shortened s (shrink io limit ss s).0
unfolding shrink
shrink-Shortened io limit [] s e h = Shortened-refl s h
shrink-Shortened io limit (o ∷ rest) s e h =
    let d = delete_oldest-Shortened (io.by_size o) o rest s e h in
    elim (Bool-cases (io.stat (o ∷ rest))) [
      | inr failed ↦ simp failed (Shortened-refl s h)
      | inl stat ↦ elim (Bool-cases (leb (total_bytes (o ∷ rest) s.active_segment) limit)) [
        | inl fits ↦ simp (stat, fits) (Shortened-refl s h)
        | inr big ↦ elim (Bool-cases (delete_oldest (io.by_size o) o rest s).1) [
          | inl done ↦
              simp (stat, big, done)
                (Shortened-trans d (
                  shrink-Shortened io limit rest (delete_oldest (io.by_size o) o rest s).0
                    (delete_oldest-closed (io.by_size o) o rest s done) d.earliest))
          | inr failed ↦ simp (stat, big, failed) d
        ]
      ]
    ]

-- Whatever the file operations come to, ApplyRetention drops some of the oldest closed segments and
-- no other, keeps the active segment and the log end offset, and the earliest offset is then that
-- of the first segment left, if it was before.
pub apply_retention-Shortened :
    (io : RetentionIo) (now max_age limit : ℕ) (s : Store)
    → StartsAtFirst s
    → Shortened s (apply_retention io now max_age limit s).0
unfolding apply_retention
apply_retention-Shortened io now max_age limit s h =
    let s1 = (expire io (cutoff_of now max_age) s.closed_segments s).0 in
    let a = expire-Shortened io (cutoff_of now max_age) s.closed_segments s refl h in
    let b = shrink-Shortened io limit s1.closed_segments s1 refl a.earliest in
    elim (Bool-cases (s.closed || s.write_failed)) [
      | inl off ↦ rw off (Shortened-refl s h)
      | inr on ↦ rw on (Shortened-trans a b)
    ]

abbrev pub NotExpired : ℕ → List Segment → Type 0
NotExpired cutoff [] = Unit
NotExpired cutoff (o ∷ rest) = lt_i64 cutoff o.max_timestamp ≡ true

abbrev pub WithinLimit : ℕ → Segment → List Segment → Type 0
WithinLimit limit active [] = Unit
WithinLimit limit active (o ∷ rest) = total_bytes (o ∷ rest) active ≤ limit

-- When the loop by age reports no error, the oldest closed segment left, if there is one, has a
-- timestamp behind the cutoff.
pub expire-NotExpired :
    (io : RetentionIo) (cutoff : ℕ) (ss : List Segment) (s : Store)
    → s.closed_segments ≡ ss
    → (expire io cutoff ss s).1 ≡ true
    → NotExpired cutoff (expire io cutoff ss s).0.closed_segments
unfolding expire
expire-NotExpired io cutoff [] s e h = rw e tt
expire-NotExpired io cutoff (o ∷ rest) s e h = elim (Bool-cases (lt_i64 cutoff o.max_timestamp)) [
  | inl young ↦ rw (young, e) young
  | inr old ↦ elim (Bool-cases (delete_oldest (io.by_age o) o rest s).1) [
    | inl done ↦
        rw (old, done)
          (expire-NotExpired io cutoff rest (delete_oldest (io.by_age o) o rest s).0
            (delete_oldest-closed (io.by_age o) o rest s done) (rw (old, done) at h))
    | inr failed ↦ cc (rw (old, failed) at h)
  ]
]

shrink-WithinLimit :
    (io : RetentionIo) (limit : ℕ) (ss : List Segment) (s : Store)
    → s.closed_segments ≡ ss
    → (shrink io limit ss s).1 ≡ true
    → WithinLimit limit
        (shrink io limit ss s).0.active_segment
        (shrink io limit ss s).0.closed_segments
unfolding shrink
shrink-WithinLimit io limit [] s e h = rw e tt
shrink-WithinLimit io limit (o ∷ rest) s e h = elim (Bool-cases (io.stat (o ∷ rest))) [
  | inr failed ↦ cc (simp failed at h)
  | inl stat ↦ elim (Bool-cases (leb (total_bytes (o ∷ rest) s.active_segment) limit)) [
    | inl fits ↦ simp (stat, fits, e) (ground arith)
    | inr big ↦ elim (Bool-cases (delete_oldest (io.by_size o) o rest s).1) [
      | inl done ↦
          simp (stat, big, done)
            (shrink-WithinLimit io limit rest (delete_oldest (io.by_size o) o rest s).0
              (delete_oldest-closed (io.by_size o) o rest s done) (simp (stat, big, done) at h))
      | inr failed ↦ cc (simp (stat, big, failed) at h)
    ]
  ]
]

and_right : (a b : Bool) → (a && b) ≡ true → b ≡ true
and_right a b h = ground arith

-- When ApplyRetention reports no error on a working store, only the active segment is left or the
-- log and index files take no more than the limit.
pub apply_retention-WithinLimit :
    (io : RetentionIo) (now max_age limit : ℕ) (s : Store)
    → s.closed ≡ false
    → s.write_failed ≡ false
    → (apply_retention io now max_age limit s).1 ≡ true
    → WithinLimit limit
        (apply_retention io now max_age limit s).0.active_segment
        (apply_retention io now max_age limit s).0.closed_segments
unfolding apply_retention
apply_retention-WithinLimit io now max_age limit s c w h =
    let s1 = (expire io (cutoff_of now max_age) s.closed_segments s).0 in
    simp (c, w)
      (shrink-WithinLimit io limit s1.closed_segments s1 refl (and_right _ _ (simp (c, w) at h)))
