-- ===== src/Storage/Table/PutDisk.antt =====
-- `PutDisk` on a table that holds messages: the log has one more, and its index and counts follow.
use mathlib.Core.Option
use iceberg_db.Prelude.{
  ℕ, ◌+◌, ◌%◌, ◌^◌, ◌≡◌, ◌<◌, refl, ap, sym, ◌∙◌, Bool, true, false, Option, some, List, [], ◌∷◌,
  ◌++◌, inl, inr, length, length-append, All, All-append, ◌==◌, arith, Bool-cases,
}
use iceberg_db.Log.Files.{Stdio}
use iceberg_db.Log.Files
use iceberg_db.Log.Files.Writes.{Complete, IsOpen}
use iceberg_db.Storage.Disk.{WritableFileHandle, append_message, get_current_pos}
use iceberg_db.Storage.Disk
use iceberg_db.Storage.Disk.Append.{written, append_message-written}
use iceberg_db.Storage.Disk.Layout.{message_bytes, length-message_bytes}
use iceberg_db.Storage.Table.{
  Platform, Table, divides, add_position, count_message, sync, write_message, sync_at, put_disk,
}
use iceberg_db.Storage.Table.File.{Short, file_bytes}
use iceberg_db.Storage.Table.Indexed.{file_bytes-snoc, with_position-Indexed, kept-Indexed}
use iceberg_db.Storage.Table.Invariant.{JustSynced, AfterPut, Syncs, All-IsCached-append, Holds}

divides_pos : (n k : ℕ) → 0 < n → divides n k ≡ some (k % n == 0)
divides_pos n k h = let test : (n == 0) ≡ false = ground arith in rw test refl

module _ (env : Platform) (open_file : List ℕ → Option env.Fd) (complete : Complete env.stdio)
    (syncs : Syncs env.stdio complete) where
  abbrev TableOf : Type 0
  TableOf = Table env

  abbrev HoldsOf : TableOf → List (List ℕ) → Type 0
  HoldsOf = Holds env open_file complete

  -- A table that differs in its file, which has taken the same bytes and stands at the same place
  pub record Synced (t t' : TableOf) : Type 0 where
    pub same : t' ≡ record t { wf = t'.wf }
    pub same_bytes :
        written env.host env.stdio complete t'.wf ≡ written env.host env.stdio complete t.wf
    pub same_pos : t'.wf.current_pos ≡ t.wf.current_pos
    pub still_open : IsOpen env.host env.stdio complete t'.wf.file_handle

  pub sync-Synced :
      (t : TableOf)
      → IsOpen env.host env.stdio complete t.wf.file_handle
      → (t' : TableOf) × (sync env t ≡ some (t', true)) × Synced t t' × JustSynced env t'
  unfolding sync Disk.sync Files.sync
  sync-Synced t (s, e) =
      let (flushed, kept) = complete.flushes s in
      let (synced, kept_too) = syncs (env.stdio.fflush s).0 in
      let w : WritableFileHandle env.host env.stdio = record (t.wf) {
        file_handle = record (t.wf.file_handle) {
          filestream = some (env.stdio.fsync (env.stdio.fflush s).0).0;
        };
      } in
      (
        record t { wf = w },
        rw (e, flushed, synced) refl,
        record {
          same = refl;
          same_bytes = rw e (kept_too ∙ kept);
          same_pos = refl;
          still_open = ((env.stdio.fsync (env.stdio.fflush s).0).0, refl);
        },
        (s, refl),
      )

  sync_at-Synced :
      (t : TableOf) (offset : ℕ)
      → IsOpen env.host env.stdio complete t.wf.file_handle
      → 0 < t.disk_cache_threshold
      → (t' : TableOf) × (sync_at env t offset ≡ some (t', true))
        × Synced t t'
        × (offset % t.disk_cache_threshold ≡ 0 → JustSynced env t')
  unfolding sync_at Option.bind
  sync_at-Synced t offset ready positive =
      let due = divides_pos t.disk_cache_threshold offset positive in
      elim (Bool-cases (offset % t.disk_cache_threshold == 0)) [
        | inl e ↦
            let (t', returns, synced, just) = sync-Synced t ready in
            (t', rw (due, e) returns, synced, λ divided. just)
        | inr e ↦ (
          t,
          rw (due, e) refl,
          record { same = refl; same_bytes = refl; same_pos = refl; still_open = ready },
          λ divided. absurd (ground arith),
        )
      ]

  abbrev finished : TableOf → ℕ → TableOf
  finished t offset = record t {
    current_offset = (t.current_offset + 1) % 2 ^ 64;
    table_manifest = record (t.table_manifest) { current_offset = offset };
  }

  abbrev count_from : TableOf → ℕ → ℕ → Option (TableOf × Bool)
  count_from = count_message env

  -- What the end of `PutDisk` makes of a table to whose file a message was added.
  Counted : TableOf → List (List ℕ) → List ℕ → WritableFileHandle env.host env.stdio → Type 0
  Counted t ms m w =
      (t' : TableOf) × (count_message env (record t { wf = w }) (length ms)
          (length (file_bytes 0 ms))
        ≡ some (t', true))
      × HoldsOf t' (ms ++ (m ∷ []))
      × (t'.segment_index ≡ t.segment_index)
      × (t'.wf ≡ w)
      × (t'.disk_cache_threshold ≡ t.disk_cache_threshold)

  count_message-Counted :
      (t : TableOf) (ms : List (List ℕ)) (m : List ℕ) (w : WritableFileHandle env.host env.stdio)
      → HoldsOf t ms
      → Short m
      → written env.host env.stdio complete w ≡ file_bytes 0 (ms ++ (m ∷ []))
      → w.current_pos ≡ length (file_bytes 0 (ms ++ (m ∷ [])))
      → IsOpen env.host env.stdio complete w.file_handle
      → 0 < env.flags.log_index_sparse_threshold
      → length ms + 1 < 2 ^ 64
      → Counted t ms m w
  unfolding Counted count_message add_position
  count_message-Counted t ms m w h is_short bytes pos ready positive room =
      let due = divides_pos env.flags.log_index_sparse_threshold (length ms) positive in
      let counted : (t.current_offset + 1) % 2 ^ 64 ≡ length (ms ++ (m ∷ [])) =
        omega (arith, h.counts, length-append ms (m ∷ [])) in
      let shorts : All Short (ms ++ (m ∷ [])) =
        All-append Short ms (m ∷ []) h.short (is_short, tt) in
      let cache = All-IsCached-append ms (m ∷ []) t.offset_message h.in_cache in
      elim (Bool-cases (length ms % env.flags.log_index_sparse_threshold == 0)) [
        | inl e ↦ (
          finished (add_position env (record t { wf = w }) (length ms) (length (file_bytes 0 ms)))
              (length ms),
          rw (due, e) refl,
          record {
            has_bytes = bytes;
            at_end = pos;
            counts = counted;
            is_open = ready;
            threshold = h.threshold;
            short = shorts;
            indexed =
                with_position-Indexed ms m t.table_manifest.log_name t.offset_pos_map h.indexed;
            in_cache = cache;
            readers = h.readers;
          },
          refl,
          refl,
          refl,
        )
        | inr e ↦
            let zero_is_due : 0 % env.flags.log_index_sparse_threshold ≡ 0 = omega arith in
            let some_messages : 0 < length ms = ground (arith, zero_is_due) in
            (
              finished (record t { wf = w }) (length ms),
              rw (due, e) refl,
              record {
                has_bytes = bytes;
                at_end = pos;
                counts = counted;
                is_open = ready;
                threshold = h.threshold;
                short = shorts;
                indexed =
                    kept-Indexed ms m t.table_manifest.log_name t.offset_pos_map some_messages
                      h.indexed;
                in_cache = cache;
                readers = h.readers;
              },
              refl,
              refl,
              refl,
            )
      ]

  -- Where stdio does all that it is asked for, on a table that holds messages, `PutDisk` of a message of
  -- less than 2^31 - 1 bytes returns true, and the table holds one message more, with the same
  -- index in memory and a synced log where the threshold divides the offset; as long as the log
  -- stays below 2^32 bytes and has fewer than 2^64 messages.
  pub put_disk-Holds :
      (t : TableOf) (ms : List (List ℕ)) (m : List ℕ)
      → HoldsOf t ms
      → Short m
      → length (file_bytes 0 (ms ++ (m ∷ []))) < 2 ^ 32
      → length ms + 1 < 2 ^ 64
      → 0 < env.flags.log_index_sparse_threshold
      → (t' : TableOf) × (put_disk env t m ≡ some (t', true))
        × HoldsOf t' (ms ++ (m ∷ []))
        × (t'.segment_index ≡ t.segment_index)
        × AfterPut env t t'
  unfolding put_disk write_message Option.bind get_current_pos Counted
  put_disk-Holds t ms m h is_short small room positive =
      let (w, returns, took, pos, ready) =
        append_message-written env.host env.stdio complete t.wf t.current_offset m (omega arith)
          h.is_open in
      let (t2, synced, s, just) =
        sync_at-Synced (record t { wf = w }) t.current_offset ready h.threshold in
      let snoc = file_bytes-snoc ms m in
      let bytes : written env.host env.stdio complete t2.wf ≡ file_bytes 0 (ms ++ (m ∷ [])) =
        s.same_bytes
        ∙ took
        ∙ ap (λ (bs : List ℕ). bs ++ message_bytes t.current_offset m) h.has_bytes
        ∙ ap (λ (n : ℕ). file_bytes 0 ms ++ message_bytes n m) h.counts
        ∙ sym snoc in
      let place : t2.wf.current_pos ≡ length (file_bytes 0 (ms ++ (m ∷ []))) =
        s.same_pos
        ∙ pos
        ∙ omega (
          arith,
          h.at_end,
          ap length snoc,
          length-append (file_bytes 0 ms) (message_bytes (length ms) m),
          length-message_bytes (length ms) m,
          length-message_bytes t.current_offset m,
        ) in
      let (t', counted, holds, index, same_file, kept) =
        count_message-Counted t ms m t2.wf h is_short bytes place s.still_open positive room in
      (
        t',
        rw (returns, synced)
            (ap (λ (x : TableOf). count_from x t.current_offset t.wf.current_pos) s.same
              ∙ ap (λ (n : ℕ). count_from (record t { wf = t2.wf }) n t.wf.current_pos) h.counts
              ∙ ap (λ (n : ℕ). count_from (record t { wf = t2.wf }) (length ms) n) h.at_end
              ∙ counted),
        holds,
        index,
        (
          kept,
          λ divided.
              let (last, now) = just divided in
              (
                last,
                ap (λ (w' : WritableFileHandle env.host env.stdio). w'.file_handle.filestream)
                      same_file
                    ∙ now,
              ),
        ),
      )
