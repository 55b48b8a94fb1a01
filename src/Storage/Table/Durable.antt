-- ===== src/Storage/Table/Durable.antt =====
-- What the file of a log has of what its stream took: all of it behind a sync.
use iceberg_db.Prelude.{ℕ, ◌≡◌, ap, sym, ◌∙◌, true, Option, none, some, List, [], subst}
use iceberg_db.Log.Files.{Stdio}
use iceberg_db.Log.Files.Writes.{Complete, taken}
use iceberg_db.Storage.Disk.Append.{written}
use iceberg_db.Storage.Disk.{Pread}
use iceberg_db.Storage.Disk.Layout.{IsFile}
use iceberg_db.Storage.Table.{Platform, Table, sync}
use iceberg_db.Storage.Table.Read.{log_path}
use iceberg_db.Storage.Table.Invariant.{JustSynced, Syncs, Holds}
use iceberg_db.Storage.Table.PutDisk.{sync-Synced}
use iceberg_db.Storage.Table.Reads.{Readable}
use iceberg_db.Storage.Table.View.{ContentsOf}
use iceberg_db.Storage.Table.Refines.{Refines}

-- What a stream has handed on to its file; the rest of what it took is in its buffer. `fflush` hands on all
-- of it, and `fsync` takes nothing back.
pub record Buffered (stdio : Stdio) (complete : Complete stdio) : Type 0 where
  pub on_file : stdio.Stream → List ℕ
  pub flushed :
      (s : stdio.Stream) → on_file (stdio.fflush s).0 ≡ complete.written (stdio.fflush s).0
  pub kept : (s : stdio.Stream) → on_file (stdio.fsync s).0 ≡ on_file s

module _ (env : Platform) (open_file : List ℕ → Option env.Fd) (complete : Complete env.stdio)
    (buffered : Buffered env.stdio complete) where
  abbrev TableOf : Type 0
  TableOf = Table env

  abbrev pub file_of : Option env.stdio.Stream → List ℕ
  file_of none = []
  file_of (some s) = buffered.on_file s

  -- The log of a table can be opened, and a read gives what its stream has handed on.
  abbrev pub HasFile : Pread env.Fd → TableOf → Type 0
  HasFile pread t =
      (fd : env.Fd) × (open_file (log_path env t t.table_manifest.log_name) ≡ some fd)
      × IsFile pread fd (file_of t.wf.file_handle.filestream)

  module _ (syncs : Syncs env.stdio complete) where
    -- Behind a sync, the file has what the stream took.
    pub JustSynced-Readable :
        (pread : Pread env.Fd) (t : TableOf)
        → JustSynced env t
        → HasFile pread t
        → Readable env open_file complete pread t
    JustSynced-Readable pread t (s, e) (fd, opens, reads) =
        let bytes : file_of t.wf.file_handle.filestream ≡ written env.host env.stdio complete t.wf =
          ap file_of e
          ∙ buffered.kept (env.stdio.fflush s).0
          ∙ buffered.flushed s
          ∙ sym (syncs (env.stdio.fflush s).0).1
          ∙ sym (ap (taken env.host env.stdio complete) e) in
        (fd, opens, subst (IsFile pread fd) bytes reads)

    -- `Sync` succeeds, and the table implements what it did.
    pub sync-Refines :
        (t : TableOf) (ms : List (List ℕ)) (c : ContentsOf env.slices env.memory)
        → Refines env open_file complete t ms c
        → (t' : TableOf) × (sync env t ≡ some (t', true))
          × Refines env open_file complete t' ms c
          × JustSynced env t'
    sync-Refines t ms c r =
        let h = r.holds in
        let (t', returns, s, just) = sync-Synced env open_file complete syncs t h.is_open in
        let w = t'.wf in
        let holds : Holds env open_file complete (record t { wf = w }) ms = record {
          has_bytes = s.same_bytes ∙ h.has_bytes;
          at_end = s.same_pos ∙ h.at_end;
          counts = h.counts;
          is_open = s.still_open;
          threshold = h.threshold;
          short = h.short;
          indexed = h.indexed;
          in_cache = h.in_cache;
          readers = h.readers;
        } in
        (
          t',
          returns,
          subst (λ (x : TableOf). Refines env open_file complete x ms c) (sym s.same)
              (record { holds = holds; runs = r.runs; below = r.below }),
          just,
        )
