-- ===== src/Storage/Table/Invariant.antt =====
-- What a table holds: the messages of its log, with the index of their places, its cache and readers.
use iceberg_db.Prelude.{
  ℕ, ◌%◌, ◌≡◌, ◌<◌, ◌∙◌, true, Option, some, List, [], ◌∷◌, ◌++◌, ◌⊎◌, length, All, get_elem?,
}
use iceberg_db.Log.Files.{Stdio}
use iceberg_db.Log.Files.Writes.{Complete, IsOpen}
use iceberg_db.Storage.Disk.Append.{written}
use iceberg_db.Storage.Table.{Platform, Table}
use iceberg_db.Storage.Table.Find.{Positions, c_string}
use iceberg_db.Storage.Table.File.{Short, file_bytes, get_elem-append}
use iceberg_db.Storage.Table.Places.{IsPosition}
use iceberg_db.Storage.Table.Search.{get_elem-below}

-- A stdio whose `fsync` succeeds, and keeps what a stream took
abbrev pub Syncs : (stdio : Stdio) → Complete stdio → Type 0
Syncs stdio complete =
    (s : stdio.Stream)
    → ((stdio.fsync s).1 ≡ true) × (complete.written (stdio.fsync s).0 ≡ complete.written s)

-- A file without messages has no index, and one with messages has a list of places.
abbrev pub Indexed : List (List ℕ) → List ℕ → List (List ℕ × Positions) → Type 0
Indexed ms file m =
    ((ms ≡ []) × (m ≡ []))
    ⊎ ((positions : Positions) × (m ≡ (file, positions) ∷ []) × All (IsPosition ms) positions)

-- An entry of the cache: the text of a message
abbrev pub IsCached : List (List ℕ) → ℕ × List ℕ → Type 0
IsCached ms (offset, text) =
    (message : List ℕ) × (get_elem? ms offset ≡ some message) × (text ≡ c_string message)

pub All-IsCached-append :
    (ms more : List (List ℕ)) (cache : List (ℕ × List ℕ))
    → All (IsCached ms) cache
    → All (IsCached (ms ++ more)) cache
All-IsCached-append ms more [] h = tt
All-IsCached-append ms more ((offset, text) ∷ others) h =
    let (message, at, same) = h.0 in
    (
      (message, get_elem-append ms more offset (get_elem-below ms offset message at) ∙ at, same),
      All-IsCached-append ms more others h.1,
    )

-- The last calls on the log's stream were a flush and a sync.
abbrev pub JustSynced : (env : Platform) → Table env → Type 0
JustSynced env t =
    (s : env.stdio.Stream) × (t.wf.file_handle.filestream
      ≡ some (env.stdio.fsync (env.stdio.fflush s).0).0)

-- What `PutDisk` leaves of the table it is called on: the threshold, and a synced log where it divides the
-- offset.
abbrev pub AfterPut : (env : Platform) → Table env → Table env → Type 0
AfterPut env t t' =
    (t'.disk_cache_threshold ≡ t.disk_cache_threshold)
    × (t.current_offset % t.disk_cache_threshold ≡ 0 → JustSynced env t')

module _ (env : Platform) (open_file : List ℕ → Option env.Fd) (complete : Complete env.stdio) where
  pub record Holds (t : Table env) (ms : List (List ℕ)) : Type 0 where
    pub has_bytes : written env.host env.stdio complete t.wf ≡ file_bytes 0 ms
    pub at_end : t.wf.current_pos ≡ length (file_bytes 0 ms)
    pub counts : t.current_offset ≡ length ms
    pub is_open : IsOpen env.host env.stdio complete t.wf.file_handle
    pub threshold : 0 < t.disk_cache_threshold
    pub short : All Short ms
    pub indexed : Indexed ms t.table_manifest.log_name t.offset_pos_map
    pub in_cache : All (IsCached ms) t.offset_message
    pub readers : All (λ ((path, fd) : List ℕ × env.Fd). open_file path ≡ some fd) t.log_reader_map
