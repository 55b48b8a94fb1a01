-- ===== src/Storage/Disk/Layout.antt =====
-- The bytes of a message in a file, and what the calls of the system are documented to do.
use iceberg_db.Prelude.{
  ℕ, ◌+◌, ◌≡◌, refl, ap, ◌∙◌, some, List, ◌++◌, length, length-append, take, drop, drop-append_left,
  take-append_left, arith,
}
use iceberg_db.Base.Coding.{le_bytes}
use iceberg_db.Base.Coding.RoundTrip.{length-le_bytes}
use iceberg_db.Storage.Disk.{Pread}

-- A message: its offset in 8 bytes and its length in 4, each with the low byte first, and its bytes.
unfoldable pub message_bytes : ℕ → List ℕ → List ℕ
message_bytes offset bytes = le_bytes 8 offset ++ (le_bytes 4 (length bytes) ++ bytes)

-- `pread` reads what the file has from an offset on, up to the number of bytes that it is asked for.
abbrev pub IsFile : {Fd : Type 0} → Pread Fd → Fd → List ℕ → Type 0
IsFile pread fd contents =
    (count offset : ℕ) → pread fd count offset ≡ some (take count (drop offset contents))

pub length-message_bytes :
    (offset : ℕ) (bytes : List ℕ) → length (message_bytes offset bytes) ≡ 12 + length bytes
unfolding message_bytes
length-message_bytes offset bytes =
    length-append (le_bytes 8 offset) (le_bytes 4 (length bytes) ++ bytes)
    ∙ omega (
      arith,
      length-append (le_bytes 4 (length bytes)) bytes,
      length-le_bytes 8 offset,
      length-le_bytes 4 (length bytes),
    )

-- The part of a file that stands behind as many bytes as the offset.
pub part-IsFile :
    {Fd : Type 0} (pread : Pread Fd) (fd : Fd) (contents xs ys zs : List ℕ)
    → IsFile pread fd contents
    → contents ≡ xs ++ (ys ++ zs)
    → pread fd (length ys) (length xs) ≡ some ys
part-IsFile pread fd contents xs ys zs file split =
    file (length ys) (length xs)
    ∙ ap (λ (cs : List ℕ). some (take (length ys) (drop (length xs) cs))) split
    ∙ ap (λ (cs : List ℕ). some (take (length ys) cs))
        (drop-append_left (length xs) xs (ys ++ zs) refl)
    ∙ ap some (take-append_left (length ys) ys zs refl)
