-- ===== src/Storage/Disk/Handle/Examples.antt =====
-- Handles of files in memory, on a limiter of one file.
use iceberg_db.Prelude.{
  ltb, if◌then◌else◌, Bool-cases, ◌^◌, ℕ, zero, suc, ◌<◌, ◌≡◌, refl, ◌⊎◌, inl, inr, Bool, true,
  false, none, some, List, [], ◌∷◌, take, drop, codes, arith,
}
use iceberg_db.Base.Coding.{little}
use iceberg_db.Base.Status.{status_ok}
use iceberg_db.Log.Limiter.{idle, holding, undoing, acquire, add_one, is_positive}
use iceberg_db.Log.Limiter
use iceberg_db.Base.Slice.{of_string}
use iceberg_db.Log.Posix.{Posix, Errno}
use iceberg_db.Log.RandomAccess.{settle}
use iceberg_db.Log.RandomAccess
use iceberg_db.Log.RandomAccess.Examples.{counting}
use iceberg_db.Storage.Disk.Handle.{RandomAccessFileHandle, open_front, read_range}
use iceberg_db.Storage.Disk.Handle.Opened.{NullReads, read_range-opened}

-- A `pread` that fails on a null buffer.
abbrev bad_address : Errno
bad_address = record { is_eintr = false; is_enoent = false; text = codes "Bad address" }

abbrev checked_pread : Bool → ℕ → ℕ → Errno ⊎ List ℕ
checked_pread true offset n = inr (take n (drop offset (codes "ice berg.")))
checked_pread false offset zero = inr []
checked_pread false offset (suc n) = if ltb offset 9 then inl bad_address else inr []

abbrev checking : Posix
checking = record counting { pread = λ k fd there offset n. (k, checked_pread there offset n) }

-- The file has nine bytes; into no buffer, none can be read.
null_no_byte :
    (k : List ℕ) (d offset n : ℕ)
    → Unit {0}
    → offset < 2 ^ 63
    → 0 < n
    → n < 2 ^ 63
    → (k' : List ℕ) × (answer : Errno ⊎ List ℕ) × (checking.pread k d false offset n ≡ (k', answer))
      × (((e : Errno) × (answer ≡ inl e)) ⊎ (answer ≡ inr []))
null_no_byte k d offset zero is_open low positive fits = absurd (omega (arith, positive))
null_no_byte k d offset (suc n) is_open low positive fits = elim (Bool-cases (ltb offset 9)) [
  | inl e ↦ (k, inl bad_address, rw e refl, inl (bad_address, refl))
  | inr e ↦ (k, inr [], rw e refl, inr refl)
]

checking-NullReads : NullReads checking
checking-NullReads = record {
  IsOpen = λ k d. Unit {0};
  empty = λ k d offset is_open low. (k, refl);
  no_byte = null_no_byte;
}

abbrev opened_front : RandomAccessFileHandle little checking
opened_front = record {
  filename = codes "a";
  current_offset = 0;
  fd = 5;
  limiter = none;
  random_access_file = record { has_permanent_fd = true; fd = some 5; filename = codes "a" };
}

read_range-opened_example :
    (k : List ℕ) × (read_range little checking (5 ∷ []) opened_front 4 0 (of_string (codes "x"))
      ≡ some (k, record opened_front { current_offset = 4 }, status_ok, of_string []))
    × (read_range little checking (5 ∷ []) opened_front 4 2 (of_string (codes "x")) ≡ none)
unfolding open_front RandomAccess.new settle acquire is_positive Limiter.new checking-NullReads
read_range-opened_example =
    read_range-opened little checking checking-NullReads 1 (5 ∷ []) (5 ∷ []) (5 ∷ []) opened_front
      (codes "a") 5 4 2 (of_string (codes "x")) (omega arith) (omega arith) refl tt (omega arith)
      (omega arith) (omega arith)
