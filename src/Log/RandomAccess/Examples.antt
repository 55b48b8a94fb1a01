-- ===== src/Log/RandomAccess/Examples.antt =====
-- Files in memory, and a kernel that counts what is open.
use iceberg_db.Prelude.{
  ℕ, ◌+◌, ◌-◌, ◌≡◌, refl, inr, true, false, none, some, List, [], ◌∷◌, ◌==◌, if◌then◌else◌, length,
  take, drop, codes, arith,
}
use iceberg_db.Base.Coding.{little}
use iceberg_db.Base.Status.{status_ok}
use iceberg_db.Log.Limiter.{idle, holding, undoing, acquire, add_one, is_positive}
use iceberg_db.Log.Limiter
use iceberg_db.Base.Slice.{of_buffer, of_string, int_size}
use iceberg_db.Log.Posix.{Posix}
use iceberg_db.Log.RandomAccess.{PosixRandomAccessFile, settle, new, get_fd, read}
use iceberg_db.Log.RandomAccess.Kept.{one_at, Descriptors}
use iceberg_db.Log.RandomAccess.Contents.{Readable, read-contents}
use iceberg_db.Log.RandomAccess.Calls.{Call, create, read_at, delete, world, run}
use iceberg_db.Log.RandomAccess.Runs.{Ends, run-new-Ends}

abbrev pub close_one : ℕ → List ℕ → List ℕ
close_one d [] = []
close_one d (e ∷ open_fds) =
    let rest = close_one d open_fds in if e == d then open_fds else e ∷ rest

abbrev pub count : List ℕ → ℕ → ℕ
count [] x = 0
count (e ∷ open_fds) x = one_at e x + count open_fds x

-- The kernel is the descriptors that are open; every file holds the same nine letters.
abbrev pub counting : Posix
counting = record {
  Kernel = List ℕ;
  open_readonly = λ k filename. (length k ∷ k, inr (length k));
  read = λ k fd n. (k, inr []);
  pread = λ k fd there offset n. (k, inr (take n (drop offset (codes "ice berg."))));
  lseek = λ k fd n. (k, none);
  close = λ k fd. close_one fd k;
}

count-close_one :
    (d : ℕ) (open_fds : List ℕ) (x : ℕ)
    → count (close_one d open_fds) x ≡ count open_fds x - one_at d x
count-close_one d [] x = omega arith
count-close_one d (e ∷ open_fds) x = grind (arith, count-close_one d open_fds x)

abbrev counting-Descriptors : Descriptors counting
counting-Descriptors = record {
  held = count;
  opens = λ k filename x. omega arith;
  preads = λ k d there offset n x. refl;
  closes = λ k d x. count-close_one d k x;
}

-- Three files on a limiter of two: the third is opened for each read.
abbrev calls : List Call
calls =
    create (codes "a")
    ∷ create (codes "b")
    ∷ create (codes "c")
    ∷ read_at 0 4 4 true
    ∷ delete 1
    ∷ []

run-new-Ends_example :
    Ends little counting counting-Descriptors 2
      (count [])
      true
      (run little counting calls (world little counting [] (Limiter.new 2, [])))
run-new-Ends_example = run-new-Ends little counting counting-Descriptors calls 2 [] (omega arith)

abbrev without_descriptor : PosixRandomAccessFile
without_descriptor = record { has_permanent_fd = false; fd = none; filename = codes "c" }

-- A read of all that is asked for, and one that ends at the end of the file, which an `assert` refuses.
whole_read :
    read counting little (1 ∷ 0 ∷ []) without_descriptor 4 4 true (of_string [])
    ≡ some (1 ∷ 0 ∷ [], status_ok, of_string (codes "berg"))
unfolding read of_buffer of_string int_size
whole_read = refl

short_read : read counting little (1 ∷ 0 ∷ []) without_descriptor 4 9 true (of_string []) ≡ none
unfolding read of_buffer of_string int_size
short_read = refl

counting-Readable : Readable counting (codes "c") (codes "ice berg.")
counting-Readable = record {
  On = λ k d. Unit {0};
  opens = λ k. (length k ∷ k, length k, refl, tt);
  reads = λ k d offset n on low small. (k, refl);
}

read-contents_example :
    (k : List ℕ) × (read counting little (1 ∷ 0 ∷ []) without_descriptor 4 4 true (of_string [])
      ≡ some (k, status_ok, of_string (codes "berg")))
read-contents_example =
    read-contents little counting (codes "c") (codes "ice berg.") counting-Readable
      without_descriptor (1 ∷ 0 ∷ []) 4 4 (of_string []) refl refl tt (omega arith) (omega arith)

refused :
    new counting (Limiter.new 0) (0 ∷ []) (codes "c") 0
    ≡ (record { acquires_allowed = 0 }, [], without_descriptor)
unfolding new settle acquire add_one is_positive Limiter.new
refused = refl

has_no_descriptor : get_fd counting without_descriptor ≡ none
unfolding get_fd
has_no_descriptor = refl
