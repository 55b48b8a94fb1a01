-- ===== src/Log/Sequential/Examples.antt =====
-- A file in memory, whose reads are interrupted a number of times.
use iceberg_db.Prelude.{
  ℕ, zero, suc, ◌≡◌, refl, ◌⊎◌, inl, inr, true, false, none, some, List, [], take, drop, codes,
  arith,
}
use iceberg_db.Base.Coding.{little}
use iceberg_db.Base.Status.{status_ok}
use iceberg_db.Base.Slice.{of_string}
use iceberg_db.Log.Posix.{Posix, Errno}
use iceberg_db.Log.Sequential.{UnixSequentialFile, new, read, skip}
use iceberg_db.Log.Sequential.Ahead.{Interrupted, Delivered, Regular, read_ahead}

-- What lies ahead, and how many calls are still to be interrupted.
pub record Memory : Type 0 where
  pub ahead : List ℕ
  pub signals : ℕ

abbrev pub eintr : Errno
eintr = record { is_eintr = true; is_enoent = false; text = codes "Interrupted system call" }

abbrev pub read_memory : ℕ → List ℕ → ℕ → Memory × (Errno ⊎ List ℕ)
read_memory zero ahead n = (record { ahead = drop n ahead; signals = 0 }, inr (take n ahead))
read_memory (suc signals) ahead n = (record { ahead = ahead; signals = signals }, inl eintr)

abbrev pub memory_posix : Posix
memory_posix = record {
  Kernel = Memory;
  open_readonly = λ k filename. (k, inr 3);
  read = λ k fd n. read_memory k.signals k.ahead n;
  pread = λ k fd there offset n. (k, inr (take n (drop offset k.ahead)));
  lseek = λ k fd n. (record k { ahead = drop n k.ahead }, none);
  close = λ k fd. k;
}

abbrev pub reads_memory :
    (signals : ℕ) (ahead : List ℕ) (n : ℕ)
    → Interrupted memory_posix 3
        (λ k. k.ahead)
        (λ k. k.signals)
        (record { ahead = ahead; signals = signals })
        n
      ⊎ Delivered memory_posix 3 (λ k. k.ahead) (record { ahead = ahead; signals = signals }) n
reads_memory zero ahead n =
    inr
      (record { after = record { ahead = drop n ahead; signals = 0 }; gives = refl; moved = refl })
reads_memory (suc signals) ahead n = inl (record {
  after = record { ahead = ahead; signals = signals };
  errno = eintr;
  fails = refl;
  eintr = refl;
  kept = refl;
  fewer = omega arith;
})

abbrev pub log_file : UnixSequentialFile
log_file = record { fd = 3; filename = codes "1.log" }

abbrev pub memory_posix-Regular : Regular memory_posix 3
memory_posix-Regular = record {
  ahead = λ k. k.ahead;
  signals = λ k. k.signals;
  reads = λ k n small. reads_memory k.signals k.ahead n;
}

abbrev interrupted_twice : Memory
interrupted_twice = record { ahead = codes "put"; signals = 2 }

read_ahead_example :
    (k : Memory) × (read little memory_posix 3 interrupted_twice log_file 2 (of_string [])
      ≡ some (k, status_ok, of_string (codes "pu")))
    × (k.ahead ≡ codes "t")
read_ahead_example =
    read_ahead little memory_posix log_file memory_posix-Regular 3 interrupted_twice 2
      (of_string []) (omega arith) (omega arith)

-- Two rounds are not enough for it.
too_few_rounds : read little memory_posix 2 interrupted_twice log_file 2 (of_string []) ≡ none
unfolding read
too_few_rounds = refl

skips :
    skip little memory_posix interrupted_twice (new (codes "1.log") 3) 2
    ≡ (record { ahead = codes "t"; signals = 2 }, status_ok)
unfolding skip new
skips = refl
