-- ===== src/Log/RandomAccess/Runs.antt =====
-- What any calls on files that share a limiter keep.
use mathlib.Core.Option
use iceberg_db.Prelude.{
  ℕ, ◌+◌, ◌^◌, ◌<◌, ◌≡◌, refl, sym, ap, subst, ◌⊎◌, inl, inr, Bool, true, false, ◌||◌, Option, none,
  some, List, [], ◌∷◌, All, arith,
}
use iceberg_db.Base.Coding.{Endian}
use iceberg_db.Base.Status.{Status}
use iceberg_db.Log.Limiter.{Limiter, acquire}
use iceberg_db.Log.Limiter
use iceberg_db.Base.Slice.{Slice}
use iceberg_db.Log.Posix.{Posix, Errno}
use iceberg_db.Log.RandomAccess.{settle, PosixRandomAccessFile, new, read}
use iceberg_db.Log.RandomAccess.Kept.{
  opened, Descriptors, WellFormed, settle-acquire, construct-held, construct-takes, destroy-Gives,
  Untouched, read-Untouched,
}
use iceberg_db.Log.RandomAccess.Calls.{
  empty_slice, Call, create, read_at, delete, is_read, has_read, Files, pick, permanents, owned,
  Picked, pick-Picked, World, world, open_answered, after_read, read_picked, delete_picked, step,
  run,
}

module _ (host : Endian) (posix : Posix) (table : Descriptors posix) (max_acquires : ℕ)
    (base : ℕ → ℕ) where
  -- What the files have of the limiter and what it allows make up its maximum, and what is open is what
  -- was open before, and what the files have.
  pub record Kept (w : World host posix) : Type 0 where
    pub good : All WellFormed w.files
    pub balance : w.limiter.acquires_allowed + permanents w.files ≡ max_acquires
    pub tally : (x : ℕ) → table.held w.kernel x ≡ base x + owned w.files x

  -- After a call that may fault: the world is kept, or the call is a read.
  abbrev pub Ends : Bool → Option (World host posix) → Type 0
  Ends may_fault none = may_fault ≡ true
  Ends may_fault (some w) = Kept w

  create-Kept :
      (w : World host posix) (filename : List ℕ) (p : posix.Kernel × (Errno ⊎ ℕ))
      → max_acquires < 2 ^ 31
      → ((x : ℕ) → table.held p.0 x ≡ table.held w.kernel x + opened p.1 x)
      → Kept w
      → Kept (open_answered host posix w.limiter w.files filename p)
  unfolding new
  create-Kept w filename (k, inl e) small opens kept = record {
    good = kept.good;
    balance = kept.balance;
    tally = λ x. omega (arith, opens x, kept.tally x);
  }
  create-Kept w filename (k, inr d) small opens kept =
      let r = settle (acquire w.limiter) in
      let (taken, same, good) = construct-takes posix table k filename d r in
      let settled = settle-acquire w.limiter (omega (arith, small, kept.balance)) in
      record {
        good = (good, kept.good);
        balance =
            omega
              (arith, taken, settled, ap (λ (l : Limiter). l.acquires_allowed) same, kept.balance);
        tally = λ x.
            let held = construct-held posix table k filename d r x (omega (arith, opens x)) in
            omega (arith, held, opens x, kept.tally x);
      }

  read-Kept :
      (w : World host posix) (r : Option (posix.Kernel × Status × Slice))
      → Untouched posix table w.kernel r
      → Kept w
      → Ends true (Option.map (after_read host posix w) r)
  read-Kept w none same kept = refl
  read-Kept w (some (k, status, result)) same kept = record {
    good = kept.good;
    balance = kept.balance;
    tally = λ x. omega (arith, same x, kept.tally x);
  }

  delete-Kept :
      (w : World host posix) (p : Option (PosixRandomAccessFile × Files))
      → max_acquires < 2 ^ 31
      → Picked w.files p
      → Kept w
      → Ends false (delete_picked host posix w p)
  delete-Kept w none small picked kept = kept
  delete-Kept w (some (f, gs)) small (count, has, good) kept =
      let (l, k, gone, back, closed) =
        destroy-Gives posix table w.limiter w.kernel f (omega (arith, small, kept.balance))
          (good kept.good).0 in
      subst (λ r. Ends false (Option.map (world host posix gs) r)) (sym gone)
        (record {
          good = (good kept.good).1;
          balance = omega (arith, back, count, kept.balance);
          tally = λ x. omega (arith, closed x, has x, kept.tally x);
        })

  read_picked-Kept :
      (w : World host posix) (offset n : ℕ) (has_scratch : Bool)
      (p : Option (PosixRandomAccessFile × Files))
      → Kept w
      → Ends true (read_picked host posix w offset n has_scratch p)
  read_picked-Kept w offset n has_scratch none kept = kept
  read_picked-Kept w offset n has_scratch (some (f, gs)) kept =
      read-Kept w (read posix host w.kernel f offset n has_scratch empty_slice)
        (read-Untouched posix table host w.kernel f offset n has_scratch empty_slice) kept

  step-Kept :
      (c : Call) (w : World host posix)
      → max_acquires < 2 ^ 31
      → Kept w
      → Ends (is_read c) (step host posix c w)
  unfolding step
  step-Kept (create filename) w small kept =
      create-Kept w filename (posix.open_readonly w.kernel filename) small
        (table.opens w.kernel filename) kept
  step-Kept (read_at i offset n has_scratch) w small kept =
      read_picked-Kept w offset n has_scratch (pick i w.files) kept
  step-Kept (delete i) w small kept =
      delete-Kept w (pick i w.files) small (pick-Picked i w.files) kept

  may_fault_too :
      (may_fault : Bool) (r : Option (World host posix)) → Ends may_fault r → Ends true r
  may_fault_too may_fault none ends = refl
  may_fault_too may_fault (some w) kept = kept

  then_run :
      (first rest : Bool) (r : Option (World host posix))
      (next : World host posix → Option (World host posix))
      → Ends first r
      → ((w : World host posix) → Kept w → Ends rest (next w))
      → Ends (first || rest) (Option.bind r next)
  unfolding Option.bind
  then_run first rest none next ends others = rw ends refl
  then_run false rest (some w) next ends others = others w ends
  then_run true rest (some w) next ends others = may_fault_too rest (next w) (others w ends)

  run-Kept :
      (cs : List Call) (w : World host posix)
      → max_acquires < 2 ^ 31
      → Kept w
      → Ends (has_read cs) (run host posix cs w)
  unfolding run
  run-Kept [] w small kept = kept
  run-Kept (c ∷ cs) w small kept =
      then_run (is_read c) (has_read cs) (step host posix c w) (run host posix cs)
        (step-Kept c w small kept) (λ w'. run-Kept cs w' small)

-- Where `open` adds the descriptor that it returns, `close` takes its own away and `pread` leaves them:
-- on a new limiter of less than 2^31 resources, any calls that open files, read them and delete them,
-- in any order, end in a world where each file has a descriptor exactly where it says so, the counter
-- of the limiter and the number of files with a descriptor make up the maximum, and each descriptor
-- is open as often as it was at the start and as the files have it. Only a run with a read faults.
pub run-new-Ends :
    (host : Endian) (posix : Posix) (table : Descriptors posix) (cs : List Call) (max_acquires : ℕ)
    (k : posix.Kernel)
    → max_acquires < 2 ^ 31
    → Ends host posix table max_acquires
        (table.held k)
        (has_read cs)
        (run host posix cs (world host posix [] (Limiter.new max_acquires, k)))
unfolding Limiter.new
run-new-Ends host posix table cs max_acquires k small =
    run-Kept host posix table max_acquires (table.held k) cs _ small
      (record { good = tt; balance = omega (arith, small); tally = λ x. omega arith })
