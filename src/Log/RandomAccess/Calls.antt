-- ===== src/Log/RandomAccess/Calls.antt =====
-- Calls on any number of files that share a limiter.
use mathlib.Core.Option
use iceberg_db.Prelude.{
  ℕ, zero, suc, ◌+◌, ◌≡◌, refl, ◌⊎◌, inl, inr, Bool, true, false, ◌||◌, Option, none, some, List,
  [], ◌∷◌, All, arith,
}
use iceberg_db.Base.Coding.{Endian}
use iceberg_db.Base.Status.{Status}
use iceberg_db.Log.Limiter.{Limiter}
use iceberg_db.Base.Slice.{Slice, of_buffer}
use iceberg_db.Log.Posix.{Posix, Errno}
use iceberg_db.Log.RandomAccess.{PosixRandomAccessFile, new, destroy, read}
use iceberg_db.Log.RandomAccess.Kept.{owns, WellFormed, takes}

-- A file is opened and an object made of it; the i-th object is read, or deleted.
pub data Call : Type 0 where
  create : List ℕ → Call
  read_at : ℕ → ℕ → ℕ → Bool → Call
  delete : ℕ → Call

abbrev pub is_read : Call → Bool
is_read (create filename) = false
is_read (read_at i offset n has_scratch) = true
is_read (delete i) = false

abbrev pub has_read : List Call → Bool
has_read [] = false
has_read (c ∷ cs) = is_read c || has_read cs

abbrev pub Files : Type 0
Files = List PosixRandomAccessFile

-- `Slice()`
abbrev pub empty_slice : Slice
empty_slice = of_buffer [] 0

-- The i-th file, and the others
unfoldable pub pick : ℕ → Files → Option (PosixRandomAccessFile × Files)
pick i [] = none
pick zero (f ∷ fs) = some (f, fs)
pick (suc i) (f ∷ fs) =
    Option.map (λ ((g, gs) : PosixRandomAccessFile × Files). (g, f ∷ gs)) (pick i fs)

-- How many files have a descriptor, and how many have the descriptor x.
abbrev pub permanents : Files → ℕ
permanents [] = 0
permanents (f ∷ fs) = takes f + permanents fs

abbrev pub owned : Files → ℕ → ℕ
owned [] x = 0
owned (f ∷ fs) x = owns f.fd x + owned fs x

-- A file that is picked, and the others, make up the files.
abbrev pub Picked : Files → Option (PosixRandomAccessFile × Files) → Type 0
Picked fs none = Unit
Picked fs (some (f, gs)) =
    (permanents fs ≡ takes f + permanents gs)
    × ((x : ℕ) → owned fs x ≡ owns f.fd x + owned gs x)
    × (All WellFormed fs → WellFormed f × All WellFormed gs)

pick_later :
    (f : PosixRandomAccessFile) (fs : Files) (r : Option (PosixRandomAccessFile × Files))
    → Picked fs r
    → Picked (f ∷ fs) (Option.map (λ ((g, gs) : PosixRandomAccessFile × Files). (g, f ∷ gs)) r)
pick_later f fs none p = tt
pick_later f fs (some (g, gs)) (count, has, good) =
    (omega (arith, count), λ x. omega (arith, has x), λ (a, b). ((good b).0, (a, (good b).1)))

pub pick-Picked : (i : ℕ) (fs : Files) → Picked fs (pick i fs)
unfolding pick
pick-Picked i [] = tt
pick-Picked zero (f ∷ fs) = (refl, λ x. refl, λ (a, b). (a, b))
pick-Picked (suc i) (f ∷ fs) = pick_later f fs (pick i fs) (pick-Picked i fs)

module _ (host : Endian) (posix : Posix) where
  pub record World : Type 0 where
    pub limiter : Limiter
    pub kernel : posix.Kernel
    pub files : Files

  abbrev pub world : Files → Limiter × posix.Kernel → World
  world fs (l, k) = record { limiter = l; kernel = k; files = fs }

  abbrev pub with_file : Files → Limiter × posix.Kernel × PosixRandomAccessFile → World
  with_file fs (l, k, f) = world (f ∷ fs) (l, k)

  abbrev pub open_answered : Limiter → Files → List ℕ → posix.Kernel × (Errno ⊎ ℕ) → World
  open_answered l fs filename (k, inl e) = world fs (l, k)
  open_answered l fs filename (k, inr d) = with_file fs (new posix l k filename d)

  abbrev pub after_read : World → posix.Kernel × Status × Slice → World
  after_read w (k, status, result) = world w.files (w.limiter, k)

  abbrev pub read_picked :
      World → ℕ → ℕ → Bool → Option (PosixRandomAccessFile × Files) → Option World
  read_picked w offset n has_scratch none = some w
  read_picked w offset n has_scratch (some (f, gs)) =
      Option.map (after_read w) (read posix host w.kernel f offset n has_scratch empty_slice)

  abbrev pub delete_picked : World → Option (PosixRandomAccessFile × Files) → Option World
  delete_picked w none = some w
  delete_picked w (some (f, gs)) = Option.map (world gs) (destroy posix w.limiter w.kernel f)

  -- A call, where no `assert` fails
  unfoldable pub step : Call → World → Option World
  step (create filename) w =
      some (open_answered w.limiter w.files filename (posix.open_readonly w.kernel filename))
  step (read_at i offset n has_scratch) w = read_picked w offset n has_scratch (pick i w.files)
  step (delete i) w = delete_picked w (pick i w.files)

  unfoldable pub run : List Call → World → Option World
  run [] w = some w
  run (c ∷ cs) w = Option.bind (step c w) (run cs)
