-- ===== src/Log/RandomAccess/Kept.antt =====
-- What the operations of a file do to the descriptors that are open, and to its limiter.
use mathlib.Core.Option
use iceberg_db.Prelude.{
  ℕ, ◌+◌, ◌-◌, ◌^◌, ◌≤◌, ◌<◌, ◌≡◌, refl, ◌⊎◌, inl, inr, Bool, true, false, Option, none, some, List,
  ◌==◌, if◌then◌else◌, is_some, Bool-cases, arith,
}
use iceberg_db.Base.Coding.{Endian}
use iceberg_db.Base.Status.{Status}
use iceberg_db.Log.Limiter.{Limiter, is_positive, acquire, add_one}
use iceberg_db.Base.Slice.{Slice}
use iceberg_db.Log.Posix.{off_t, Posix, Errno}
use iceberg_db.Log.RandomAccess.{
  settle, PosixRandomAccessFile, is_fd, read_size, construct, destroy, positioned, with_opened,
  read,
}

abbrev pub one_at : ℕ → ℕ → ℕ
one_at d x = if d == x then 1 else 0

-- The descriptor of an answer, or of a member
abbrev pub opened : Errno ⊎ ℕ → ℕ → ℕ
opened (inl e) x = 0
opened (inr d) x = one_at d x

abbrev pub owns : Option ℕ → ℕ → ℕ
owns none x = 0
owns (some d) x = one_at d x

-- How often a descriptor is open: `open` adds the one that it returns, `close` takes its own away, and
-- `pread` leaves them.
pub record Descriptors (posix : Posix) : Type 0 where
  pub held : posix.Kernel → ℕ → ℕ
  pub opens :
      (k : posix.Kernel) (filename : List ℕ) (x : ℕ)
      → held (posix.open_readonly k filename).0 x
        ≡ held k x + opened (posix.open_readonly k filename).1 x
  pub preads :
      (k : posix.Kernel) (d : ℕ) (there : Bool) (offset n x : ℕ)
      → held (posix.pread k d there offset n).0 x ≡ held k x
  pub closes : (k : posix.Kernel) (d x : ℕ) → held (posix.close k d) x ≡ held k x - one_at d x

-- A file has a descriptor exactly where it says so.
abbrev pub WellFormed : PosixRandomAccessFile → Type 0
WellFormed f = is_some f.fd ≡ f.has_permanent_fd

-- What a file takes of the limiter
abbrev pub takes : PosixRandomAccessFile → ℕ
takes f = if f.has_permanent_fd then 1 else 0

-- `Acquire` takes one if it returns true, and leaves the counter if it returns false.
pub settle-acquire :
    (l : Limiter)
    → l.acquires_allowed < 2 ^ 31
    → (settle (acquire l)).0.acquires_allowed + (if (settle (acquire l)).1 then 1 else 0)
      ≡ l.acquires_allowed
unfolding acquire is_positive settle add_one
settle-acquire l small = elim (Bool-cases (is_positive l.acquires_allowed)) [
  | inl b ↦ rw b (ground arith)
  | inr b ↦ rw b (ground arith)
]

module _ (posix : Posix) (table : Descriptors posix) where
  -- A new file that was given an open descriptor.
  pub construct-held :
      (k : posix.Kernel) (filename : List ℕ) (fd : ℕ) (r : Limiter × Bool) (x : ℕ)
      → one_at fd x ≤ table.held k x
      → table.held (construct posix k filename fd r).1 x + one_at fd x
        ≡ table.held k x + owns (construct posix k filename fd r).2.fd x
  construct-held k filename fd (l, true) x has = refl
  construct-held k filename fd (l, false) x has = omega (arith, table.closes k fd x, has)

  pub construct-takes :
      (k : posix.Kernel) (filename : List ℕ) (fd : ℕ) (r : Limiter × Bool)
      → (takes (construct posix k filename fd r).2 ≡ (if r.1 then 1 else 0))
        × ((construct posix k filename fd r).0 ≡ r.0)
        × WellFormed (construct posix k filename fd r).2
  construct-takes k filename fd (l, true) = (refl, refl, refl)
  construct-takes k filename fd (l, false) = (refl, refl, refl)

  -- The destructor gives back what the file took, and closes what it has.
  abbrev pub Gives : Limiter → posix.Kernel → PosixRandomAccessFile → Type 0
  Gives l k f =
      (l' : Limiter) × (k' : posix.Kernel) × (destroy posix l k f ≡ some (l', k'))
      × (l'.acquires_allowed ≡ l.acquires_allowed + takes f)
      × ((x : ℕ) → table.held k' x ≡ table.held k x - owns f.fd x)

  destroyed_by_fields :
      (l : Limiter) (k : posix.Kernel) (filename : List ℕ) (permanent : Bool) (fd : Option ℕ)
      → l.acquires_allowed < 2 ^ 31
      → is_some fd ≡ permanent
      → Gives l k (record { has_permanent_fd = permanent; fd = fd; filename = filename })
  unfolding destroy add_one
  destroyed_by_fields l k filename true none small good = absurd (ground arith)
  destroyed_by_fields l k filename true (some d) small good =
      (add_one l, posix.close k d, refl, omega arith, λ x. table.closes k d x)
  destroyed_by_fields l k filename false none small good =
      (l, k, refl, omega arith, λ x. omega arith)
  destroyed_by_fields l k filename false (some d) small good = absurd (ground arith)

  pub destroy-Gives :
      (l : Limiter) (k : posix.Kernel) (f : PosixRandomAccessFile)
      → l.acquires_allowed < 2 ^ 31
      → WellFormed f
      → Gives l k f
  destroy-Gives l k f small good =
      destroyed_by_fields l k f.filename f.has_permanent_fd f.fd small good

  -- A read leaves the descriptors as they were, where it returns.
  abbrev pub Untouched : posix.Kernel → Option (posix.Kernel × Status × Slice) → Type 0
  Untouched k none = Unit
  Untouched k (some (k', status, result)) = (x : ℕ) → table.held k' x ≡ table.held k x

  module _ (host : Endian) where
    positioned_held :
        (k : posix.Kernel) (f : PosixRandomAccessFile) (n : ℕ) (p : posix.Kernel × (Errno ⊎ List ℕ))
        → ((x : ℕ) → table.held p.0 x ≡ table.held k x)
        → Untouched k (positioned posix host f n p)
    positioned_held k f n (k', answer) same = elim (Bool-cases (read_size answer == n)) [
      | inl e ↦ rw e same
      | inr e ↦ rw e tt
    ]

    closed_again :
        (k k1 : posix.Kernel) (d : ℕ) (r : Option (posix.Kernel × Status × Slice))
        → ((x : ℕ) → table.held k1 x ≡ table.held k x + one_at d x)
        → Untouched k1 r
        → Untouched k (
            Option.map
              (λ ((k', status, filled) : posix.Kernel × Status × Slice).
                (posix.close k' d, status, filled))
              r)
    closed_again k k1 d none more same = tt
    closed_again k k1 d (some (k', status, result)) more same =
        λ x. omega (arith, table.closes k' d x, same x, more x)

    with_opened_held :
        (k : posix.Kernel) (f : PosixRandomAccessFile) (offset n : ℕ) (has_scratch : Bool)
        (result : Slice) (p : posix.Kernel × (Errno ⊎ ℕ))
        → ((x : ℕ) → table.held p.0 x ≡ table.held k x + opened p.1 x)
        → Untouched k (with_opened posix host f offset n has_scratch result p)
    with_opened_held k f offset n has_scratch result (k1, inl e) same = λ x. omega (arith, same x)
    with_opened_held k f offset n has_scratch result (k1, inr d) more =
        elim (Bool-cases (is_fd f.fd d)) [
          | inl e ↦ rw e tt
          | inr e ↦ rw e (
              closed_again k k1 d _ more (
                positioned_held k1 f n (posix.pread k1 d has_scratch (off_t offset) n)
                  (table.preads k1 d has_scratch (off_t offset) n)))
        ]

    by_permanent :
        (k : posix.Kernel) (filename : List ℕ) (permanent : Bool) (fd : Option ℕ) (offset n : ℕ)
        (has_scratch : Bool) (result : Slice)
        → Untouched k (
            read posix host k
              (record { has_permanent_fd = permanent; fd = fd; filename = filename })
              offset
              n
              has_scratch
              result)
    unfolding read Option.bind
    by_permanent k filename true none offset n has_scratch result = tt
    by_permanent k filename true (some d) offset n has_scratch result =
        positioned_held k (record { has_permanent_fd = true; fd = some d; filename = filename }) n
          (posix.pread k d has_scratch (off_t offset) n)
          (table.preads k d has_scratch (off_t offset) n)
    by_permanent k filename false fd offset n has_scratch result =
        with_opened_held k (record { has_permanent_fd = false; fd = fd; filename = filename })
          offset n has_scratch result (posix.open_readonly k filename) (table.opens k filename)

    pub read-Untouched :
        (k : posix.Kernel) (f : PosixRandomAccessFile) (offset n : ℕ) (has_scratch : Bool)
        (result : Slice)
        → Untouched k (read posix host k f offset n has_scratch result)
    read-Untouched k f offset n has_scratch result =
        by_permanent k f.filename f.has_permanent_fd f.fd offset n has_scratch result
