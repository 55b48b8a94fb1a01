-- ===== src/Log/RandomAccess/Contents.antt =====
-- What a read gives of a file whose contents are known.
use mathlib.Core.Option
use iceberg_db.Prelude.{
  ℕ, ◌-◌, ◌^◌, ◌<◌, ◌≡◌, refl, sym, subst, ap, ◌∙◌, inr, Bool, true, false, Option, none, some,
  List, is_some, leb, ◌==◌, if◌then◌else◌, length, length-take, length-drop, take, drop, arith,
}
use iceberg_db.Base.Coding.{Endian}
use iceberg_db.Base.Status.{Status, status_ok}
use iceberg_db.Base.Slice.{Slice, of_buffer, of_string}
use iceberg_db.Base.Slice.Order.{of_buffer-of_string}
use iceberg_db.Log.Posix.{Posix, off_t}
use iceberg_db.Log.RandomAccess.{PosixRandomAccessFile, positioned, with_opened, read}
use iceberg_db.Log.RandomAccess.Kept.{WellFormed}

-- A file that can be opened, and how `pread` reads it from a descriptor that is open on it: the bytes from
-- an offset that is not negative on, as many as are asked for, fewer than 2^31, and there.
pub record Readable (posix : Posix) (filename contents : List ℕ) : Type 1 where
  pub On : posix.Kernel → ℕ → Type 0
  pub opens :
      (k : posix.Kernel)
      → (k' : posix.Kernel) × (d : ℕ) × (posix.open_readonly k filename ≡ (k', inr d)) × On k' d
  pub reads :
      (k : posix.Kernel) (d offset n : ℕ)
      → On k d
      → offset < 2 ^ 63
      → n < 2 ^ 31
      → (k' : posix.Kernel) × (posix.pread k d true offset n
          ≡ (k', inr (take n (drop offset contents))))

module _ (host : Endian) (posix : Posix) (filename contents : List ℕ)
    (file : Readable posix filename contents) where
  -- All the bytes that were asked for, or a fault.
  abbrev AllOf : ℕ → ℕ → Option (posix.Kernel × Status × Slice) → Type 0
  AllOf offset n r =
      (k : posix.Kernel) × (r ≡ (
        if leb n (length contents - offset)
        then some (k, status_ok, of_string (take n (drop offset contents)))
        else none))

  whole_or_none :
      (offset n : ℕ)
      → (length (take n (drop offset contents)) == n) ≡ leb n (length contents - offset)
  whole_or_none offset n =
      ground (arith, length-take n (drop offset contents), length-drop offset contents)

  positioned-AllOf :
      (f : PosixRandomAccessFile) (k : posix.Kernel) (d offset n : ℕ)
      → file.On k d
      → offset < 2 ^ 63
      → n < 2 ^ 31
      → AllOf offset n (positioned posix host f n (posix.pread k d true (off_t offset) n))
  positioned-AllOf f k d offset n on low small =
      let bytes : List ℕ = take n (drop offset contents) in
      let (k', gives) = file.reads k d offset n on low small in
      let cast : off_t offset ≡ offset = omega (arith, low) in
      let size : length bytes < 2 ^ 31 =
        omega (arith, small, length-take n (drop offset contents)) in
      (
        k',
        ap (λ (o : ℕ). positioned posix host f n (posix.pread k d true o n)) cast
            ∙ ap (positioned posix host f n) gives
            ∙ ap
                (λ (b : Bool).
                  if b then some (k', status_ok, of_buffer bytes (length bytes)) else none)
                (whole_or_none offset n)
            ∙ ap
                (λ (x : Slice).
                  if leb n (length contents - offset) then some (k', status_ok, x) else none)
                (of_buffer-of_string bytes size),
      )

  -- The descriptor of a file, where it has one, is open on the file.
  abbrev pub IsOn : posix.Kernel → Option ℕ → Type 0
  IsOn k none = Unit
  IsOn k (some d) = file.On k d

  abbrev closing : ℕ → posix.Kernel × Status × Slice → posix.Kernel × Status × Slice
  closing d (k, status, filled) = (posix.close k d, status, filled)

  closed_if :
      (d : ℕ) (b : Bool) (answer : posix.Kernel × Status × Slice)
      → Option.map (closing d) (if b then some answer else none)
        ≡ (if b then some (closing d answer) else none)
  unfolding Option.map
  closed_if d true answer = refl
  closed_if d false answer = refl

  closed_after :
      (d offset n : ℕ) (r : Option (posix.Kernel × Status × Slice))
      → AllOf offset n r
      → AllOf offset n (Option.map (closing d) r)
  closed_after d offset n r (k, e) = (
    posix.close k d,
    ap (Option.map (closing d)) e
        ∙ closed_if d _ (k, status_ok, of_string (take n (drop offset contents))),
  )

  by_permanent :
      (k : posix.Kernel) (permanent : Bool) (fd : Option ℕ) (offset n : ℕ) (result : Slice)
      → is_some fd ≡ permanent
      → IsOn k fd
      → offset < 2 ^ 63
      → n < 2 ^ 31
      → AllOf offset n (
          read posix host k
            (record { has_permanent_fd = permanent; fd = fd; filename = filename })
            offset
            n
            true
            result)
  unfolding read Option.bind
  by_permanent k true none offset n result good on low small = absurd (ground arith)
  by_permanent k false (some d) offset n result good on low small = absurd (ground arith)
  by_permanent k true (some d) offset n result good on low small =
      positioned-AllOf (record { has_permanent_fd = true; fd = some d; filename = filename }) k d
        offset n on low small
  by_permanent k false none offset n result good on low small =
      let f : PosixRandomAccessFile = record {
        has_permanent_fd = false;
        fd = none;
        filename = filename;
      } in
      let (k1, d, opens, on1) = file.opens k in
      let (k2, e) = closed_after d offset n _ (positioned-AllOf f k1 d offset n on1 low small) in
      (k2, ap (with_opened posix host f offset n true result) opens ∙ e)

  -- Where a file can be opened, and `pread` gives its bytes from an offset on, as many as are asked for and
  -- there: `Read` with a buffer of fewer than 2^31 bytes, at an offset below 2^63, whether the object
  -- has a descriptor of its own, open on the file, or opens the file for the read, returns OK with the
  -- n bytes behind the offset where the file has as many, and faults where it has not.
  pub read-contents :
      (f : PosixRandomAccessFile) (k : posix.Kernel) (offset n : ℕ) (result : Slice)
      → f.filename ≡ filename
      → WellFormed f
      → IsOn k f.fd
      → offset < 2 ^ 63
      → n < 2 ^ 31
      → (k' : posix.Kernel) × (read posix host k f offset n true result ≡ (
          if leb n (length contents - offset)
          then some (k', status_ok, of_string (take n (drop offset contents)))
          else none))
  read-contents f k offset n result same good on low small =
      subst
        (λ name. AllOf offset n (
          read posix host k
            (record { has_permanent_fd = f.has_permanent_fd; fd = f.fd; filename = name }) offset n
            true result))
        (sym same) (by_permanent k f.has_permanent_fd f.fd offset n result good on low small)
