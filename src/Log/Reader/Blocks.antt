-- ===== src/Log/Reader/Blocks.antt =====
-- `ReadPhysicalRecord` over the blocks of a file that holds the layout of fragments.
use mathlib.Core.List.{append_assoc, append-nil}
use iceberg_db.Prelude.{
  ℕ, ◌+◌, ◌%◌, ◌^◌, ◌≤◌, ◌<◌, min, ◌≡◌, refl, sym, ap, ◌∙◌, Bool, true, false, List, [], ◌++◌, ltb,
  length, take, drop, All, arith, inl, inr, Bool-cases, length-append, length-take, drop_all,
  prefix_split, take-append-drop,
}
use iceberg_db.Base.Coding.{Endian, IsByte}
use iceberg_db.Base.Status.{status_ok}
use iceberg_db.Log.Format.{RecordType, type_number, block_size, header_size, SequentialFile}
use iceberg_db.Log.Checksum.{Checksum}
use iceberg_db.Log.Writer.{header}
use iceberg_db.Log.Writer.Layout.{physical}
use iceberg_db.Log.Reader.{Reader, returns, parse_header, refill}
use iceberg_db.Log.Reader.Parsed.{Heads, header-Heads, parse_header-returns}

-- A file that is read from front to back: by no more than a block at once; a
-- short read means its end.
pub record Plain (file : SequentialFile) : Type 0 where
  pub remaining : file.State → List ℕ
  pub read_next :
      (s : file.State) (n : ℕ)
      → n ≤ block_size
      → (s' : file.State) × (file.read s n ≡ (s', status_ok, take n (remaining s)))
        × (remaining s' ≡ drop n (remaining s))

module _ (host : Endian) (sum : Checksum) (file : SequentialFile) (plain : Plain file) where
  -- The reader stands `off` bytes into a block, and `stream` is what it has still to read.
  pub record AtOffset (off : ℕ) (stream : List ℕ) (r : Reader host sum file) : Type 0 where
    pub ahead : r.buffer ++ plain.remaining r.source ≡ stream
    pub in_block : length r.buffer + off ≤ block_size
    pub whole_block : r.eof ≡ false → length r.buffer + off ≡ block_size
    pub at_end : r.eof ≡ true → plain.remaining r.source ≡ []
    pub from_start : r.initial_offset ≡ 0
    pub in_sync : r.resyncing ≡ false

  abbrev pub Quiet : Reader host sum file → Reader host sum file → Type 0
  Quiet r r' = r'.reports ≡ r.reports

  -- A read at the end of a block goes on at the front of the next one.
  pub refill-AtOffset :
      (off : ℕ) (stream : List ℕ) (r : Reader host sum file)
      → r.eof ≡ false
      → r.initial_offset ≡ 0
      → r.resyncing ≡ false
      → plain.remaining r.source ≡ stream
      → (r' : Reader host sum file) × (refill host sum file r ≡ (r', true))
        × AtOffset 0 stream r'
        × Quiet r r'
  unfolding refill
  refill-AtOffset off stream r more at sync e =
      let (s, run, left) = plain.read_next r.source block_size (omega arith) in
      let bytes : List ℕ = take block_size (plain.remaining r.source) in
      let r1 : Bool → Reader host sum file = λ end. record r {
        source = s;
        buffer = bytes;
        eof = end;
        end_of_buffer_offset = (r.end_of_buffer_offset + length bytes) % 2 ^ 64;
      } in
      let all : bytes ++ plain.remaining s ≡ stream =
        rw left (take-append-drop block_size (plain.remaining r.source)) ∙ e in
      let size : length bytes ≡ min block_size (length (plain.remaining r.source)) =
        length-take block_size (plain.remaining r.source) in
      elim (Bool-cases (ltb (length bytes) block_size)) [
        | inl short ↦ (
          r1 true,
          rw (run, short),
          record {
            ahead = all;
            in_block = ground arith;
            whole_block = λ no_end. cc;
            at_end = λ end. rw left (drop_all block_size (plain.remaining r.source) (ground arith));
            from_start = at;
            in_sync = sync;
          },
          refl,
        )
        | inr full ↦ (
          r1 false,
          rw (run, full, more),
          record {
            ahead = all;
            in_block = ground arith;
            whole_block = λ no_end. ground arith;
            at_end = λ end. cc;
            from_start = at;
            in_sync = sync;
          },
          refl,
        )
      ]

  -- The fragment stands in the buffer.
  pub parse-AtOffset :
      (off : ℕ) (t : RecordType) (p rest : List ℕ) (frag : List ℕ) (r : Reader host sum file)
      → AtOffset off (physical host sum t p ++ rest) r
      → 0 < type_number t
      → All IsByte p
      → off + (header_size + length p) ≤ block_size
      → (r' : Reader host sum file) × (parse_header host sum file r frag
          ≡ returns host sum file r' (type_number t) p)
        × AtOffset (off + (header_size + length p)) rest r'
        × Quiet r r'
        × (header_size ≤ length r.buffer)
  parse-AtOffset off t p rest frag r a pos bytes fits =
      let head : List ℕ = header host sum t p in
      let hd : Heads host sum t p head = header-Heads host sum t p (omega arith) in
      let long : length (physical host sum t p) ≡ header_size + length p =
        omega (arith, length-append head p, hd.size) in
      let room : length (physical host sum t p) ≤ length r.buffer = buffer_holds long in
      let (tail, front, behind) =
        prefix_split (physical host sum t p) r.buffer (plain.remaining r.source) rest a.ahead
          room in
      let sizes : length r.buffer ≡ header_size + length p + length tail =
        rw front (omega (arith, length-append (physical host sum t p) tail, long)) in
      (
        record r { buffer = tail },
        parse_header-returns host sum file r frag head p tail t hd pos (omega arith) bytes
            a.from_start (front ∙ append_assoc head p tail),
        record {
          ahead = behind;
          in_block = omega (arith, a.in_block, sizes);
          whole_block = λ more. omega (arith, a.whole_block more, sizes);
          at_end = a.at_end;
          from_start = a.from_start;
          in_sync = a.in_sync;
        },
        refl,
        omega (arith, sizes),
      )
    where
      buffer_holds :
          length (physical host sum t p) ≡ header_size + length p
          → length (physical host sum t p) ≤ length r.buffer
      buffer_holds long = elim (Bool-cases r.eof) [
        | inl end ↦
            let all : r.buffer ≡ physical host sum t p ++ rest =
              sym (append-nil r.buffer) ∙ rw (a.at_end end) at a.ahead in
            omega (arith, ap length all, length-append (physical host sum t p) rest)
        | inr more ↦ omega (arith, a.whole_block more)
      ]
