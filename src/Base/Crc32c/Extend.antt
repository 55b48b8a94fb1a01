-- ===== src/Base/Crc32c/Extend.antt =====
-- The loops of `Extend`, against the checksum of `Rounds`.
use Prim.Native.Nat.{bit_xor}
use mathlib.Core.Option
use mathlib.Core.List.{foldl, foldl-append}
use iceberg_db.Prelude.{
  ℕ, ◌+◌, ◌*◌, ◌/◌, ◌%◌, ◌^◌, ◌≤◌, ◌<◌, ◌≡◌, refl, sym, ap, ◌∙◌, some, List, [], ◌∷◌, ◌++◌, inl,
  inr, Bool-cases, ◌==◌, leb, if◌then◌else◌, length, All, All-append, arith,
}
use iceberg_db.Prelude.Bits.{bit_xor-lt, bit_xor_cancel}
use iceberg_db.Base.Coding.{Endian, IsByte, decode_fixed32}
use iceberg_db.Base.Crc32c.Rounds.{crc_byte, crc_byte-lt, crc_bytes}
use iceberg_db.Base.Crc32c.Lookup.{step1-crc_byte, step4-crc_byte}
use iceberg_db.Base.Crc32c.{Cursor, step1, step4, bytes_until, by_sixteen, by_four, extend}

-- The bytes that `s` has still to read lead to the checksum state that `bytes`, read from `l` on
-- at address `p`, lead to.
record Continues (l p : ℕ) (bytes : List ℕ) (s : Cursor) : Type 0 where
  state : foldl crc_byte s.l s.left ≡ foldl crc_byte l bytes
  word : s.l < 2 ^ 32
  left_bytes : All IsByte s.left
  end : s.p + length s.left ≡ p + length bytes

here :
    (l p : ℕ) (bytes : List ℕ)
    → l < 2 ^ 32
    → All IsByte bytes
    → Continues l p bytes (record { l = l; p = p; left = bytes })
here l p bytes h k = record { state = refl; word = h; left_bytes = k; end = refl }

bytes_until-Continues :
    (x l p : ℕ) (bs : List ℕ)
    → l < 2 ^ 32
    → All IsByte bs
    → p ≤ x
    → x ≤ p + length bs
    → (s : Cursor) × (bytes_until x l p bs ≡ some s) × (s.p ≡ x) × Continues l p bs s
unfolding bytes_until
bytes_until-Continues x l p [] h k lo hi =
    (record { l = l; p = p; left = [] }, ground arith, omega arith, here l p [] h k)
bytes_until-Continues x l p (b ∷ bs) h k lo hi = elim (Bool-cases (p == x)) [
  | inl e ↦ (record { l = l; p = p; left = b ∷ bs }, rw e, ground arith, here l p (b ∷ bs) h k)
  | inr e ↦
      let l' : step1 l b ≡ crc_byte l b = step1-crc_byte l b k.0 in
      let (s, run, at, c) =
        bytes_until-Continues x (crc_byte l b) (p + 1) bs (crc_byte-lt l b h k.0) k.1 (ground arith)
          (omega arith) in
      (
        s,
        rw (e, l') run,
        at,
        record {
          state = c.state;
          word = c.word;
          left_bytes = c.left_bytes;
          end = omega (arith, c.end);
        },
      )
]

Continues-trans :
    {l p : ℕ} {bytes : List ℕ} {s t : Cursor}
    → Continues l p bytes s
    → Continues s.l s.p s.left t
    → Continues l p bytes t
Continues-trans c d = record {
  state = d.state ∙ c.state;
  word = d.word;
  left_bytes = d.left_bytes;
  end = d.end ∙ c.end;
}

crc_byte_four-lt :
    (l a b c d : ℕ)
    → l < 2 ^ 32
    → IsByte a
    → IsByte b
    → IsByte c
    → IsByte d
    → crc_byte (crc_byte (crc_byte (crc_byte l a) b) c) d < 2 ^ 32
crc_byte_four-lt l a b c d h ha hb hc hd =
    crc_byte-lt _ d (crc_byte-lt _ c (crc_byte-lt _ b (crc_byte-lt l a h ha) hb) hc) hd

abbrev four_bytes : ℕ → ℕ → ℕ → ℕ → List ℕ
four_bytes a b c d = a ∷ b ∷ c ∷ d ∷ []

module _ (host : Endian) where
  abbrev load_step : ℕ → List ℕ → ℕ
  load_step l word = step4 l (decode_fixed32 host word)

  -- One STEP4 on the four bytes in front.
  step4-Continues :
      (l p q a b c d : ℕ) (left : List ℕ)
      → q ≡ p + 4
      → l < 2 ^ 32
      → All IsByte (a ∷ b ∷ c ∷ d ∷ left)
      → Continues l p
          (a ∷ b ∷ c ∷ d ∷ left)
          (record { l = load_step l (four_bytes a b c d); p = q; left = left })
  step4-Continues l p q a b c d left at h k =
      let e = step4-crc_byte host l a b c d h k.0 k.1.0 k.1.1.0 k.1.1.1.0 in
      record {
        state = ap (λ (t : ℕ). foldl crc_byte t left) e;
        word = rw e (crc_byte_four-lt l a b c d h k.0 k.1.0 k.1.1.0 k.1.1.1.0);
        left_bytes = k.1.1.1.1;
        end = omega arith;
      }

  by_four-Continues :
      (l p : ℕ) (bs : List ℕ) → l < 2 ^ 32 → All IsByte bs → Continues l p bs (by_four host l p bs)
  unfolding by_four
  by_four-Continues l p (a ∷ b ∷ c ∷ d ∷ left) h k =
      let s = step4-Continues l p (p + 4) a b c d left refl h k in
      Continues-trans s
        (by_four-Continues (load_step l (four_bytes a b c d)) (p + 4) left s.word s.left_bytes)
  by_four-Continues l p bs h k = here l p bs h k

  by_sixteen-Continues :
      (l p : ℕ) (bs : List ℕ)
      → l < 2 ^ 32
      → All IsByte bs
      → Continues l p bs (by_sixteen host l p bs)
  unfolding by_sixteen
  by_sixteen-Continues l p
        (a0 ∷ a1 ∷ a2 ∷ a3 ∷ b0 ∷ b1 ∷ b2 ∷ b3 ∷ c0 ∷ c1 ∷ c2 ∷ c3 ∷ d0 ∷ d1 ∷ d2 ∷ d3 ∷ left) h k =
      let l1 = load_step l (four_bytes a0 a1 a2 a3) in
      let l2 = load_step l1 (four_bytes b0 b1 b2 b3) in
      let l3 = load_step l2 (four_bytes c0 c1 c2 c3) in
      let l4 = load_step l3 (four_bytes d0 d1 d2 d3) in
      let left3 = d0 ∷ d1 ∷ d2 ∷ d3 ∷ left in
      let left2 = c0 ∷ c1 ∷ c2 ∷ c3 ∷ left3 in
      let left1 = b0 ∷ b1 ∷ b2 ∷ b3 ∷ left2 in
      let s = step4-Continues l p (p + 4) a0 a1 a2 a3 left1 refl h k in
      let t =
        step4-Continues l1 (p + 4) (p + 8) b0 b1 b2 b3 left2 (omega arith) s.word s.left_bytes in
      let u =
        step4-Continues l2 (p + 8) (p + 12) c0 c1 c2 c3 left3 (omega arith) t.word t.left_bytes in
      let v =
        step4-Continues l3 (p + 12) (p + 16) d0 d1 d2 d3 left (omega arith) u.word u.left_bytes in
      Continues-trans (Continues-trans s (Continues-trans t (Continues-trans u v))) (
        by_sixteen-Continues
          (load_step
            (load_step (load_step (load_step l (four_bytes a0 a1 a2 a3)) (four_bytes b0 b1 b2 b3))
              (four_bytes c0 c1 c2 c3))
            (four_bytes d0 d1 d2 d3))
          (p + 16) left v.word v.left_bytes)
  by_sixteen-Continues l p bs h k = here l p bs h k

-- The address range of the buffer does not wrap.
abbrev pub InMemory : ℕ → List ℕ → Type 0
InMemory address buf = address + length buf + 4 ≤ 2 ^ 64

-- The loop up to the first aligned address, which is left out where the buffer ends before it.
to_aligned-Continues :
    (x address l : ℕ) (buf : List ℕ)
    → l < 2 ^ 32
    → All IsByte buf
    → address ≤ x
    → (s : Cursor) × ((if leb x (address + length buf)
          then bytes_until x l address buf
          else some (record { l = l; p = address; left = buf }))
        ≡ some s)
      × Continues l address buf s
to_aligned-Continues x address l buf h k m = elim (Bool-cases (leb x (address + length buf))) [
  | inl e ↦
      let (s, run, at, c) = bytes_until-Continues x l address buf h k m (ground arith) in
      (s, rw e run, c)
  | inr e ↦ (record { l = l; p = address; left = buf }, rw e, here l address buf h k)
]

-- The loop up to the end leaves no byte.
to_end-state :
    (e : ℕ) (s : Cursor)
    → s.l < 2 ^ 32
    → All IsByte s.left
    → e ≡ s.p + length s.left
    → (t : Cursor) × (bytes_until e s.l s.p s.left ≡ some t) × (t.l ≡ foldl crc_byte s.l s.left)
to_end-state e s h k end =
    let (t, run, at, c) = bytes_until-Continues e s.l s.p s.left h k (omega arith) (omega arith) in
    (
      t,
      run,
      ap (λ (bs : List ℕ). foldl crc_byte t.l bs) (sym (none_left t.left (omega (arith, c.end))))
          ∙ c.state,
    )
  where
    none_left : (bs : List ℕ) → length bs ≡ 0 → bs ≡ []
    none_left [] z = refl
    none_left (b ∷ bs) z = absurd (omega arith)

-- On a host of either byte order and at every address `Extend` of a 32-bit checksum by bytes returns
-- what the bit-by-bit CRC-32C returns, where the buffer ends at least 4 bytes below 2^64.
pub extend-crc_bytes :
    (host : Endian) (address crc : ℕ) (buf : List ℕ)
    → crc < 2 ^ 32
    → All IsByte buf
    → InMemory address buf
    → extend host address crc buf ≡ some (crc_bytes crc buf)
unfolding extend crc_bytes
extend-crc_bytes host address crc buf h k m =
    let l : ℕ = bit_xor crc 0xffff_ffff in
    let (s, run, c) =
      to_aligned-Continues ((address + 3) % 2 ^ 64 / 2 ^ 2 * 2 ^ 2) address l buf
        (bit_xor-lt 32 crc 0xffff_ffff h (omega arith)) k (omega arith) in
    let s' = by_sixteen host s.l s.p s.left in
    let s'' = by_four host s'.l s'.p s'.left in
    let sixteen = by_sixteen-Continues host s.l s.p s.left c.word c.left_bytes in
    let four = by_four-Continues host s'.l s'.p s'.left sixteen.word sixteen.left_bytes in
    let all = Continues-trans c (Continues-trans sixteen four) in
    let (t, run_end, state) =
      to_end-state (address + length buf) s'' all.word all.left_bytes (sym all.end) in
    rw run (rw run_end (ap (λ (x : ℕ). some (bit_xor x 0xffff_ffff)) (state ∙ all.state)))

pub crc_bytes-append :
    (crc : ℕ) (xs ys : List ℕ) → crc_bytes crc (xs ++ ys) ≡ crc_bytes (crc_bytes crc xs) ys
unfolding crc_bytes
crc_bytes-append crc xs ys = rw (foldl-append, bit_xor_cancel)

foldl-crc_byte-lt :
    (l : ℕ) (bs : List ℕ) → l < 2 ^ 32 → All IsByte bs → foldl crc_byte l bs < 2 ^ 32
foldl-crc_byte-lt l [] h k = h
foldl-crc_byte-lt l (b ∷ bs) h k = foldl-crc_byte-lt (crc_byte l b) bs (crc_byte-lt l b h k.0) k.1

pub crc_bytes-lt :
    (crc : ℕ) (bs : List ℕ) → crc < 2 ^ 32 → All IsByte bs → crc_bytes crc bs < 2 ^ 32
unfolding crc_bytes
crc_bytes-lt crc bs h k =
    bit_xor-lt 32 _ 0xffff_ffff
      (foldl-crc_byte-lt _ bs (bit_xor-lt 32 crc 0xffff_ffff h (omega arith)) k) (omega arith)

-- `Extend` by one buffer of bytes and then by another equals `Extend` by their concatenation, for a
-- 32-bit checksum and wherever the three buffers lie, each ending at least 4 bytes below 2^64.
pub extend-append :
    (host : Endian) (at_xs at_ys at_both crc : ℕ) (xs ys : List ℕ)
    → crc < 2 ^ 32
    → All IsByte xs
    → All IsByte ys
    → InMemory at_xs xs
    → InMemory at_ys ys
    → InMemory at_both (xs ++ ys)
    → Option.bind (extend host at_xs crc xs) (λ c. extend host at_ys c ys)
      ≡ extend host at_both crc (xs ++ ys)
unfolding Option.bind
extend-append host at_xs at_ys at_both crc xs ys h kx ky mx my m =
    rw (extend-crc_bytes host at_xs crc xs h kx mx) (
      extend-crc_bytes host at_ys (crc_bytes crc xs) ys (crc_bytes-lt crc xs h kx) ky my
      ∙ ap some (sym (crc_bytes-append crc xs ys))
      ∙ sym (extend-crc_bytes host at_both crc (xs ++ ys) h (All-append IsByte xs ys kx ky) m))
