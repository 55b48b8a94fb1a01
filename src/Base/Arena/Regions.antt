-- ===== src/Base/Arena/Regions.antt =====
-- The regions that an arena hands out, its blocks, and what is free.
use iceberg_db.Prelude.{
  ℕ, ◌+◌, ◌-◌, ◌/◌, ◌%◌, ◌^◌, ◌≤◌, ◌<◌, ◌≡◌, List, [], ◌∷◌, ◌++◌, ltb, leb, ◌==◌, All, arith, inl,
  inr, ◌⊎◌, Bool-cases, if◌then◌else◌,
}
use Prim.Native.Nat.{bit_and}
use iceberg_db.Prelude.Bits.{bit_and_mask}
use iceberg_db.Base.Arena.{
  Region, Arena, arena_block_size, allocate_new_block, allocate_fall_back, allocate,
  allocate_aligned,
}

abbrev pub Apart : Region → Region → Type 0
Apart r s = (r.address + r.size ≤ s.address) ⊎ (s.address + s.size ≤ r.address)

abbrev pub Inside : Region → Region → Type 0
Inside r b = (b.address ≤ r.address) × (r.address + r.size ≤ b.address + b.size)

abbrev pub Within : Region → List Region → Type 0
Within r [] = ⊥
Within r (b ∷ bs) = Inside r b ⊎ Within r bs

-- `new char[]` gives memory that is aligned and apart from every block in use.
abbrev pub Fresh : (List Region → ℕ → ℕ) → Type 0
Fresh new_char =
    (blocks : List Region) (n : ℕ)
    → All (Apart (record { address = new_char blocks n; size = n })) blocks
      × (new_char blocks n % 8 ≡ 0)

abbrev pub free : Arena → Region
free a = record { address = a.alloc_ptr; size = a.alloc_bytes_remaining }

-- An arena that has handed out the regions `given`.
pub record IsArena (a : Arena) (given : List Region) : Type 0 where
  pub free_within : ((a.alloc_ptr ≡ 0) × (a.alloc_bytes_remaining ≡ 0)) ⊎ Within (free a) a.blocks
  pub given_within : All (λ r. Within r a.blocks) given
  pub given_apart : All (Apart (free a)) given

Within-front : (r : Region) (bs cs : List Region) → Within r bs → Within r (bs ++ cs)
Within-front r [] cs w = elim w [ ]
Within-front r (b ∷ bs) cs (inl i) = inl i
Within-front r (b ∷ bs) cs (inr w) = inr (Within-front r bs cs w)

Within-back : (r : Region) (bs cs : List Region) → Within r cs → Within r (bs ++ cs)
Within-back r [] cs w = w
Within-back r (b ∷ bs) cs w = inr (Within-back r bs cs w)

All-map :
    {P Q : Region → Type 0} (rs : List Region) → ((r : Region) → P r → Q r) → All P rs → All Q rs
All-map [] f h = tt
All-map (r ∷ rs) f h = (f r h.0, All-map rs f h.1)

-- A region inside a block is apart from all that lies within blocks that the block is apart from.
blocks-Apart :
    (block r s : Region) (bs : List Region)
    → All (Apart block) bs
    → Inside r block
    → Within s bs
    → Apart r s
blocks-Apart block r s [] h i w = elim w [ ]
blocks-Apart block r s (b ∷ bs) h i (inr w) = blocks-Apart block r s bs h.1 i w
blocks-Apart block r s (b ∷ bs) (inl before, rest) i (inl j) = inl (omega arith)
blocks-Apart block r s (b ∷ bs) (inr behind, rest) i (inl j) = inr (omega arith)

-- A part of the free region is apart from what the whole is apart from.
part-Apart : (r s t : Region) → Inside r t → Apart t s → Apart r s
part-Apart r s t i (inl before) = inl (omega arith)
part-Apart r s t i (inr behind) = inr (omega arith)

Within-part : (r s : Region) (bs : List Region) → Inside r s → Within s bs → Within r bs
Within-part r s [] i w = elim w [ ]
Within-part r s (b ∷ bs) i (inl j) = inl (omega arith, omega arith)
Within-part r s (b ∷ bs) i (inr w) = inr (Within-part r s bs i w)

-- What a call hands out, `r`, and the arena afterwards.
pub record Hands (given : List Region) (r : Region) (a' : Arena) : Type 0 where
  pub apart : All (Apart r) given
  pub kept : IsArena a' (r ∷ given)

free-Within :
    (a : Arena) (given : List Region)
    → IsArena a given
    → 0 < a.alloc_bytes_remaining
    → Within (free a) a.blocks
free-Within a given h pos = elim h.free_within [
  | inl none_left ↦ absurd (omega (arith, none_left.1))
  | inr w ↦ w
]

-- A region cut from the free one, of which `total` bytes go.
cut :
    (a : Arena) (given : List Region) (result bytes total : ℕ)
    → IsArena a given
    → 0 < bytes
    → a.alloc_ptr ≤ result
    → result + bytes ≤ a.alloc_ptr + total
    → total ≤ a.alloc_bytes_remaining
    → Hands given
        (record { address = result; size = bytes })
        (record a {
          alloc_ptr = a.alloc_ptr + total;
          alloc_bytes_remaining = a.alloc_bytes_remaining - total;
        })
cut a given result bytes total h pos low high room =
    let r : Region = record { address = result; size = bytes } in
    let rest : Region = record {
      address = a.alloc_ptr + total;
      size = a.alloc_bytes_remaining - total;
    } in
    let w = free-Within a given h (omega arith) in
    let r_part : Inside r (free a) = (low, omega arith) in
    let rest_part : Inside rest (free a) = (omega arith, omega arith) in
    record {
      apart = All-map given (λ s. part-Apart r s (free a) r_part) h.given_apart;
      kept = record {
        free_within = inr (Within-part rest (free a) a.blocks rest_part w);
        given_within = (Within-part r (free a) a.blocks r_part w, h.given_within);
        given_apart =
            (inr high, All-map given (λ s. part-Apart rest s (free a) rest_part) h.given_apart);
      };
    }

Apart-flip : (r s : Region) → Apart r s → Apart s r
Apart-flip r s (inl before) = inr before
Apart-flip r s (inr behind) = inl behind

aligned : (p : ℕ) → (p + (if bit_and p 7 == 0 then 0 else 8 - bit_and p 7)) % 8 ≡ 0
aligned p = ground (arith, bit_and_mask 3 p)

module _ (new_char : List Region → ℕ → ℕ) (fresh : Fresh new_char) where
  -- What lies in a new block is apart from what was handed out.
  new_block-Apart :
      (a : Arena) (given : List Region) (n : ℕ) (r : Region)
      → IsArena a given
      → Inside r (record { address = new_char a.blocks n; size = n })
      → All (Apart r) given
  new_block-Apart a given n r h i =
      All-map given
        (λ s.
          blocks-Apart (record { address = new_char a.blocks n; size = n }) r s a.blocks
            (fresh a.blocks n).0 i)
        h.given_within

  large_block :
      (a : Arena) (given : List Region) (bytes : ℕ)
      → IsArena a given
      → Hands given
          (record { address = new_char a.blocks bytes; size = bytes })
          (allocate_new_block new_char a bytes).0
  unfolding allocate_new_block
  large_block a given bytes h =
      let r : Region = record { address = new_char a.blocks bytes; size = bytes } in
      let whole : Inside r r = (omega arith, omega arith) in
      record {
        apart = new_block-Apart a given bytes r h whole;
        kept = record {
          free_within = elim h.free_within [
            | inl start ↦ inl start
            | inr w ↦ inr (Within-front (free a) a.blocks (r ∷ []) w)
          ];
          given_within = (
            Within-back r a.blocks (r ∷ []) (inl whole),
            All-map given (λ s. Within-front s a.blocks (r ∷ [])) h.given_within,
          );
          given_apart = (
            elim h.free_within [
              | inl start ↦ inl (omega (arith, start.0, start.1))
              | inr w ↦
                  Apart-flip r (free a)
                    (blocks-Apart r r (free a) a.blocks (fresh a.blocks bytes).0 whole w)
            ],
            h.given_apart,
          );
        };
      }

  small_block :
      (a : Arena) (given : List Region) (bytes : ℕ)
      → IsArena a given
      → bytes ≤ arena_block_size
      → Hands given
          (record { address = new_char a.blocks arena_block_size; size = bytes })
          (record (allocate_new_block new_char a arena_block_size).0 {
            alloc_ptr = new_char a.blocks arena_block_size + bytes;
            alloc_bytes_remaining = arena_block_size - bytes;
          })
  unfolding allocate_new_block
  small_block a given bytes h small =
      let block : Region = record {
        address = new_char a.blocks arena_block_size;
        size = arena_block_size;
      } in
      let r : Region = record { address = block.address; size = bytes } in
      let rest : Region = record {
        address = block.address + bytes;
        size = arena_block_size - bytes;
      } in
      let r_part : Inside r block = (omega arith, omega arith) in
      let rest_part : Inside rest block = (omega arith, omega arith) in
      record {
        apart = new_block-Apart a given arena_block_size r h r_part;
        kept = record {
          free_within = inr (Within-back rest a.blocks (block ∷ []) (inl rest_part));
          given_within = (
            Within-back r a.blocks (block ∷ []) (inl r_part),
            All-map given (λ s. Within-front s a.blocks (block ∷ [])) h.given_within,
          );
          given_apart =
              (inr (omega arith), new_block-Apart a given arena_block_size rest h rest_part);
        };
      }

  abbrev pub at : ℕ → ℕ → Region
  at address size = record { address = address; size = size }

  fall_back :
      (a : Arena) (given : List Region) (bytes : ℕ)
      → IsArena a given
      → Hands given
          (at (allocate_fall_back new_char a bytes).1 bytes)
          (allocate_fall_back new_char a bytes).0
        × ((allocate_fall_back new_char a bytes).1 % 8 ≡ 0)
  unfolding allocate_fall_back allocate_new_block
  fall_back a given bytes h = elim (Bool-cases (ltb (arena_block_size / 4) bytes)) [
    | inl large ↦ rw large (large_block a given bytes h, (fresh a.blocks bytes).1)
    | inr small ↦
        rw small (small_block a given bytes h (ground arith), (fresh a.blocks arena_block_size).1)
  ]

  -- Where `new char[]` gives aligned memory apart from every block in use, `Allocate` of some
  -- bytes, on an arena in order, hands out a region apart from every region that it handed out
  -- before, and the arena is in order with the region added: all that it handed out lies in its
  -- blocks and apart from what is free.
  pub allocate-Hands :
      (a : Arena) (given : List Region) (bytes : ℕ)
      → IsArena a given
      → 0 < bytes
      → Hands given (at (allocate new_char a bytes).1 bytes) (allocate new_char a bytes).0
  unfolding allocate
  allocate-Hands a given bytes h pos = elim (Bool-cases (leb bytes a.alloc_bytes_remaining)) [
    | inl room ↦
        rw room
          (cut a given a.alloc_ptr bytes bytes h pos (omega arith) (omega arith) (ground arith))
    | inr short ↦ rw short (fall_back a given bytes h).0
  ]

  -- Where `new char[]` gives aligned memory apart from every block in use, `AllocateAligned` of
  -- some bytes, fewer than 2^64 - 7, on an arena in order, hands out a region apart from every region that it handed
  -- out before, and the arena is in order with the region added; the address is a multiple of 8.
  pub allocate_aligned-Hands :
      (a : Arena) (given : List Region) (bytes : ℕ)
      → IsArena a given
      → 0 < bytes
      → bytes + 7 < 2 ^ 64
      → Hands given
          (at (allocate_aligned new_char a bytes).1 bytes)
          (allocate_aligned new_char a bytes).0
        × ((allocate_aligned new_char a bytes).1 % 8 ≡ 0)
  unfolding allocate_aligned
  allocate_aligned-Hands a given bytes h pos fits =
      let current = bit_and a.alloc_ptr 7 in
      let slop : ℕ = if current == 0 then 0 else 8 - current in
      let few : slop ≤ 7 = ground (arith, bit_and_mask 3 a.alloc_ptr) in
      let whole : (bytes + slop) % 2 ^ 64 ≡ bytes + slop = omega (arith, few, fits) in
      elim (Bool-cases (leb (bytes + slop) a.alloc_bytes_remaining)) [
        | inl room ↦
            rw (whole, room)
              (
                cut a given (a.alloc_ptr + slop) bytes (bytes + slop) h pos (omega arith)
                    (omega arith) (ground arith),
                aligned a.alloc_ptr,
              )
        | inr short ↦ rw (whole, short) (fall_back a given bytes h)
      ]
