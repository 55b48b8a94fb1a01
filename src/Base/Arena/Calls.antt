-- ===== src/Base/Arena/Calls.antt =====
-- Any sequence of calls of an arena.
use iceberg_db.Prelude.{
  ℕ, ◌+◌, ◌^◌, ◌<◌, ◌≡◌, refl, Bool, true, false, List, [], ◌∷◌, length, All, arith, inl,
}
use iceberg_db.Base.Arena.{Region, Arena, new, allocate, allocate_aligned}
use iceberg_db.Base.Arena.Regions.{Apart, Fresh, IsArena, allocate-Hands, allocate_aligned-Hands}

-- A call of `AllocateAligned` or of `Allocate`, for a number of bytes.
abbrev pub Call : Type 0
Call = Bool × ℕ

-- Some bytes, whose number and up to seven more fit a `size_t`
abbrev pub IsSize : Call → Type 0
IsSize c = (0 < c.1) × (c.1 + 7 < 2 ^ 64)

-- The regions that the calls hand out, the last one first, in front of those of earlier calls.
unfoldable pub serve : (List Region → ℕ → ℕ) → Arena → List Region → List Call → Arena × List Region
serve new_char a given [] = (a, given)
serve new_char a given ((true, bytes) ∷ calls) =
    let (a', result) = allocate_aligned new_char a bytes in
    serve new_char a' (record { address = result; size = bytes } ∷ given) calls
serve new_char a given ((false, bytes) ∷ calls) =
    let (a', result) = allocate new_char a bytes in
    serve new_char a' (record { address = result; size = bytes } ∷ given) calls

abbrev pub Pairwise : List Region → Type 0
Pairwise [] = Unit {0}
Pairwise (r ∷ rs) = All (Apart r) rs × Pairwise rs

abbrev pub Served : List Region → List Call → Arena × List Region → Type 0
Served given calls (a, all) =
    Pairwise all × IsArena a all × (length all ≡ length given + length calls)

module _ (new_char : List Region → ℕ → ℕ) (fresh : Fresh new_char) where
  serve-Served :
      (a : Arena) (given : List Region) (calls : List Call)
      → IsArena a given
      → Pairwise given
      → All IsSize calls
      → Served given calls (serve new_char a given calls)
  unfolding serve
  serve-Served a given [] h k pos = (k, h, omega arith)
  serve-Served a given ((true, bytes) ∷ calls) h k pos =
      let handed = (allocate_aligned-Hands new_char fresh a given bytes h pos.0.0 pos.0.1).0 in
      let (apart, kept, size) =
        serve-Served (allocate_aligned new_char a bytes).0 _ calls handed.kept (handed.apart, k)
          pos.1 in
      (apart, kept, omega (arith, size))
  serve-Served a given ((false, bytes) ∷ calls) h k pos =
      let handed = allocate-Hands new_char fresh a given bytes h pos.0.0 in
      let (apart, kept, size) =
        serve-Served (allocate new_char a bytes).0 _ calls handed.kept (handed.apart, k) pos.1 in
      (apart, kept, omega (arith, size))

  -- Where `new char[]` gives aligned memory apart from every block in use, and whatever calls of
  -- `Allocate` and `AllocateAligned` are made of a new arena, each for at least one byte and for fewer
  -- than 2^64 - 7, each call hands out a region; any two of the regions are apart, and all of them lie
  -- in the blocks of the arena and apart from what is free.
  pub serve-new-Served :
      (calls : List Call) → All IsSize calls → Served [] calls (serve new_char new [] calls)
  unfolding new
  serve-new-Served calls pos =
      serve-Served new [] calls
        (record { free_within = inl (refl, refl); given_within = tt; given_apart = tt }) tt pos
