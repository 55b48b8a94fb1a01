-- ===== src/Base/Arena.antt =====
-- ibdb/src/base/arena.h and arena.cpp: a bump allocator. An address is a number, and the addresses
-- that `new char[]` gives are a parameter, which may depend on the blocks that are in use. A size is a
-- `size_t`, whose sums wrap; a pointer stays within its block.
pub mod Regions
pub mod Calls
pub mod Examples
use Prim.Native.Nat.{bit_and}
use iceberg_db.Prelude.{
  ℕ, ◌+◌, ◌-◌, ◌*◌, ◌/◌, ◌%◌, ◌^◌, List, [], ◌∷◌, ◌++◌, ltb, leb, ◌==◌, if◌then◌else◌,
}

-- An address and a number of bytes.
pub record Region : Type 0 where
  pub address : ℕ
  pub size : ℕ

pub record Arena : Type 0 where
  pub alloc_ptr : ℕ
  pub alloc_bytes_remaining : ℕ
  pub blocks : List Region
  pub memory_usage : ℕ

abbrev pub arena_block_size : ℕ
arena_block_size = 4096

-- `sizeof(void*)`
abbrev pub pointer_size : ℕ
pointer_size = 8

-- `Arena()`
unfoldable pub new : Arena
new = record { alloc_ptr = 0; alloc_bytes_remaining = 0; blocks = []; memory_usage = 0 }

module _ (new_char : List Region → ℕ → ℕ) where
  -- `char* AllocateNewBlock(size_t block_bytes)`
  unfoldable pub allocate_new_block : Arena → ℕ → Arena × ℕ
  allocate_new_block a block_bytes =
      let result = new_char a.blocks block_bytes in
      (
        record a {
          blocks = a.blocks ++ (record { address = result; size = block_bytes } ∷ []);
          memory_usage = (a.memory_usage + block_bytes + pointer_size) % 2 ^ 64;
        },
        result,
      )

  -- `char* AllocateFallBack(size_t bytes)`
  unfoldable pub allocate_fall_back : Arena → ℕ → Arena × ℕ
  allocate_fall_back a bytes =
      let (large, at) = allocate_new_block a bytes in
      let (a1, result) = allocate_new_block a arena_block_size in
      if ltb (arena_block_size / 4) bytes then (large, at) else (
        record a1 { alloc_ptr = result + bytes; alloc_bytes_remaining = arena_block_size - bytes },
        result,
      )

  -- `char* Allocate(size_t bytes)`
  unfoldable pub allocate : Arena → ℕ → Arena × ℕ
  allocate a bytes =
      if leb bytes a.alloc_bytes_remaining
      then (
        record a {
          alloc_ptr = a.alloc_ptr + bytes;
          alloc_bytes_remaining = a.alloc_bytes_remaining - bytes;
        },
        a.alloc_ptr,
      )
      else allocate_fall_back a bytes

  -- `char* AllocateAligned(size_t bytes)`, with `align` 8
  unfoldable pub allocate_aligned : Arena → ℕ → Arena × ℕ
  allocate_aligned a bytes =
      let current_mod = bit_and a.alloc_ptr (pointer_size - 1) in
      let slop = if current_mod == 0 then 0 else pointer_size - current_mod in
      let needed = (bytes + slop) % 2 ^ 64 in
      if leb needed a.alloc_bytes_remaining
      then (
        record a {
          alloc_ptr = a.alloc_ptr + needed;
          alloc_bytes_remaining = a.alloc_bytes_remaining - needed;
        },
        a.alloc_ptr + slop,
      )
      else allocate_fall_back a bytes
