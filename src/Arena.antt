-- ===== src/Arena.antt =====
-- The bump allocator of crates/flushdb-engine/src/arena.rs. A block is modelled by its length: the
-- skip list allocates and never writes, so the content of a block is not modelled.
pub mod Bounds
use flushdb.Base.{ℕ, zero, suc, ◌+◌, ◌-◌, List, [], ◌∷◌, ◌++◌, length, leb, if◌then◌else◌}
use Prim.Native.Nat.{max}

abbrev pub default_block_size : ℕ
default_block_size = 1_048_576

pub record ArenaSlice : Type 0 where
  pub block : ℕ
  pub offset : ℕ
  pub len : ℕ

pub record Arena : Type 0 where
  pub blocks : List ℕ
  pub current_offset : ℕ
  pub total_allocated : ℕ
  pub block_size : ℕ

abbrev pub with_block_size : ℕ → Arena
with_block_size size = record {
  blocks = size ∷ [];
  current_offset = 0;
  total_allocated = 0;
  block_size = size;
}

abbrev pub new : Arena
new = with_block_size default_block_size

-- `blocks.last().map_or(0, |b| b.len())`
unfoldable pub last_or_zero : List ℕ → ℕ
last_or_zero [] = 0
last_or_zero (b ∷ []) = b
last_or_zero (b ∷ c ∷ bs) = last_or_zero (c ∷ bs)

unfoldable pub current_block_capacity : Arena → ℕ
current_block_capacity a = last_or_zero a.blocks

unfoldable pub allocate : Arena → ℕ → Arena × ArenaSlice
allocate a size =
    if leb (a.current_offset + size) (current_block_capacity a)
    then (
      record a {
        current_offset = a.current_offset + size;
        total_allocated = a.total_allocated + size;
      },
      record { block = length a.blocks - 1; offset = a.current_offset; len = size },
    )
    else (
      record a {
        blocks = a.blocks ++ (max a.block_size size ∷ []);
        current_offset = size;
        total_allocated = a.total_allocated + size;
      },
      record { block = length a.blocks; offset = 0; len = size },
    )
