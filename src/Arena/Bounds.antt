-- ===== src/Arena/Bounds.antt =====
-- Slices of the arena (crates/flushdb-engine/src/arena.rs) lie in their blocks and do not overlap.
use flushdb.Base.{ℕ, ◌+◌, ◌≤◌, ◌≡◌, refl, List, [], ◌∷◌, ◌++◌, length, length-append, leb, arith}
use flushdb.Arena.{Arena, last_or_zero, current_block_capacity, allocate}
use Prim.Native.Nat.{max}
use flushdb.Base.{◌⊎◌}
use flushdb.Base.{Bool-cases}
use flushdb.Base.{inl}
use flushdb.Base.{inr}

-- The arena has a block, and what is taken of its last one fits.
pub record IsArena (a : Arena) : Type 0 where
  pub has_block : 1 ≤ length a.blocks
  pub fits : a.current_offset ≤ current_block_capacity a

last_or_zero-append : (bs : List ℕ) (b : ℕ) → last_or_zero (bs ++ (b ∷ [])) ≡ b
unfolding last_or_zero
last_or_zero-append [] b = refl
last_or_zero-append (c ∷ []) b = refl
last_or_zero-append (c ∷ d ∷ bs) b = last_or_zero-append (d ∷ bs) b

-- An allocation keeps the arena well formed and adds its size to the total; the slice has that
-- size, ends where the free part of the last block then begins, and begins where the free part of
-- the last block began or is in a new block.
pub allocate_bounds :
    (a : Arena) (size : ℕ)
    → IsArena a
    → let (a', s) = allocate a size in
      IsArena a'
      × (a'.total_allocated ≡ a.total_allocated + size)
      × (s.len ≡ size)
      × (s.block + 1 ≡ length a'.blocks)
      × (s.offset + s.len ≡ a'.current_offset)
      × ((s.block + 1 ≡ length a.blocks) × (s.offset ≡ a.current_offset)
          ⊎ (s.block ≡ length a.blocks))
unfolding allocate current_block_capacity
allocate_bounds a size v =
    elim (Bool-cases (leb (a.current_offset + size) (last_or_zero a.blocks))) [
      | inl e ↦ rw e (
        record { has_block = v.has_block; fits = ground arith },
        refl,
        refl,
        omega (arith, v.has_block),
        refl,
        inl (omega (arith, v.has_block), refl),
      )
      | inr e ↦ rw e (
        record {
          has_block = omega (arith, length-append a.blocks (max a.block_size size ∷ []));
          fits = rw last_or_zero-append (omega arith);
        },
        refl,
        refl,
        omega (arith, length-append a.blocks (max a.block_size size ∷ [])),
        omega arith,
        inr refl,
      )
    ]
