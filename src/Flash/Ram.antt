-- ===== src/Flash/Ram.antt =====
-- A flash in memory: a backend that meets the assumptions of `Nor`. It serves the examples.
use fastffs.Prelude.{ℕ, ◌+◌, ◌%◌, ◌<◌, bit_and, ◌≡◌, refl, arith, ltb, if◌then◌else◌}
use fastffs.Bits.{bit_and_le, bit_and_absorb}
use fastffs.Flash.{Backend}
use fastffs.Flash.Nor.{IsNor, IsReliable, Between, overlay, span}
use fastffs.Flash.Between.{Between-same}

-- The contents, any number standing for its low byte.
abbrev pub Cells : Type 0
Cells = ℕ → ℕ

abbrev pub cell_at : Cells → ℕ → ℕ
cell_at c i = c i % 256

abbrev pub ram : ℕ → ℕ → Backend Cells
ram size granule = record {
  size = size;
  program_granule = granule;
  read = λ off n c. (0, span (cell_at c) off n, c);
  program = λ off bytes c. (0, λ i. bit_and (cell_at c i) (overlay off bytes i));
  erase = λ off n c. (0, λ i. if ltb i off then c i else if ltb i (off + n) then 0xff else c i);
}

cleared : (c : Cells) (v i : ℕ) → bit_and (cell_at c i) v % 256 ≡ bit_and (cell_at c i) v
cleared c v i = omega (arith, bit_and_le (cell_at c i) v)

pub ram-IsNor : (size granule : ℕ) → IsNor (ram size granule) cell_at
ram-IsNor size granule = record {
  is_byte = λ c i. omega arith;
  read_bytes = λ off n c h. refl;
  read_keeps = λ off n c i. refl;
  program_clears = λ off bytes c i h. cleared c (overlay off bytes i) i;
  program_between =
      λ off bytes c i. rw (cleared c (overlay off bytes i) i) (part c (overlay off bytes i) i);
  erase_sets = λ off n c i h. ground arith;
}
  where
    part : (c : Cells) (v i : ℕ) → Between (cell_at c i) v (bit_and (cell_at c i) v)
    part c v i = (bit_and_absorb (cell_at c i) v, self (bit_and (cell_at c i) v) (bounded c v i))
      where
        bounded : (c : Cells) (v i : ℕ) → bit_and (cell_at c i) v < 256
        bounded c v i = omega (arith, bit_and_le (cell_at c i) v)

        self : (x : ℕ) → x < 256 → bit_and x x ≡ x
        self x h = (Between-same x 0 h).0

pub ram-IsReliable : (size granule : ℕ) → IsReliable (ram size granule)
ram-IsReliable size granule = record {
  reads = λ off n c h. refl;
  programs = λ off bytes c h k l. refl;
}
