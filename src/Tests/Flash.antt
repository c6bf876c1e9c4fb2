-- ===== src/Tests/Flash.antt =====
-- A program of three bytes through a granule of four.
use fastffs.Prelude.{ℕ, ◌≡◌, some, refl, arith, List, [], ◌∷◌, bit_and}
use fastffs.Status.{ok}
use fastffs.Bytes.{write_bytes}
use fastffs.Flash.{program_aligned, program_chunks, chunk_length, chunk_bytes, flash_program}
use fastffs.Flash.Nor.{Between, overlay, span}
use fastffs.Flash.Aligned.{program_aligned-Between}
use fastffs.Flash.Commit.{program_aligned-writes}
use fastffs.IndexHeader.{program_index_header, valid_index_header}
use fastffs.IndexHeader.Program.{program_index_header-valid}
use fastffs.Flash.Ram.{Cells, ram, cell_at, ram-IsNor, ram-IsReliable}

abbrev erased : Cells
erased i = 0xff

abbrev bytes : List ℕ
bytes = 1 ∷ 2 ∷ 3 ∷ []

program_across_granules :
    span (cell_at (program_aligned (ram 16 4) 6 bytes erased).1) 4 8
    ≡ 0xff ∷ 0xff ∷ 1 ∷ 2 ∷ 3 ∷ 0xff ∷ 0xff ∷ 0xff ∷ []
unfolding program_aligned program_chunks chunk_length chunk_bytes flash_program write_bytes
program_across_granules = refl

program_aligned-Between_example :
    Between 0xff (overlay 6 bytes 7) (cell_at (program_aligned (ram 16 4) 6 bytes erased).1 7)
program_aligned-Between_example =
    program_aligned-Between (ram 16 4) (ram-IsNor 16 4) 6 bytes erased (omega arith) 7

program_aligned-writes_example :
    (c' : Cells) × (program_aligned (ram 16 4) 6 bytes erased ≡ (ok tt, c'))
    × ((i : ℕ) → cell_at c' i ≡ bit_and 0xff (overlay 6 bytes i))
program_aligned-writes_example =
    program_aligned-writes (ram-IsNor 16 4) (ram-IsReliable 16 4) (omega arith) refl 6 bytes erased
      (omega arith)

program_index_header-valid_example :
    (c' : Cells) × (program_index_header (ram 512 4) 256 2 0 9 erased ≡ (ok tt, c'))
    × (valid_index_header (span (cell_at c') 256 8)
        ≡ some (record { index_sectors = 2; sector_shift = 0; serial = 9 }))
program_index_header-valid_example =
    program_index_header-valid (ram-IsNor 512 4) (ram-IsReliable 512 4) (omega arith) refl 256 2 0 9
      erased (omega arith) (omega arith) (omega arith) (omega arith) (λ i lt. refl)
