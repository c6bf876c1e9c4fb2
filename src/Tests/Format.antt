-- ===== src/Tests/Format.antt =====
-- A format with three index sectors of 512 bytes, on a flash that is not erased.
use fastffs.Prelude.{◌≡◌, refl, arith, Option, some}
use fastffs.Status.{ok}
use fastffs.Flash.{valid_backend}
use fastffs.Flash.Ram.{Cells, ram, ram-IsNor, ram-IsReliable}
use fastffs.Discovery.{try_sector}
use fastffs.Format.{
  FormatOptions, format, format_sector_shift, shift_from, asked_index_sectors, asked_sector_size,
}
use fastffs.Format.Finds.{formatted, format-try_sector}

abbrev asked : Option FormatOptions
asked = some (record { index_sectors = 3; sector_size = 512 })

abbrev dirty : Cells
dirty i = i

format-try_sector_example :
    (c1 c2 : Cells) × (format (ram 16384 4) asked dirty ≡ (ok tt, c1))
    × (try_sector (ram 16384 4) 1 0 c1 ≡ (ok (some (formatted 3 1)), c2))
unfolding asked_index_sectors asked_sector_size format_sector_shift shift_from valid_backend
format-try_sector_example =
    format-try_sector (ram-IsNor 16384 4) (ram-IsReliable 16384 4) (omega arith) refl refl asked 1
      dirty refl refl (omega arith) (omega arith) (omega arith) refl (omega arith)
      (λ off n c h k l. refl)
