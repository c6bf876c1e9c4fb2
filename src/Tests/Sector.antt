-- ===== src/Tests/Sector.antt =====
-- Eight sectors of 64 bytes, the first two of them index sectors.
use fastffs.Prelude.{◌≡◌, refl, arith, false}
use fastffs.Status.{ok}
use fastffs.Flash.Ram.{Cells, ram, cell_at, ram-IsNor, ram-IsReliable}
use fastffs.Flash.Nor.{span, overlay}
use fastffs.Bytes.{store_le32}
use fastffs.Sector.{
  Geometry, footer_offset, tombstone_sector, write_sector_footer, read_sector_serial,
}
use fastffs.Sector.Tombstone.{footer_live, tombstone_sector-read_sector_serial}
use fastffs.Sector.Footer.{footer_bytes, write_sector_footer-read_sector_serial}

abbrev small : Geometry
small = record { sector_size = 64; sector_count = 8; index_sectors = 2 }

abbrev blank : Cells
blank i = 0xff

write_sector_footer-read_sector_serial_example :
    (c1 c2 : Cells) × (write_sector_footer (ram 512 4) small 3 77 blank ≡ (ok tt, c1))
    × (read_sector_serial (ram 512 4) small 3 c1 ≡ (ok 77, c2))
write_sector_footer-read_sector_serial_example =
    write_sector_footer-read_sector_serial (ram-IsNor 512 4) (ram-IsReliable 512 4) small
      (omega arith) (omega arith) (omega arith) refl 3 77 blank (omega arith) (omega arith)
      (omega arith) (λ i lt. refl)

-- Sector 3 has a live footer.
abbrev written : Cells
written i = overlay 246 (footer_bytes 77 0x7e) i

written_footer : span (cell_at written) (footer_offset small 3) 10 ≡ footer_bytes 77 0x7e
unfolding footer_offset store_le32
written_footer = refl

tombstone_sector-read_sector_serial_example :
    (c1 c2 : Cells) × (tombstone_sector (ram 512 4) small 3 written ≡ (ok tt, c1))
    × (footer_live (span (cell_at c1) (footer_offset small 3) 10) ≡ false)
    × (read_sector_serial (ram 512 4) small 3 c1 ≡ (ok 77, c2))
tombstone_sector-read_sector_serial_example =
    tombstone_sector-read_sector_serial (ram-IsNor 512 4) (ram-IsReliable 512 4) small (omega arith)
      (omega arith) (omega arith) refl 3 77 written (omega arith) (omega arith) (omega arith)
      written_footer
