-- ===== src/Tests/Discovery.antt =====
-- Journals on a flash in memory, with sectors of 256 bytes.
use native.Mathlib.Decide.{dec_lt}
use fastffs.Prelude.{
  ℕ, suc, ◌+◌, ◌*◌, ◌/◌, ◌%◌, ◌≤◌, ◌<◌, ◌≡◌, ◌≢◌, inl, ap, ap₂, arith, get_or, ltb, if◌then◌else◌,
  lt→ltb, ltb_ge, Option, some,
}
use fastffs.Status.{ok}
use fastffs.Flash.Nor.{span}
use fastffs.Flash.Ram.{Cells, ram, cell_at, ram-IsNor, ram-IsReliable}
use fastffs.IndexHeader.{Header, index_header_bytes}
use fastffs.IndexHeader.Commit.{with_flags, valid_index_header-bytes}
use fastffs.Discovery.{IndexSequence, try_sector}
use fastffs.Discovery.Newest.{age, serial_of}
use fastffs.Discovery.Sequence.{IsJournal, try_sector-finds, try_sector_stale}

module _ (total active serial count : ℕ) where
  abbrev flags : ℕ → ℕ
  flags j = if ltb (age total active serial j) count then 0x7f else 0xff

  -- Byte `k` of sector `j`.
  abbrev journal_byte : ℕ → ℕ → ℕ
  journal_byte j k = get_or (with_flags total 0 (serial_of total active serial j) (flags j)) k 0xff

  abbrev journal_cells : Cells
  journal_cells i = journal_byte (i / 256) (i % 256)

  at_sector :
      (j k i : ℕ) → k < 256 → i ≡ j * 256 + k → cell_at journal_cells i ≡ journal_byte j k % 256
  at_sector j k i h e = ap₂ (λ x y. journal_byte x y % 256) (omega arith) (omega arith)

  header_span :
      (j : ℕ)
      → flags j < 256
      → span (cell_at journal_cells) (j * 256) 8
        ≡ with_flags total 0 (serial_of total active serial j) (flags j)
  header_span j h = ground (
    arith,
    at_sector j 0 (j * 256) (omega arith) (omega arith),
    at_sector j 1 (suc (j * 256)) (omega arith) (omega arith),
    at_sector j 2 (suc (suc (j * 256))) (omega arith) (omega arith),
    at_sector j 3 (suc (suc (suc (j * 256)))) (omega arith) (omega arith),
    at_sector j 4 (suc (suc (suc (suc (j * 256))))) (omega arith) (omega arith),
    at_sector j 5 (suc (suc (suc (suc (suc (j * 256)))))) (omega arith) (omega arith),
    at_sector j 6 (suc (suc (suc (suc (suc (suc (j * 256))))))) (omega arith) (omega arith),
    at_sector j 7 (suc (suc (suc (suc (suc (suc (suc (j * 256)))))))) (omega arith) (omega arith),
  )

  IsJournal-cells :
      2 ≤ total
      → total ≤ 15
      → active < total
      → 1 ≤ count
      → count ≤ total
      → serial < 16
      → IsJournal (cell_at journal_cells) (total * 256) total 0 active serial count
  unfolding index_header_bytes
  IsJournal-cells lo small inside some_valid fits byte = record {
    small = small;
    inside = inside;
    some_valid = some_valid;
    fits = fits;
    byte = byte;
    room = omega arith;
    whole = omega arith;
    headers = λ j lt. elim (dec_lt (age total active serial j) count) [
      | yes valid ↦
          rw
            (
              lt→ltb (age total active serial j) count valid,
              header_span j (ground arith),
              lt→ltb (age total active serial j) count valid,
              (valid_index_header-bytes total 0 (serial_of total active serial j) lo small
                  (omega arith)).0,
            )
            (again j)
      | no other ↦
          rw
            (
              ltb_ge (age total active serial j) count (omega arith),
              header_span j (ground arith),
              ltb_ge (age total active serial j) count (omega arith),
            )
            (valid_index_header-bytes total 0 (serial_of total active serial j) lo small
              (omega arith)).1
    ];
  }
    where
      as_header : ℕ → Option Header
      as_header k = some (record { index_sectors = total; sector_shift = 0; serial = k })

      again :
          (j : ℕ)
          → as_header (serial_of total active serial j % 16)
            ≡ as_header (serial_of total active serial j)
      again j = ap as_header (omega arith)

-- Nine of fifteen sectors in use, round the end of the area: sector 3 is active.
try_sector-finds_example :
    (c' : Cells) × (try_sector (ram 3840 4) 0 0 (journal_cells 15 3 2 9) ≡ (
      ok (
          some (record {
            index_sectors = 15;
            sector_shift = 0;
            active_serial = 2;
            active_sector = 3;
            oldest_sector = 10;
            count = 9;
          })),
      c',
    ))
try_sector-finds_example =
    try_sector-finds (ram-IsNor 3840 4) (ram-IsReliable 3840 4) (journal_cells 15 3 2 9)
      (IsJournal-cells 15 3 2 9 (omega arith) (omega arith) (omega arith) (omega arith)
        (omega arith) (omega arith))
      0 (omega arith) (omega arith) (inl (omega arith))

-- The same journal with fourteen sectors in use.
try_sector_stale_example :
    (c' : Cells) × (sequence : IndexSequence) × (try_sector
        (ram 3840 4)
        0
        0
        (journal_cells 15 3 2 14)
      ≡ (ok (some sequence), c'))
    × (sequence.active_sector ≡ 14)
    × (sequence.active_sector ≢ 3)
try_sector_stale_example =
    try_sector_stale (ram-IsNor 3840 4) (ram-IsReliable 3840 4) (journal_cells 15 3 2 14)
      (IsJournal-cells 15 3 2 14 (omega arith) (omega arith) (omega arith) (omega arith)
        (omega arith) (omega arith))
      0 (omega arith) (omega arith) (omega arith) (omega arith)
