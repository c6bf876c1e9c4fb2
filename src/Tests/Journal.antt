-- ===== src/Tests/Journal.antt =====
-- A journal of four index sectors of 256 bytes, the last but one of them full.
use fastffs.Prelude.{◌≡◌, ℕ, refl, arith, [], ◌∷◌, false}
use fastffs.Status.{ok}
use fastffs.Journal.Record.{read_index_record, program_index_record_at}
use fastffs.Journal.RoundTrip.{program_index_record_at-read_index_record}
use fastffs.Flash.Ram.{Cells, ram, ram-IsNor, ram-IsReliable}
use fastffs.HashIndex.{empty_bucket}
use fastffs.Fs.{Fs}
use fastffs.Triple.{Outcome}
use fastffs.Flash.Nor.{overlay}
use fastffs.Flash.Ram.{cell_at}
use fastffs.Fs.{geometry}
use fastffs.Journal.Replay.{replay_sector, replay_index}
use fastffs.Journal.Replayed.{Replayed}
use fastffs.Journal.ReplayRing.{replay_index-Outcome}
use fastffs.Journal.Closed.{closed_sector}
use fastffs.Journal.Follows.{with_table}
use fastffs.Journal.ClosedReplay.{replay_sector-closed}
use fastffs.Journal.Compact.{index_finish_interrupted_compaction}
use fastffs.Journal.Ring.{IsRing, HasSpare}
use fastffs.Journal.Operations.{index_finish_interrupted_compaction-Outcome}

abbrev ring : ℕ → ℕ → ℕ → Fs Cells
ring active count next_offset = record {
  ctx = λ i. 0xff;
  index_cache = empty_bucket ∷ empty_bucket ∷ [];
  alloc_map = 0xf ∷ [];
  sector_size = 256;
  sector_count = 16;
  sector_shift = 0;
  index_sectors = 4;
  oldest_index_sector = 0;
  index_sequence_count = count;
  active_index_sector = active;
  next_index_offset = next_offset;
  active_index_serial = 2;
  alloc_cursor = 4;
  gc_cursor = 4;
  next_sector_serial = 1;
  scratch_size = 64;
  strict = false;
}

index_finish_interrupted_compaction-Outcome_example :
    Outcome (λ _. HasSpare) IsRing (index_finish_interrupted_compaction (ram 4096 4) (ring 3 4 800))
index_finish_interrupted_compaction-Outcome_example =
    index_finish_interrupted_compaction-Outcome (ram 4096 4) (ring 3 4 800) (
      omega arith,
      omega arith,
      omega arith,
      omega arith,
      omega arith,
      refl,
      omega arith,
      omega arith,
      omega arith,
    )

program_index_record_at-read_index_record_example :
    (fs1 fs2 : Fs Cells) × (program_index_record_at (ram 4096 4) 522 500 77 (ring 2 3 522)
      ≡ (ok tt, fs1))
    × (read_index_record (ram 4096 4) 522 fs1 ≡ (ok (500, 77), fs2))
program_index_record_at-read_index_record_example =
    program_index_record_at-read_index_record (ram-IsNor 4096 4) (ram-IsReliable 4096 4)
      (omega arith) refl 522 500 77 (ring 2 3 522) (omega arith) (omega arith) (omega arith)
      (λ i lt. refl)

-- Two records in the oldest sector: slot 6 at sector 7, and slot 5 at sector 33, which the volume
-- does not have.
abbrev two_records : Cells
two_records i = overlay 8 (6 ∷ 0 ∷ 7 ∷ 0 ∷ 5 ∷ 0 ∷ 33 ∷ 0 ∷ []) i

abbrev recorded : Fs Cells
recorded = record (ring 2 3 768) { ctx = two_records }

replay_index-Outcome_example :
    Outcome
      (λ _. Replayed (ram 4096 4) recorded)
      (Replayed (ram 4096 4) recorded)
      (replay_index (ram 4096 4) recorded)
replay_index-Outcome_example = replay_index-Outcome (ram 4096 4) recorded (
  omega arith,
  omega arith,
  omega arith,
  omega arith,
  omega arith,
  refl,
  omega arith,
  omega arith,
  omega arith,
)

replay_sector-closed_example :
    (c : Cells) × (cell_at c ≡ cell_at two_records)
    × (replay_sector (ram 4096 4) 0 0 recorded
        ≡ with_table
            (closed_sector (geometry recorded) (cell_at two_records) 0 0 recorded.index_cache)
            c
            recorded)
replay_sector-closed_example =
    replay_sector-closed (ram-IsNor 4096 4) (ram-IsReliable 4096 4) 0 0 recorded
      (λ e. absurd (omega (arith, e))) (omega arith) (omega arith) (omega arith)
