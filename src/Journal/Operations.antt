-- ===== src/Journal/Operations.antt =====
-- What the operations on the journal leave of the ring of index sectors.
use fastffs.Prelude.{
  ℕ, ◌+◌, ◌-◌, ◌*◌, ◌%◌, ◌≤◌, ◌<◌, ◌≡◌, ◌∙◌, arith, Bool, true, false, ltb, if◌then◌else◌, some,
}
use fastffs.Status.{ok, pure, gets}
use fastffs.Flash.{Backend}
use fastffs.HashIndex.{set_head}
use fastffs.Fs.{Fs}
use fastffs.Triple.{
  Triple, Triple-pure, Triple-gets, Triple-modify, Triple-bind, Triple-weaken, Triple-on_flash,
  Outcome,
}
use fastffs.Journal.Record.{logical_index_sector, tombstone_index_sector, program_index_record_at}
use fastffs.Journal.Compact.{index_compact_oldest_finish, index_finish_interrupted_compaction}
use fastffs.Journal.Ring.{IsRing, HasSpare, HasOldest, mod_below_twice}

-- One sector fewer, from the next one on, ends at the same place.
shorter_mod :
    (o o' k n : ℕ)
    → o < n
    → 2 ≤ k
    → k ≤ n
    → o' ≡ (if ltb (o + 1) n then o + 1 else o + 1 - n)
    → (o + k - 1) % n ≡ (o' + (k - 1) - 1) % n
shorter_mod o o' k n ho hk hn e = ground (
  arith,
  mod_below_twice (o + k - 1) n (omega arith),
  mod_below_twice (o' + (k - 1) - 1) n (ground arith),
)

module _ {Ctx : Type 0} where
  -- The ring without its oldest sector.
  abbrev shortened : Fs Ctx → Fs Ctx
  shortened fs = record fs {
    oldest_index_sector = (fs.oldest_index_sector + 1) % fs.index_sectors;
    index_sequence_count = fs.index_sequence_count - 1;
  }

  shortened-HasSpare : (fs : Fs Ctx) → HasOldest fs → HasSpare (shortened fs)
  shortened-HasSpare fs ((two, size, oldest, some_valid, le, active, serial, lo, hi), more) =
      ((two, size, omega arith, omega arith, omega arith, next_active, serial, lo, hi), omega arith)
    where
      next_active :
          fs.active_index_sector
          ≡ ((fs.oldest_index_sector + 1) % fs.index_sectors + (fs.index_sequence_count - 1) - 1)
            % fs.index_sectors
      next_active =
          active
          ∙ shorter_mod fs.oldest_index_sector ((fs.oldest_index_sector + 1) % fs.index_sectors)
              fs.index_sequence_count fs.index_sectors oldest more le
              (mod_below_twice (fs.oldest_index_sector + 1) fs.index_sectors (omega arith))

module _ {Ctx : Type 0} (b : Backend Ctx) where
  finish-Triple :
      (source : ℕ) → Triple HasOldest (index_compact_oldest_finish b source) (λ _. HasSpare) IsRing
  unfolding index_compact_oldest_finish tombstone_index_sector logical_index_sector
  finish-Triple source =
      Triple-bind {Q = λ _. HasOldest}
        (record {
          at = λ fs h.
              (Triple-weaken {E' = IsRing} (Triple-on_flash {P = HasOldest} _ (λ s c k. k))
                  (λ s k. k) (λ a s k. k) (λ s k. k.0)).at
                fs h;
        })
        (λ _. Triple-modify shortened shortened-HasSpare)

  -- A spare sector, and room for a record in the active one.
  abbrev IsOpen : Fs Ctx → Type 0
  IsOpen fs =
      HasSpare fs × (fs.next_index_offset + 4 ≤ (fs.active_index_sector + 1) * fs.sector_size)

  -- The record is on the flash where there was room for it, and the cache is as it was.
  abbrev IsProgrammed : ℕ → ℕ → Fs Ctx → Type 0
  IsProgrammed slot head fs =
      (before programmed : Fs Ctx) × IsOpen before
      × (program_index_record_at b before.next_index_offset slot head before ≡ (ok tt, programmed))
      × (fs ≡ record programmed { next_index_offset = programmed.next_index_offset + 4 })

  -- From a volume with room for it, the record was programmed at the place of the next one, the place
  -- went on, and the cache has the slot as well.
  abbrev pub IsAppended : ℕ → ℕ → Fs Ctx → Type 0
  IsAppended slot head fs =
      (before programmed : Fs Ctx) × IsOpen before
      × (program_index_record_at b before.next_index_offset slot head before ≡ (ok tt, programmed))
      × (set_head programmed.index_cache slot head ≡ some (ok fs.index_cache))
      × (fs ≡ record programmed {
        index_cache = fs.index_cache;
        next_index_offset = programmed.next_index_offset + 4;
      })

  -- From a ring, finishing a compaction that was interrupted succeeds with a ring that has a spare
  -- sector, or fails with a ring.
  pub index_finish_interrupted_compaction-Outcome :
      (fs : Fs Ctx)
      → IsRing fs
      → Outcome (λ _. HasSpare) IsRing (index_finish_interrupted_compaction b fs)
  unfolding index_finish_interrupted_compaction
  index_finish_interrupted_compaction-Outcome = Triple.at (
      Triple-bind
        {Q = λ fewer fs. IsRing fs × (fewer ≡ ltb fs.index_sequence_count fs.index_sectors)}
        (Triple-gets (λ fs. ltb fs.index_sequence_count fs.index_sectors))
        (λ fewer.
          Triple-bind
            {Q = λ _ fs. IsRing fs × (fewer ≡ ltb fs.index_sequence_count fs.index_sectors)}
            {m = gets (λ fs. fs.oldest_index_sector)} (record { at = λ s h. h })
            (λ oldest. either fewer oldest)))
    where
      either :
          (fewer : Bool) (oldest : ℕ)
          → Triple
              (λ fs. IsRing fs × (fewer ≡ ltb fs.index_sequence_count fs.index_sectors))
              (if fewer then pure tt else index_compact_oldest_finish b oldest)
              (λ _. HasSpare)
              IsRing
      either true oldest = Triple-pure tt (λ s h. (h.0, below s h.1))
        where
          below :
              (s : Fs Ctx)
              → true ≡ ltb s.index_sequence_count s.index_sectors
              → s.index_sequence_count < s.index_sectors
          below s e = ground arith
      either false oldest =
          Triple-weaken {E' = IsRing} (finish-Triple oldest) (λ s h. (h.0, several s h.0 h.1))
            (λ a s h. h) (λ s h. h)
        where
          several :
              (s : Fs Ctx)
              → IsRing s
              → false ≡ ltb s.index_sequence_count s.index_sectors
              → 2 ≤ s.index_sequence_count
          several s h e = ground (arith, h.0)
