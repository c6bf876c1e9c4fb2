-- ===== src/Journal/ClosedReplay.antt =====
-- Replay of a sector that is not the active one, which it reads in chunks of the scratch: it does
-- what reading one record after the other does.
use native.Mathlib.Decide.{dec_lt}
use fastffs.Prelude.{
  ℕ, zero, suc, ◌+◌, ◌-◌, ◌*◌, ◌/◌, ◌≤◌, ◌<◌, ◌≡◌, ◌≢◌, refl, sym, ap, ◌∙◌, arith, List, true,
  false, if◌then◌else◌, ==_ne, lt→ltb, ltb_ge,
}
use fastffs.Status.{next, pure, ◌>>=◌, ◌>>◌}
use fastffs.Flash.{Backend}
use fastffs.Flash.Nor.{IsNor, IsReliable, span}
use fastffs.Sector.{Geometry}
use fastffs.Fs.{Fs, geometry}
use fastffs.IndexHeader.{header_size}
use fastffs.Journal.Replay.{
  note_next, records_from, chunk_nread, replay_chunk, chunks_from, replay_sector,
}
use fastffs.Journal.Follows.{
  with_table, Follows, Follows-pure, Follows-gets, Follows-if, Follows-value, Follows-bind,
  Follows-read, Follows-same,
}
use fastffs.Journal.Closed.{
  go_on, closed_records, closed_records-add, closed_sector, next-same, next-tail, chunk_nread-whole,
}
use fastffs.Journal.ClosedRecords.{records-Does, note_next-Does}

module _ {Ctx : Type 0} {b : Backend Ctx} {cell : Ctx → ℕ → ℕ} (nor : IsNor b cell)
    (works : IsReliable b) (g : Geometry) (scratch active : ℕ) (cells : ℕ → ℕ) where
  chunk-Does :
      (off nread end tail_head : ℕ)
      → nread / 4 * 4 ≡ nread
      → off + nread ≤ b.size
      → Follows cell g scratch active cells
          (replay_chunk b false off nread end tail_head)
          (closed_records g cells (nread / 4) off tail_head)
  unfolding replay_chunk
  chunk-Does off nread end tail_head whole inside =
      Follows-value (Follows-read nor works off nread inside) after
    where
      at_start : off + 0 ≡ off
      at_start = omega arith

      after :
          (chunk : List ℕ)
          → chunk ≡ span cells off nread
          → Follows cell g scratch active cells
              (records_from b (nread / 4) false off chunk 0 nread end tail_head >>= λ step.
                if step.0
                then (note_next false (off + nread) >> pure (true, step.1))
                else pure (false, step.1))
              (closed_records g cells (nread / 4) off tail_head)
      after chunk same = rw same (
          Follows-same
            (Follows-bind
              (records-Does nor works g scratch active cells (nread / 4) off 0 nread end tail_head
                (omega arith))
              (λ step.
                Follows-if step.0
                  (λ e.
                    note_next-Does nor works g scratch active cells (off + nread) _ _
                      (Follows-pure (true, step.1)))
                  (λ e. Follows-pure (false, step.1))))
            (λ table.
              next-same (closed_records g cells (nread / 4) (off + 0) tail_head table)
              ∙ ap (λ o. closed_records g cells (nread / 4) o tail_head table) at_start))

  -- Where the chunk has room for a record it goes on by as much as it has read.
  chunks-Does :
      (fuel off end tail_head : ℕ)
      → 4 ≤ scratch
      → off ≤ end
      → end < off + fuel
      → end ≤ b.size
      → Follows cell g scratch active cells
          (chunks_from b fuel false off end tail_head)
          (closed_records g cells ((end - off) / 4) off tail_head >>= λ step. pure step.1)
  unfolding chunks_from
  chunks-Does zero off end tail_head room le enough inside = absurd (omega arith)
  chunks-Does (suc fuel) off end tail_head room le enough inside = elim (dec_lt end (off + 4)) [
    | yes done ↦
        rw (lt→ltb end (off + 4) done, none_left end off (omega arith)) (Follows-pure tail_head)
    | no more ↦ rw (ltb_ge end (off + 4) (omega arith)) (
        Follows-value
          (Follows-gets (λ fs. chunk_nread (end - off) fs.scratch_size)
            (chunk_nread (end - off) scratch) (λ fs v. ap (chunk_nread (end - off)) v.buffer))
          (λ nread same.
            let (whole, fits, some_bytes) = chunk_nread-whole (end - off) scratch nread same in
            let ahead : 4 ≤ nread = some_bytes room (omega arith) in
            after nread whole fits (omega arith) (λ tail.
              chunks-Does fuel (off + nread) end tail room (omega arith) (omega arith) inside)))
  ]
    where
      none_left : (end off : ℕ) → end < off + 4 → (end - off) / 4 ≡ 0
      none_left end off h = omega arith

      after :
          (nread : ℕ)
          → nread / 4 * 4 ≡ nread
          → nread ≤ end - off
          → off + nread ≤ end
          → ((tail : ℕ)
              → Follows cell g scratch active cells
                  (chunks_from b fuel false (off + nread) end tail)
                  (closed_records g cells ((end - (off + nread)) / 4) (off + nread) tail >>= λ step.
                    pure step.1))
          → Follows cell g scratch active cells
              (replay_chunk b false off nread end tail_head >>= λ step.
                if step.0 then chunks_from b fuel false (off + nread) end step.1 else pure step.1)
              (closed_records g cells ((end - off) / 4) off tail_head >>= λ step. pure step.1)
      after nread whole fits within later =
          Follows-same
            (Follows-bind (chunk-Does off nread end tail_head whole (omega arith))
              (λ step. Follows-if step.0 (λ e. later step.1) (λ e. Follows-pure step.1)))
            (λ table. sym (
              ap (λ r. next r (λ step. pure step.1))
                (ap (λ k. closed_records g cells k off tail_head table)
                    (parts end off nread whole within)
                  ∙ closed_records-add g cells (nread / 4) ((end - (off + nread)) / 4) off tail_head
                      table
                  ∙ ap
                      (λ o.
                        next (closed_records g cells (nread / 4) off tail_head table)
                          (go_on (closed_records g cells ((end - (off + nread)) / 4) o)))
                      (ap (λ k. off + k) whole))
              ∙ next-tail (closed_records g cells (nread / 4) off tail_head table)
                  (closed_records g cells ((end - (off + nread)) / 4) (off + nread))))
        where
          parts :
              (end off nread : ℕ)
              → nread / 4 * 4 ≡ nread
              → off + nread ≤ end
              → (end - off) / 4 ≡ nread / 4 + (end - (off + nread)) / 4
          parts end off nread whole within = omega arith

module _ {Ctx : Type 0} {b : Backend Ctx} {cell : Ctx → ℕ → ℕ} (nor : IsNor b cell)
    (works : IsReliable b) where
  -- On reliable NOR flash, replay of a sector that is inside the flash and is not the active one,
  -- with a scratch of 4 bytes at least, leaves every cell and every field but the cache as it is,
  -- and has the result and the cache that reading its records one after the other has, errors
  -- included. That reading stops at an erased record, passes over one of zeros, and refuses one with
  -- slot 0 or 0xffff, or with head 0xffff, as corrupt.
  pub replay_sector-closed :
      (sector tail_head : ℕ) (fs : Fs Ctx)
      → sector ≢ fs.active_index_sector
      → 4 ≤ fs.scratch_size
      → header_size ≤ fs.sector_size
      → (sector + 1) * fs.sector_size ≤ b.size
      → (c : Ctx) × (cell c ≡ cell fs.ctx)
        × (replay_sector b sector tail_head fs
            ≡ with_table
                (closed_sector (geometry fs) (cell fs.ctx) sector tail_head fs.index_cache)
                c
                fs)
  unfolding replay_sector closed_sector
  replay_sector-closed sector tail_head fs other room size inside =
      rw (==_ne sector fs.active_index_sector other) (
        (Follows-same
            (chunks-Does nor works (geometry fs) fs.scratch_size fs.active_index_sector
              (cell fs.ctx) (fs.sector_size + 1) (sector * fs.sector_size + header_size)
              ((sector + 1) * fs.sector_size) tail_head room (before sector fs.sector_size size)
              (enough sector fs.sector_size) inside)
            (λ table.
              ap
                (λ n.
                  next
                    (closed_records (geometry fs) (cell fs.ctx) (n / 4)
                      (sector * fs.sector_size + header_size) tail_head table)
                    (λ step. pure step.1))
                (bytes sector fs.sector_size))).at
          fs (record { shape = refl; buffer = refl; head = refl; contents = refl }))
    where
      before : (k size : ℕ) → 8 ≤ size → k * size + 8 ≤ (k + 1) * size
      before k size h = grind arith

      enough : (k size : ℕ) → (k + 1) * size < k * size + 8 + (size + 1)
      enough k size = grind arith

      bytes : (k size : ℕ) → (k + 1) * size - (k * size + 8) ≡ size - 8
      bytes k size = grind arith
