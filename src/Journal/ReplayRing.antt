-- ===== src/Journal/ReplayRing.antt =====
-- The whole of the replay, on a ring of index sectors.
use fastffs.Prelude.{
  ℕ, zero, suc, ◌+◌, ◌*◌, ◌≡◌, refl, ap, arith, ◌||◌, ◌==◌, ltb, leb, if◌then◌else◌, ==_iff,
}
use fastffs.Flash.{Backend}
use fastffs.Alloc.{next_data_sector}
use fastffs.Fs.{Fs, geometry}
use fastffs.IndexHeader.{header_size}
use fastffs.Triple.{
  Outcome, Triple, Triple-pure, Triple-gets_any, Triple-if, Triple-modify, Triple-bind,
}
use fastffs.Journal.Ring.{IsRing}
use fastffs.Journal.Replay.{
  replay_sector, sectors_from, recover_from, recover_allocator_hint, replay_index,
  alloc_recovery_lookahead,
}
use fastffs.Journal.Replayed.{Within, untouched, Replayed, note_serial-Triple}
use fastffs.Journal.ReplayLoops.{chunks-Triple}

module _ {Ctx : Type 0} (b : Backend Ctx) (fs0 : Fs Ctx) where
  -- Only the active sector is read as the active one.
  sector-Within :
      (fs : Fs Ctx) (sector : ℕ)
      → Replayed b fs0 fs
      → Within fs0
          (sector == fs.active_index_sector)
          (sector * fs.sector_size + header_size)
          ((sector + 1) * fs.sector_size)
  sector-Within fs sector h e =
      rw
        (
          (==_iff sector fs.active_index_sector).0 e,
          ap (λ (s : Fs Ctx). s.active_index_sector) h.0,
          ap (λ (s : Fs Ctx). s.sector_size) h.0,
        )
        (omega arith, omega arith)

  sector-Triple :
      (sector tail_head : ℕ)
      → Triple
          (Replayed b fs0)
          (replay_sector b sector tail_head)
          (λ _. Replayed b fs0)
          (Replayed b fs0)
  unfolding replay_sector
  sector-Triple sector tail_head = record {
    at = λ fs h. (chunks-Triple b fs0 _ _ _ _ tail_head (sector-Within fs sector h)).at fs h;
  }

  sectors-Triple :
      (left sector tail_head : ℕ)
      → Triple
          (Replayed b fs0)
          (sectors_from b left sector tail_head)
          (λ _. Replayed b fs0)
          (Replayed b fs0)
  unfolding sectors_from
  sectors-Triple zero sector tail_head = Triple-pure tail_head (λ s h. h)
  sectors-Triple (suc left) sector tail_head = Triple-bind (sector-Triple sector tail_head) (λ tail.
      Triple-bind
        (Triple-gets_any (λ fs. if leb fs.index_sectors (sector + 1) then 0 else sector + 1))
        (λ next. sectors-Triple left next tail))

  recover_from-Triple :
      (left sector : ℕ)
      → Triple (Replayed b fs0) (recover_from b left sector) (λ _. Replayed b fs0) (Replayed b fs0)
  unfolding recover_from
  recover_from-Triple zero sector = Triple-pure tt (λ s h. h)
  recover_from-Triple (suc left) sector =
      Triple-bind
        (Triple-gets_any (λ fs. ltb sector fs.index_sectors || leb fs.sector_count sector))
        (λ out.
          Triple-if out (λ e. Triple-pure tt (λ s h. h))
            (λ e. Triple-bind (note_serial-Triple b fs0 sector) (λ _.
              Triple-bind (Triple-gets_any (λ fs. next_data_sector (geometry fs) sector)) (λ next.
                Triple-if (leb next sector) (λ e'. Triple-pure tt (λ s h. h))
                  (λ e'. recover_from-Triple left next)))))

  recover-Triple :
      (head : ℕ)
      → Triple
          (Replayed b fs0)
          (recover_allocator_hint b head)
          (λ _. Replayed b fs0)
          (Replayed b fs0)
  unfolding recover_allocator_hint
  recover-Triple head =
      Triple-bind {Q = λ _. Replayed b fs0}
        (Triple-modify _ (λ s h. (
          ap (λ (t : Fs Ctx). record t { alloc_cursor = next_data_sector (geometry s) head }) h.0,
          h.1,
          h.2,
        )))
        (λ _. recover_from-Triple (alloc_recovery_lookahead + 1) head)

module _ {Ctx : Type 0} (b : Backend Ctx) where
  -- Replay of a journal whose index sectors are a ring, whatever they hold, changes no field of the
  -- volume but the flash, the cache, the place of the next record and the two hints of the
  -- allocator; it leaves that place between the header and the end of the active sector; and it
  -- touches the flash with reads alone and with programs of four zeros, each over a whole record's
  -- place between the header and the end of the active sector. So it is where it stops with an
  -- error too, the case of a loop of the cache that does not end among them.
  pub replay_index-Outcome :
      (fs : Fs Ctx) → IsRing fs → Outcome (λ _. Replayed b fs) (Replayed b fs) (replay_index b fs)
  unfolding replay_index
  replay_index-Outcome fs ring =
      (Triple-bind
          (Triple-modify {P = λ s. s ≡ fs} {E = Replayed b fs} {Q = λ _. Replayed b fs} _
            (λ s h. started s h))
          (λ _. Triple-bind (Triple-gets_any (λ s. s.index_sequence_count)) (λ count.
            Triple-bind (Triple-gets_any (λ s. s.oldest_index_sector)) (λ oldest.
              Triple-bind (sectors-Triple b fs count oldest 0) (λ tail_head.
                Triple-if (tail_head == 0) (λ e. Triple-pure tt (λ s h. h))
                  (λ e. recover-Triple b fs tail_head)))))).at
        fs refl
    where
      begin : ℕ
      begin = fs.active_index_sector * fs.sector_size + header_size

      started :
          (s : Fs Ctx)
          → s ≡ fs
          → Replayed b fs
              (record s { next_index_offset = s.active_index_sector * s.sector_size + header_size })
      started s e = rw e (refl, (omega arith, omega (arith, ring.7, ring.8)), untouched)
