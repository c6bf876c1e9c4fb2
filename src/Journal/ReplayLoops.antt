-- ===== src/Journal/ReplayLoops.antt =====
-- What the loops of the replay over the records and the chunks of a sector leave of the volume.
use fastffs.Prelude.{
  ℕ, zero, suc, ◌+◌, ◌-◌, ◌*◌, ◌/◌, ◌≤◌, ◌≡◌, arith, List, Bool, true, false, ltb, if◌then◌else◌,
}
use fastffs.Status.{hang, pure, gets, ◌>>=◌}
use fastffs.Flash.{Backend, flash_read}
use fastffs.Fs.{Fs}
use fastffs.Triple.{Triple, Triple-pure, Triple-fail, Triple-if, Triple-bind}
use fastffs.Journal.Replay.{chunk_nread, records_from, replay_chunk, chunks_from}
use fastffs.Journal.Replayed.{Within, inside_at, Replayed, was_read, flash-Triple, note_next-Triple}
use fastffs.Journal.Replaying.{record-Triple}

-- A chunk is whole records, and no more than what remains.
chunk_nread_bound : (remaining size : ℕ) → chunk_nread remaining size / 4 * 4 ≤ remaining
unfolding chunk_nread
chunk_nread_bound remaining size = ground arith

chunk_nread_whole :
    (remaining size : ℕ) → chunk_nread remaining size / 4 * 4 ≡ chunk_nread remaining size
unfolding chunk_nread
chunk_nread_whole remaining size = ground arith

module _ {Ctx : Type 0} (b : Backend Ctx) (fs0 : Fs Ctx) where
  records-Triple :
      (left : ℕ) (active : Bool) (off : ℕ) (chunk : List ℕ) (pos nread end tail_head : ℕ)
      → Within fs0 active (off + pos) (off + pos + left * 4)
      → Triple
          (Replayed b fs0)
          (records_from b left active off chunk pos nread end tail_head)
          (λ _. Replayed b fs0)
          (Replayed b fs0)
  unfolding records_from
  records-Triple zero active off chunk pos nread end tail_head w =
      Triple-pure (true, tail_head) (λ s h. h)
  records-Triple (suc left) active off chunk pos nread end tail_head w =
      Triple-bind
        (record-Triple b fs0 active (off + pos) chunk pos nread end tail_head
          (λ e. ((w e).0, omega (arith, (w e).1))))
        (λ step.
          Triple-if step.0
            (λ e.
              records-Triple left active off chunk (pos + 4) nread end step.1
                (λ e. (omega (arith, (w e).0), omega (arith, (w e).1))))
            (λ e. Triple-pure (false, step.1) (λ s h. h)))

  chunk-Triple :
      (active : Bool) (off nread end tail_head : ℕ)
      → nread / 4 * 4 ≡ nread
      → Within fs0 active off (off + nread)
      → Triple
          (Replayed b fs0)
          (replay_chunk b active off nread end tail_head)
          (λ _. Replayed b fs0)
          (Replayed b fs0)
  unfolding replay_chunk
  chunk-Triple active off nread end tail_head whole w =
      Triple-bind (flash-Triple b fs0 (flash_read b off nread) (λ c. was_read off nread)) (λ chunk.
        Triple-bind
          (records-Triple (nread / 4) active off chunk 0 nread end tail_head
            (λ e. (omega (arith, (w e).0), omega (arith, (w e).1))))
          (λ step.
            Triple-if step.0
              (λ e.
                Triple-bind
                  (note_next-Triple b fs0 active (off + nread) (
                    inside_at fs0 active off (off + nread) (off + nread) w (omega arith)
                      (omega arith)))
                  (λ _. Triple-pure (true, step.1) (λ s h. h)))
              (λ e. Triple-pure (false, step.1) (λ s h. h))))

  pub chunks-Triple :
      (fuel : ℕ) (active : Bool) (off end tail_head : ℕ)
      → Within fs0 active off end
      → Triple
          (Replayed b fs0)
          (chunks_from b fuel active off end tail_head)
          (λ _. Replayed b fs0)
          (Replayed b fs0)
  unfolding chunks_from
  chunks-Triple zero active off end tail_head w = Triple-fail hang (λ s h. h)
  chunks-Triple (suc fuel) active off end tail_head w =
      Triple-if (ltb end (off + 4)) (λ e. Triple-pure tail_head (λ s h. h))
        (λ e.
          Triple-bind
            {Q = λ nread s. Replayed b fs0 s × ((nread / 4 * 4 ≡ nread) × (nread ≤ end - off))}
            {m = gets _} (record { at = λ s h. (h, nread_fits s) })
            (λ nread. record {
              at = λ s h.
                  (rest nread h.1.0 (within nread h.1.1 (room e)) (λ tail.
                      chunks-Triple fuel active (off + nread) end tail
                        (within nread h.1.1 (room e)).1)).at
                    s h.0;
            }))
    where
      room : ltb end (off + 4) ≡ false → off ≤ end
      room e = ground arith

      nread_fits :
          (s : Fs Ctx)
          → (chunk_nread (end - off) s.scratch_size / 4 * 4
              ≡ chunk_nread (end - off) s.scratch_size)
            × (chunk_nread (end - off) s.scratch_size ≤ end - off)
      nread_fits s = (
        chunk_nread_whole (end - off) s.scratch_size,
        omega (
          arith,
          chunk_nread_bound (end - off) s.scratch_size,
          chunk_nread_whole (end - off) s.scratch_size,
        ),
      )

      within :
          (nread : ℕ)
          → nread ≤ end - off
          → off ≤ end
          → Within fs0 active off (off + nread) × Within fs0 active (off + nread) end
      within nread fits le =
          (λ e. ((w e).0, omega (arith, (w e).1)), λ e. (omega (arith, (w e).0), (w e).1))

      rest :
          (nread : ℕ)
          → nread / 4 * 4 ≡ nread
          → Within fs0 active off (off + nread) × Within fs0 active (off + nread) end
          → ((tail : ℕ)
              → Triple
                  (Replayed b fs0)
                  (chunks_from b fuel active (off + nread) end tail)
                  (λ _. Replayed b fs0)
                  (Replayed b fs0))
          → Triple
              (Replayed b fs0)
              (replay_chunk b active off nread end tail_head >>= λ step.
                if step.0 then chunks_from b fuel active (off + nread) end step.1 else pure step.1)
              (λ _. Replayed b fs0)
              (Replayed b fs0)
      rest nread whole ws later =
          Triple-bind (chunk-Triple active off nread end tail_head whole ws.0)
            (λ step. Triple-if step.0 (λ e. later step.1) (λ e. Triple-pure step.1 (λ s h. h)))
