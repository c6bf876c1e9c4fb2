-- ===== src/Journal/Replaying.antt =====
-- What replay of one record leaves of the volume.
use fastffs.Prelude.{
  ℕ, ◌+◌, ◌≡◌, refl, sym, ◌∙◌, arith, List, Bool, true, false, not, ◌&&◌, ◌||◌, ◌==◌, ltb, leb,
  if◌then◌else◌,
}
use fastffs.Status.{pure, ◌>>=◌, ◌>>◌}
use fastffs.Bytes.{load_le16}
use fastffs.Flash.{Backend}
use fastffs.Fs.{Fs}
use fastffs.Triple.{Triple, Triple-pure, Triple-gets_any, Triple-if, Triple-bind}
use fastffs.Journal.Record.{active_index_record_is_terminal}
use fastffs.Journal.Replay.{replay_head, replay_written, replay_record, note_next}
use fastffs.Journal.Replayed.{
  HasRecord, Replayed, index_insert-Triple, index_remove-Triple, note_next-Triple, Within,
  inside_at, terminal-Triple, leave_tail-Triple, root_is_readable-Triple,
}

module _ {Ctx : Type 0} (b : Backend Ctx) (fs0 : Fs Ctx) where
  head-Triple :
      (rec_off : ℕ) (terminal : Bool) (slot head tail_head : ℕ)
      → (terminal ≡ true → HasRecord fs0 rec_off)
      → Triple
          (Replayed b fs0)
          (replay_head b rec_off terminal slot head tail_head)
          (λ _. Replayed b fs0)
          (Replayed b fs0)
  unfolding replay_head
  head-Triple rec_off terminal slot head tail_head inside =
      Triple-bind (Triple-gets_any (λ fs. leb fs.index_sectors head && ltb head fs.sector_count))
        (λ in_data.
          Triple-if (not in_data) (λ e. leave_tail-Triple b fs0 rec_off terminal tail_head inside)
            (λ e.
              Triple-bind
                (Triple-if terminal (λ e'. root_is_readable-Triple b fs0 head slot)
                  (λ e'. Triple-pure true (λ s h. h)))
                (λ found.
                  Triple-if (not found)
                    (λ e'. leave_tail-Triple b fs0 rec_off terminal tail_head inside)
                    (λ e'.
                      Triple-bind (index_insert-Triple b fs0 slot head)
                        (λ _. Triple-pure (true, head) (λ s h. h))))))

  written-Triple :
      (rec_off : ℕ) (terminal : Bool) (slot head tail_head : ℕ)
      → (terminal ≡ true → HasRecord fs0 rec_off)
      → Triple
          (Replayed b fs0)
          (replay_written b rec_off terminal slot head tail_head)
          (λ _. Replayed b fs0)
          (Replayed b fs0)
  unfolding replay_written
  written-Triple rec_off terminal slot head tail_head inside =
      Triple-if (slot == 0 || slot == 0xffff || head == 0xffff)
        (λ e. leave_tail-Triple b fs0 rec_off terminal tail_head inside)
        (λ e.
          Triple-if (head == 0)
            (λ e'.
              Triple-bind (index_remove-Triple b fs0 slot)
                (λ _. Triple-pure (true, tail_head) (λ s h. h)))
            (λ e'. head-Triple rec_off terminal slot head tail_head inside))

  pub record-Triple :
      (active : Bool) (rec_off : ℕ) (chunk : List ℕ) (pos nread end tail_head : ℕ)
      → Within fs0 active rec_off (rec_off + 4)
      → Triple
          (Replayed b fs0)
          (replay_record b active rec_off chunk pos nread end tail_head)
          (λ _. Replayed b fs0)
          (Replayed b fs0)
  unfolding replay_record
  record-Triple active rec_off chunk pos nread end tail_head w =
      by_words (load_le16 _) (load_le16 _)
    where
      by_terminal :
          (active : Bool) (slot head : ℕ)
          → Within fs0 active rec_off (rec_off + 4)
          → Triple
              (Replayed b fs0)
              ((if active
                  then active_index_record_is_terminal b rec_off chunk pos nread end
                  else pure false)
                >>= λ terminal. replay_written b rec_off terminal slot head tail_head)
              (λ _. Replayed b fs0)
              (Replayed b fs0)
      by_terminal true slot head w =
          Triple-bind (terminal-Triple b fs0 rec_off chunk pos nread end)
            (λ terminal. written-Triple rec_off terminal slot head tail_head (λ e. w refl))
      by_terminal false slot head w =
          Triple-bind {Q = λ terminal s. Replayed b fs0 s × (terminal ≡ false)}
            (Triple-pure false (λ s h. (h, refl)))
            (λ terminal. record {
              at = λ s h.
                  (written-Triple rec_off terminal slot head tail_head
                      (λ e. absurd (differ (sym h.1 ∙ e)))).at
                    s h.0;
            })
        where
          differ : false ≡ true → ⊥
          differ e = ground arith

      by_words :
          (slot head : ℕ)
          → Triple
              (Replayed b fs0)
              (if slot == 0xffff && head == 0xffff
                then (note_next active rec_off >> pure (false, tail_head))
                else if slot == 0 && head == 0
                then (note_next active (rec_off + 4) >> pure (true, tail_head))
                else ((if active
                      then active_index_record_is_terminal b rec_off chunk pos nread end
                      else pure false)
                    >>= λ terminal. replay_written b rec_off terminal slot head tail_head))
              (λ _. Replayed b fs0)
              (Replayed b fs0)
      by_words slot head =
          Triple-if (slot == 0xffff && head == 0xffff)
            (λ e.
              Triple-bind
                (note_next-Triple b fs0 active rec_off (
                  inside_at fs0 active rec_off (rec_off + 4) rec_off w (omega arith) (omega arith)))
                (λ _. Triple-pure (false, tail_head) (λ s h. h)))
            (λ e.
              Triple-if (slot == 0 && head == 0)
                (λ e'.
                  Triple-bind
                    (note_next-Triple b fs0 active (rec_off + 4) (
                      inside_at fs0 active rec_off (rec_off + 4) (rec_off + 4) w (omega arith)
                        (omega arith)))
                    (λ _. Triple-pure (true, tail_head) (λ s h. h)))
                (λ e'. by_terminal active slot head w))
