-- ===== src/Journal/ClosedRecords.antt =====
-- Replay of the records of a chunk, in a sector that is not the active one.
use fastffs.Prelude.{
  ℕ, zero, suc, ◌+◌, ◌*◌, ◌≤◌, ◌≡◌, refl, ap, ◌∙◌, arith, List, some, Bool, true, false, not, ◌&&◌,
  ◌||◌, ◌==◌, ltb, leb, if◌then◌else◌, drop,
}
use fastffs.Status.{corrupt, err, Action, next, pure, fail, ◌>>=◌, ◌>>◌}
use fastffs.Bytes.{load_le16}
use fastffs.Flash.{Backend}
use fastffs.Flash.Nor.{IsNor, IsReliable, span}
use fastffs.Sector.{Geometry}
use fastffs.HashIndex.{Bucket, insert, remove}
use fastffs.Fs.{Fs}
use fastffs.Journal.Record.{clobber_active_tail, clobber_or_reject_active_tail}
use fastffs.Journal.Replay.{
  index_insert, index_remove, note_next, leave_tail, replay_head, replay_written, replay_record,
  records_from,
}
use fastffs.Journal.Follows.{
  on_table, with_table, Follows, Follows-pure, Follows-gets, Follows-if, Follows-value,
  Follows-bind, Follows-table, Follows-same,
}
use fastffs.Journal.Closed.{inserted, closed_record, closed_records, word-span}

module _ {Ctx : Type 0} {b : Backend Ctx} {cell : Ctx → ℕ → ℕ} (nor : IsNor b cell)
    (works : IsReliable b) (g : Geometry) (scratch active : ℕ) (cells : ℕ → ℕ) where
  abbrev pub Does : {A : Type 0} → Action (Fs Ctx) A → Action (List Bucket) A → Type 0
  Does = Follows cell g scratch active cells

  leave_tail-Does :
      (rec_off tail_head : ℕ) → Does (leave_tail b rec_off false tail_head) (fail corrupt)
  unfolding leave_tail clobber_or_reject_active_tail
  leave_tail-Does rec_off tail_head = record {
    at = λ fs v. (fs.ctx, v.contents, rejected fs fs.strict);
  }
    where
      rejected :
          (fs : Fs Ctx) (strict : Bool)
          → next {A = Unit {0}} {B = Bool × ℕ}
              (if strict || true then (err corrupt, fs) else clobber_active_tail b rec_off fs)
              (λ x. pure (false, tail_head))
            ≡ with_table {A = Bool × ℕ} (err corrupt, fs.index_cache) fs.ctx fs
      rejected fs true = refl
      rejected fs false = refl

  pub note_next-Does :
      {A : Type 0} (offset : ℕ) (m : Action (Fs Ctx) A) (m' : Action (List Bucket) A)
      → Does m m'
      → Does (note_next false offset >> m) m'
  unfolding note_next
  note_next-Does offset m m' k = record { at = k.at }

  insert-Does :
      (slot head : ℕ) → Does (index_insert slot head >> pure (true, head)) (inserted slot head)
  unfolding index_insert
  insert-Does slot head =
      Follows-bind (Follows-table (λ table. some (insert table slot head)))
        (λ x. Follows-pure (true, head))

  head-Does :
      (rec_off slot head tail_head : ℕ)
      → Does (replay_head b rec_off false slot head tail_head) (
          if not (leb g.index_sectors head && ltb head g.sector_count)
          then fail corrupt
          else inserted slot head)
  unfolding replay_head
  head-Does rec_off slot head tail_head =
      Follows-value
        (Follows-gets (λ fs. leb fs.index_sectors head && ltb head fs.sector_count)
          (leb g.index_sectors head && ltb head g.sector_count)
          (λ fs v.
            ap (λ (s : Geometry). leb s.index_sectors head && ltb head s.sector_count) v.shape))
        (λ in_data same.
          Follows-same
            (Follows-if (not in_data) (λ e. leave_tail-Does rec_off tail_head)
              (λ e. insert-Does slot head))
            (λ table.
              ap (λ (t : Bool). (if not t then fail corrupt else inserted slot head) table) same))

  written-Does :
      (rec_off slot head tail_head : ℕ)
      → Does (replay_written b rec_off false slot head tail_head) (
          if slot == 0 || slot == 0xffff || head == 0xffff
          then fail corrupt
          else if head == 0
          then ((λ table. on_table (remove table slot) table) >>= λ x. pure (true, tail_head))
          else if not (leb g.index_sectors head && ltb head g.sector_count)
          then fail corrupt
          else inserted slot head)
  unfolding replay_written index_remove
  written-Does rec_off slot head tail_head =
      Follows-if (slot == 0 || slot == 0xffff || head == 0xffff)
        (λ _. leave_tail-Does rec_off tail_head)
        (λ _.
          Follows-if (head == 0)
            (λ _.
              Follows-bind (Follows-table (λ table. remove table slot))
                (λ x. Follows-pure (true, tail_head)))
            (λ _. head-Does rec_off slot head tail_head))

  record-Does :
      (rec_off : ℕ) (chunk : List ℕ) (pos nread end tail_head slot head : ℕ)
      → load_le16 (drop pos chunk) ≡ slot
      → load_le16 (drop (pos + 2) chunk) ≡ head
      → Does
          (replay_record b false rec_off chunk pos nread end tail_head)
          (closed_record g slot head tail_head)
  unfolding replay_record replay_written index_remove
  record-Does rec_off chunk pos nread end tail_head slot head e e' =
      rw (e, e')
        (Follows-if (slot == 0xffff && head == 0xffff)
          (λ _. note_next-Does rec_off _ _ (Follows-pure (false, tail_head)))
          (λ _.
            Follows-if (slot == 0 && head == 0)
              (λ _. note_next-Does (rec_off + 4) _ _ (Follows-pure (true, tail_head)))
              (λ _. written-Does rec_off slot head tail_head)))

  pub records-Does :
      (left off pos nread end tail_head : ℕ)
      → pos + left * 4 ≤ nread
      → Does
          (records_from b left false off (span cells off nread) pos nread end tail_head)
          (closed_records g cells left (off + pos) tail_head)
  unfolding records_from
  records-Does zero off pos nread end tail_head fits = Follows-pure (true, tail_head)
  records-Does (suc left) off pos nread end tail_head fits =
      Follows-bind
        (record-Does (off + pos) (span cells off nread) pos nread end tail_head _ _
          (word-span cells off nread pos (omega arith))
          (word-span cells off nread (pos + 2) (omega arith)
            ∙ ap (λ o. load_le16 (span cells o 2)) (past off pos)))
        (λ step.
          Follows-if step.0
            (λ e.
              Follows-same (records-Does left off (pos + 4) nread end step.1 (omega arith))
                (λ table. ap (λ o. closed_records g cells left o step.1 table) (along off pos)))
            (λ e. Follows-pure (false, step.1)))
    where
      along : (off pos : ℕ) → off + (pos + 4) ≡ off + pos + 4
      along off pos = omega arith

      past : (off pos : ℕ) → off + (pos + 2) ≡ off + pos + 2
      past off pos = omega arith
