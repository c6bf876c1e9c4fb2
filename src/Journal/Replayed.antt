-- ===== src/Journal/Replayed.antt =====
-- What replay leaves of the volume.
use fastffs.Prelude.{
  arith, ◌≤◌, ◌*◌, ℕ, zero, suc, ◌+◌, ◌-◌, ◌*◌, ◌≤◌, ◌≡◌, refl, ap, List, [], ◌∷◌, Option, some,
  none, Bool, true, false, not, ◌&&◌, ◌||◌, ◌==◌, ltb, leb, if◌then◌else◌, take, drop,
}
use fastffs.Status.{passed_over, corrupt, Result, ok, err, Action, pure}
use fastffs.Bytes.{bytes_erased}
use fastffs.Flash.{Backend, flash_read, program_aligned}
use fastffs.Sector.{Geometry, read_sector_serial}
use fastffs.Metadata.Root.{RootMd, read_file_root_md}
use fastffs.HashIndex.{Bucket, insert, remove}
use fastffs.Fs.{Fs, geometry, on_flash}
use fastffs.IndexHeader.{header_size}
use fastffs.Triple.{Outcome, Triple, Triple-pure, Triple-if, Triple-modify, Triple-bind}
use fastffs.Journal.Record.{
  span_erased_from, index_flash_span_erased, rest_is_erased, active_index_record_is_terminal,
  clobber_active_tail, clobber_or_reject_active_tail,
}
use fastffs.Journal.Append.{cached}
use fastffs.Journal.Replay.{
  index_insert, index_remove, note_next, readable, root_is_readable, leave_tail, serial_after,
  noted_serial, note_serial,
}

module _ {Ctx : Type 0} where
  -- `fs0` with the fields of `fs` that replay changes.
  abbrev pub replayed : Fs Ctx → Fs Ctx → Fs Ctx
  replayed fs0 fs = record fs0 {
    ctx = fs.ctx;
    index_cache = fs.index_cache;
    next_index_offset = fs.next_index_offset;
    alloc_cursor = fs.alloc_cursor;
    next_sector_serial = fs.next_sector_serial;
  }

  -- The place is in the records of the active sector.
  abbrev pub InActive : Fs Ctx → ℕ → Type 0
  InActive fs0 offset =
      (fs0.active_index_sector * fs0.sector_size + header_size ≤ offset)
      × (offset ≤ (fs0.active_index_sector + 1) * fs0.sector_size)

  -- A record at the place lies among those of the active sector.
  abbrev pub HasRecord : Fs Ctx → ℕ → Type 0
  HasRecord fs0 offset =
      (fs0.active_index_sector * fs0.sector_size + header_size ≤ offset)
      × (offset + 4 ≤ (fs0.active_index_sector + 1) * fs0.sector_size)

  -- What lies between the two is in the active sector, if it is the one that is read.
  abbrev pub Within : Fs Ctx → Bool → ℕ → ℕ → Type 0
  Within fs0 active first last =
      active ≡ true
      → (fs0.active_index_sector * fs0.sector_size + header_size ≤ first)
        × (last ≤ (fs0.active_index_sector + 1) * fs0.sector_size)

  pub inside_at :
      (fs0 : Fs Ctx) (active : Bool) (first last offset : ℕ)
      → Within fs0 active first last
      → first ≤ offset
      → offset ≤ last
      → active ≡ true
      → InActive fs0 offset
  inside_at fs0 active first last offset w lo hi e =
      (omega (arith, (w e).0), omega (arith, (w e).1))

-- The states of the flash that reads lead to, and programs of zeros over a record of the active
-- sector.
pub data Touched {Ctx : Type 0} (b : Backend Ctx) (fs0 : Fs Ctx) : Ctx → Type 0 where
  untouched : Touched b fs0 fs0.ctx
  was_read : {c : Ctx} (off n : ℕ) → Touched b fs0 c → Touched b fs0 (flash_read b off n c).1
  root_was_read :
      {c : Ctx} (g : Geometry) (head slot : ℕ)
      → Touched b fs0 c
      → Touched b fs0 (read_file_root_md b g head slot false none c).1
  serial_was_read :
      {c : Ctx} (g : Geometry) (sector : ℕ)
      → Touched b fs0 c
      → Touched b fs0 (read_sector_serial b g sector c).1
  was_clobbered :
      {c : Ctx} (offset : ℕ)
      → HasRecord fs0 offset
      → Touched b fs0 c
      → Touched b fs0 (program_aligned b offset (0 ∷ 0 ∷ 0 ∷ 0 ∷ []) c).1

-- What replay of `fs0` leaves.
abbrev pub Replayed : {Ctx : Type 0} → Backend Ctx → Fs Ctx → Fs Ctx → Type 0
Replayed b fs0 fs =
    (fs ≡ replayed fs0 fs) × InActive fs0 fs.next_index_offset × Touched b fs0 fs.ctx

module _ {Ctx : Type 0} (b : Backend Ctx) (fs0 : Fs Ctx) where
  pub flash-Triple :
      {A : Type 0} (m : Action Ctx A)
      → ((c : Ctx) → Touched b fs0 c → Touched b fs0 (m c).1)
      → Triple (Replayed b fs0) (on_flash m) (λ _. Replayed b fs0) (Replayed b fs0)
  unfolding on_flash
  flash-Triple {A} m touch = record { at = λ fs h. out fs h (m fs.ctx) (touch fs.ctx h.2) }
    where
      out :
          (fs : Fs Ctx)
          → Replayed b fs0 fs
          → (r : Result A × Ctx) → Touched b fs0 r.1
          → Outcome (λ (a : A). Replayed b fs0) (Replayed b fs0) (r.0, record fs { ctx = r.1 })
      out fs h (ok a, c) k = (ap (λ (s : Fs Ctx). record s { ctx = c }) h.0, h.1, k)
      out fs h (err e, c) k = (ap (λ (s : Fs Ctx). record s { ctx = c }) h.0, h.1, k)

  cached-Replayed :
      (r : Option (Result (List Bucket))) (fs : Fs Ctx)
      → Replayed b fs0 fs
      → Outcome (λ (x : Unit {0}). Replayed b fs0) (Replayed b fs0) (cached r fs)
  unfolding cached
  cached-Replayed none fs h = h
  cached-Replayed (some (ok table)) fs (same, place, steps) =
      (ap (λ (s : Fs Ctx). record s { index_cache = table }) same, place, steps)
  cached-Replayed (some (err e)) fs h = h

  pub index_insert-Triple :
      (slot head : ℕ)
      → Triple (Replayed b fs0) (index_insert slot head) (λ _. Replayed b fs0) (Replayed b fs0)
  unfolding index_insert
  index_insert-Triple slot head = record {
    at = λ fs. cached-Replayed (some (insert fs.index_cache slot head)) fs;
  }

  pub index_remove-Triple :
      (slot : ℕ)
      → Triple (Replayed b fs0) (index_remove slot) (λ _. Replayed b fs0) (Replayed b fs0)
  unfolding index_remove
  index_remove-Triple slot = record { at = λ fs. cached-Replayed (remove fs.index_cache slot) fs }

  pub note_next-Triple :
      (active : Bool) (offset : ℕ)
      → (active ≡ true → InActive fs0 offset)
      → Triple (Replayed b fs0) (note_next active offset) (λ _. Replayed b fs0) (Replayed b fs0)
  unfolding note_next
  note_next-Triple true offset inside =
      Triple-modify _ (λ s h.
        (ap (λ (t : Fs Ctx). record t { next_index_offset = offset }) h.0, inside refl, h.2))
  note_next-Triple false offset inside = Triple-modify _ (λ s h. h)

  span_erased-Triple :
      (fuel offset size : ℕ)
      → Triple
          (Replayed b fs0)
          (span_erased_from b fuel offset size)
          (λ _. Replayed b fs0)
          (Replayed b fs0)
  unfolding span_erased_from
  span_erased-Triple zero offset size = Triple-pure true (λ s h. h)
  span_erased-Triple (suc fuel) offset size =
      Triple-if (size == 0) (λ e. Triple-pure true (λ s h. h))
        (λ e. Triple-bind (flash-Triple _ (λ c. was_read offset _)) (λ buf.
          Triple-if (bytes_erased (take (if ltb size 32 then size else 32) buf))
            (λ e'. span_erased-Triple fuel _ _) (λ e'. Triple-pure false (λ s h. h))))

  rest-Triple :
      (rec_off : ℕ) (chunk : List ℕ) (pos nread end : ℕ)
      → Triple
          (Replayed b fs0)
          (rest_is_erased b rec_off chunk pos nread end)
          (λ _. Replayed b fs0)
          (Replayed b fs0)
  unfolding rest_is_erased index_flash_span_erased
  rest-Triple rec_off chunk pos nread end =
      let rest_off = rec_off + 8 in
      let chunk_end = rec_off + (nread - pos) in
      behind
        (ltb rest_off chunk_end
          && not (bytes_erased (take (chunk_end - rest_off) (drop (pos + 8) chunk))))
        (if ltb rest_off chunk_end then chunk_end else rest_off)
    where
      behind :
          (written : Bool) (from : ℕ)
          → Triple
              (Replayed b fs0)
              (if written
                then pure false
                else if leb end from
                then pure true
                else span_erased_from b (end - from) from (end - from))
              (λ (x : Bool). Replayed b fs0)
              (Replayed b fs0)
      behind true from = Triple-pure false (λ s h. h)
      behind false from =
          Triple-if (leb end from) (λ e. Triple-pure true (λ s h. h))
            (λ e. span_erased-Triple (end - from) from (end - from))

  pub terminal-Triple :
      (rec_off : ℕ) (chunk : List ℕ) (pos nread end : ℕ)
      → Triple
          (Replayed b fs0)
          (active_index_record_is_terminal b rec_off chunk pos nread end)
          (λ _. Replayed b fs0)
          (Replayed b fs0)
  unfolding active_index_record_is_terminal
  terminal-Triple rec_off chunk pos nread end =
      Triple-if (rec_off + 4 == end) (λ e. Triple-pure true (λ s h. h))
        (λ e.
          Triple-bind
            (Triple-if (leb (pos + 8) nread) (λ e'. Triple-pure _ (λ s h. h))
              (λ e'. flash-Triple _ (λ c. was_read (rec_off + 4) 4)))
            (λ next_rec.
              Triple-if (bytes_erased next_rec) (λ e'. rest-Triple rec_off chunk pos nread end)
                (λ e'. Triple-pure false (λ s h. h))))

  clobber-Triple :
      (rec_off : ℕ)
      → HasRecord fs0 rec_off
      → Triple
          (Replayed b fs0)
          (clobber_active_tail b rec_off)
          (λ _. Replayed b fs0)
          (Replayed b fs0)
  unfolding clobber_active_tail
  clobber-Triple rec_off inside =
      Triple-bind (flash-Triple _ (λ c. was_clobbered rec_off inside)) (λ _. Triple-modify _ (λ s h.
        (
          ap (λ (t : Fs Ctx). record t { next_index_offset = rec_off + 4 }) h.0,
          (omega (arith, inside.0), inside.1),
          h.2,
        )))

  clobber_or_reject-Triple :
      (rec_off : ℕ) (terminal : Bool)
      → (terminal ≡ true → HasRecord fs0 rec_off)
      → Triple
          (Replayed b fs0)
          (clobber_or_reject_active_tail b rec_off terminal)
          (λ _. Replayed b fs0)
          (Replayed b fs0)
  unfolding clobber_or_reject_active_tail
  clobber_or_reject-Triple rec_off false inside = record { at = λ fs h. either fs h fs.strict }
    where
      either :
          (fs : Fs Ctx)
          → Replayed b fs0 fs
          → (strict : Bool)
          → Outcome
              (λ (x : Unit {0}). Replayed b fs0)
              (Replayed b fs0)
              (if strict || true then (err corrupt, fs) else clobber_active_tail b rec_off fs)
      either fs h true = h
      either fs h false = h
  clobber_or_reject-Triple rec_off true inside = record { at = λ fs h. either fs h fs.strict }
    where
      either :
          (fs : Fs Ctx)
          → Replayed b fs0 fs
          → (strict : Bool)
          → Outcome
              (λ (x : Unit {0}). Replayed b fs0)
              (Replayed b fs0)
              (if strict || false then (err corrupt, fs) else clobber_active_tail b rec_off fs)
      either fs h true = h
      either fs h false = (clobber-Triple rec_off (inside refl)).at fs h

  pub leave_tail-Triple :
      (rec_off : ℕ) (terminal : Bool) (tail_head : ℕ)
      → (terminal ≡ true → HasRecord fs0 rec_off)
      → Triple
          (Replayed b fs0)
          (leave_tail b rec_off terminal tail_head)
          (λ _. Replayed b fs0)
          (Replayed b fs0)
  unfolding leave_tail
  leave_tail-Triple rec_off terminal tail_head inside =
      Triple-bind (clobber_or_reject-Triple rec_off terminal inside)
        (λ _. Triple-pure (false, tail_head) (λ s h. h))

  same-Replayed :
      {A : Type 0} (r : Result A) (fs : Fs Ctx)
      → Replayed b fs0 fs
      → Outcome (λ (x : A). Replayed b fs0) (Replayed b fs0) (r, fs)
  same-Replayed (ok a) fs h = h
  same-Replayed (err e) fs h = h

  readable-Replayed :
      (r : Result RootMd × Fs Ctx)
      → Outcome (λ (x : RootMd). Replayed b fs0) (Replayed b fs0) r
      → Outcome (λ (x : Bool). Replayed b fs0) (Replayed b fs0) (readable r)
  unfolding readable
  readable-Replayed (ok root, fs) h = h
  readable-Replayed (err e, fs) h = same-Replayed (passed_over false e) fs h

  noted-Replayed :
      (r : Result ℕ × Fs Ctx)
      → Outcome (λ (x : ℕ). Replayed b fs0) (Replayed b fs0) r
      → Outcome (λ (x : Unit {0}). Replayed b fs0) (Replayed b fs0) (noted_serial r)
  unfolding noted_serial
  noted-Replayed (ok serial, fs) (same, place, steps) = (
    ap (λ (t : Fs Ctx). record t { next_sector_serial = serial_after t.next_sector_serial serial })
        same,
    place,
    steps,
  )
  noted-Replayed (err e, fs) h = same-Replayed (passed_over tt e) fs h

  pub root_is_readable-Triple :
      (head slot : ℕ)
      → Triple
          (Replayed b fs0)
          (root_is_readable b head slot)
          (λ _. Replayed b fs0)
          (Replayed b fs0)
  unfolding root_is_readable
  root_is_readable-Triple head slot = record {
    at = λ fs h.
        readable-Replayed (on_flash (read_file_root_md b (geometry fs) head slot false none) fs)
          ((flash-Triple _ (λ c. root_was_read (geometry fs) head slot)).at fs h);
  }

  pub note_serial-Triple :
      (sector : ℕ)
      → Triple (Replayed b fs0) (note_serial b sector) (λ _. Replayed b fs0) (Replayed b fs0)
  unfolding note_serial
  note_serial-Triple sector = record {
    at = λ fs h.
        noted-Replayed (on_flash (read_sector_serial b (geometry fs) sector) fs)
          ((flash-Triple _ (λ c. serial_was_read (geometry fs) sector)).at fs h);
  }
