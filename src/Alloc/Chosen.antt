-- ===== src/Alloc/Chosen.antt =====
-- Which sector the allocator's search chooses, and the window that its file then has.
use fastffs.Prelude.{
  ℕ, zero, suc, ◌-◌, ◌%◌, ◌^◌, ◌≤◌, ◌<◌, ◌≡◌, refl, sym, ap, ◌∙◌, subst, arith, Option, some, none,
  Bool, true, false, not, ◌&&◌, ◌!=◌, ltb, leb, if◌then◌else◌, length, get_or, get_or-set_self,
  Bool-cases, inl, inr, le→leb, leb_lt,
}
use fastffs.Status.{
  invalid, nomem, range, no_space, not_found, exists, name_too_long, corrupt, io, hang, Result, ok,
  err, Action, pure, gets, modify, ◌>>=◌, ◌>>◌,
}
use native.Mathlib.Decide.{dec_lt}
use fastffs.Flash.{Backend}
use fastffs.Flash.Nor.{IsNor}
use fastffs.Sector.{Geometry}
use fastffs.Fs.{geometry, on_flash}
use fastffs.Settled.{Settled, Runs, Runs-fail, Runs-if, Runs-bind}
use fastffs.AllocMap.Sets.{Covers}
use fastffs.Metadata.Program.{min_usable_free}
use fastffs.Metadata.Window.{FreeWindow, find_sector_free_window}
use fastffs.Metadata.Free.{IsFree, find_sector_free_window-IsFree}
use fastffs.Files.{OpenFile}
use fastffs.Files.Reserve.{reserve_after}
use fastffs.Alloc.{next_data_sector}
use fastffs.Alloc.Once.{
  Volume, file_at, is_passed_by, keep_for_compaction, use_alloc_window, windowed, windowed_file,
  move_cursor, take_sector, window_or_none, window_in, take_window, once_from, first_sector,
  alloc_sector_once, compaction_reserve_sectors, alloc_target_density, no_file,
}
use fastffs.Alloc.Searching.{
  IsChosen, Searching, keep-Searching, InData, next-InData, first-InData, passed-IsChosen,
}

-- The window that a file has.
abbrev pub file_window : OpenFile → FreeWindow
file_window file = record {
  data_off = file.data_offset;
  record_off = file.current_metadata_offset;
  needs_footer = file.current_needs_footer;
  md_records = 0;
}

module _ {Ctx : Type 0} (b : Backend Ctx) (cell : Ctx → ℕ → ℕ) (v0 : Volume Ctx) where
  -- A search for a free window of the sector, from some state of the flash to this one, found it.
  abbrev pub IsFoundWindow : ℕ → FreeWindow → FreeWindow → Ctx → Type 0
  IsFoundWindow sector found fw c' =
      (c : Ctx) × (slot : ℕ) × (find_sector_free_window b (geometry v0.fs) v0.fs.scratch_size sector
          min_usable_free slot true c
        ≡ (ok found, c'))
      × IsFree b cell (geometry v0.fs) sector min_usable_free c fw c'

  -- The sector is one that nothing else in the volume's state uses, and the file has a window there
  -- that is free.
  abbrev pub IsTaken : ℕ → Option ℕ → ℕ → Volume Ctx → Type 0
  IsTaken owner skip sector v =
      IsChosen v0 owner skip sector
      × ((found : FreeWindow) × IsFoundWindow sector found (file_window (file_at v owner)) v.fs.ctx)

module _ {Ctx : Type 0} (sector : ℕ) (fw : FreeWindow) (v : Volume Ctx) where
  move_cursor-files : (move_cursor sector fw v).files ≡ v.files
  unfolding move_cursor
  move_cursor-files = elim (Bool-cases (leb alloc_target_density fw.md_records)) [
    | inl e ↦ rw e refl
    | inr e ↦ rw e refl
  ]

  move_cursor-ctx : (move_cursor sector fw v).fs.ctx ≡ v.fs.ctx
  unfolding move_cursor
  move_cursor-ctx = elim (Bool-cases (leb alloc_target_density fw.md_records)) [
    | inl e ↦ rw e refl
    | inr e ↦ rw e refl
  ]

-- A reservation leaves the window of the file as it is.
windowed_file-place :
    {Ctx : Type 0} (owner sector : ℕ) (fw : FreeWindow) (v : Volume Ctx) (file : OpenFile)
    → ((windowed_file owner sector fw v file).0.data_offset ≡ fw.data_off)
      × ((windowed_file owner sector fw v file).0.current_metadata_offset ≡ fw.record_off)
      × ((windowed_file owner sector fw v file).0.current_needs_footer ≡ fw.needs_footer)
unfolding windowed_file windowed reserve_after
windowed_file-place owner sector fw v file = elim (Bool-cases fw.needs_footer) [
  | inl e ↦ rw e (refl, refl, refl)
  | inr e ↦ rw e (refl, refl, refl)
]

module _ {Ctx : Type 0} {b : Backend Ctx} {cell : Ctx → ℕ → ℕ} (nor : IsNor b cell)
    (v0 : Volume Ctx) (owner : ℕ) (pos : 0 < v0.fs.scratch_size)
    (whole : v0.fs.sector_size % 16 ≡ 0) (some_size : 26 ≤ v0.fs.sector_size)
    (small : v0.fs.sector_size ≤ 2 ^ 16) (listed : owner < length v0.files) where
  abbrev Window : ℕ → Option FreeWindow → Volume Ctx → Type 0
  Window sector none v = Searching v0 owner v
  Window sector (some fw) v = Searching v0 owner v × IsFoundWindow b cell v0 sector fw fw v.fs.ctx

  window_in-Runs :
      (sector : ℕ) → Runs (Searching v0 owner) (window_in b owner sector) (Window sector)
  unfolding window_in window_or_none on_flash
  window_in-Runs sector = record {
    at = λ v h.
        after v h
          (find_sector_free_window b (geometry v.fs) v.fs.scratch_size sector min_usable_free
            (file_at v owner).slot true v.fs.ctx)
          refl
          (find_sector_free_window-IsFree nor (geometry v.fs) v.fs.scratch_size sector
            min_usable_free (file_at v owner).slot true (rw h.buffer pos)
            (subst (λ (g : Geometry). g.sector_size % 16 ≡ 0) (sym h.shape) whole)
            (subst (λ (g : Geometry). 26 ≤ g.sector_size) (sym h.shape) some_size)
            (subst (λ (g : Geometry). g.sector_size ≤ 2 ^ 16) (sym h.shape) small) v.fs.ctx);
  }
    where
      on :
          (v : Volume Ctx) (c : Ctx)
          → Searching v0 owner v
          → Searching v0 owner (record v { fs = record v.fs { ctx = c } })
      on v c h = record {
        shape = h.shape;
        buffer = h.buffer;
        writers = h.writers;
        kept = h.kept;
        marked = h.marked;
        covers = h.covers;
      }

      after :
          (v : Volume Ctx)
          → Searching v0 owner v
          → (r : Result FreeWindow × Ctx)
          → find_sector_free_window b
              (geometry v.fs)
              v.fs.scratch_size
              sector
              min_usable_free
              (file_at v owner).slot
              true
              v.fs.ctx
            ≡ r
          → Settled (IsFree b cell (geometry v.fs) sector min_usable_free v.fs.ctx) r
          → Settled (Window sector) (window_or_none v (r.0, record v.fs { ctx = r.1 }))
      after v h (ok fw, c) same k = (
        on v c h,
        (
          v.fs.ctx,
          (file_at v owner).slot,
          rw (sym h.shape, sym h.buffer) same,
          subst (λ g. IsFree b cell g sector min_usable_free v.fs.ctx fw c) h.shape k,
        ),
      )
      after v h (err no_space, c) same k = on v c h
      after v h (err invalid, c) same k = k
      after v h (err nomem, c) same k = k
      after v h (err range, c) same k = k
      after v h (err not_found, c) same k = k
      after v h (err exists, c) same k = k
      after v h (err name_too_long, c) same k = k
      after v h (err corrupt, c) same k = k
      after v h (err io, c) same k = k
      after v h (err hang, c) same k = k

  take_sector-IsFoundWindow :
      (sector : ℕ) (fw : FreeWindow) (v : Volume Ctx)
      → Window sector (some fw) v
      → IsFoundWindow b cell v0 sector fw
          (file_window (file_at (take_sector owner sector fw v) owner))
          (take_sector owner sector fw v).fs.ctx
  unfolding take_sector use_alloc_window file_at
  take_sector-IsFoundWindow sector fw v h =
      let file' = (windowed_file owner sector fw v (file_at v owner)).0 in
      subst
        (IsFoundWindow b cell v0 sector fw
          (file_window (file_at (take_sector owner sector fw v) owner)))
        (sym (move_cursor-ctx sector fw (use_alloc_window owner sector fw v)))
        (subst (λ file. IsFoundWindow b cell v0 sector fw (file_window file) v.fs.ctx)
          (sym (
            ap (λ files. get_or files owner no_file)
              (move_cursor-files sector fw (use_alloc_window owner sector fw v))
            ∙ get_or-set_self v.files owner file' no_file (rw h.0.writers listed)))
          (let (start, place, footer) = windowed_file-place owner sector fw v (file_at v owner) in
            rw (start, place, footer) h.1))

  take_window-Runs :
      (continuation : Bool) {later : Action (Volume Ctx) ℕ} (skip : Option ℕ) (sector : ℕ)
      (o : Option FreeWindow)
      → IsChosen v0 owner skip sector
      → Runs (Searching v0 owner) later (IsTaken b cell v0 owner skip)
      → Runs
          (Window sector o)
          (take_window b owner continuation later sector o)
          (IsTaken b cell v0 owner skip)
  unfolding take_window
  take_window-Runs continuation {later} skip sector none chosen k = k
  take_window-Runs continuation {later} skip sector (some fw) chosen k =
      Runs-bind
        {m = gets
          (λ (v : Volume Ctx). ltb (length v.compaction_reserve) compaction_reserve_sectors)}
        (record { at = λ v h. h }) by_spare
    where
      kept_back :
          Runs
            (Window sector (some fw))
            (modify (keep_for_compaction sector))
            (λ x. Searching v0 owner)
      kept_back = record { at = λ v h. keep-Searching v0 owner sector v chosen.1 h.0 }

      taken :
          Runs
            (Window sector (some fw))
            (modify (take_sector owner sector fw) >> pure sector)
            (IsTaken b cell v0 owner skip)
      taken = record { at = λ v h. (chosen, (fw, take_sector-IsFoundWindow sector fw v h)) }

      by_spare :
          (spare : Bool)
          → Runs
              (Window sector (some fw))
              (if continuation && not fw.needs_footer
                then later
                else if not continuation && spare
                then (modify (keep_for_compaction sector) >> later)
                else (modify (take_sector owner sector fw) >> pure sector))
              (IsTaken b cell v0 owner skip)
      by_spare spare =
          Runs-if (continuation && not fw.needs_footer) (λ e. record { at = λ v h. k.at v h.0 })
            (λ e.
              Runs-if (not continuation && spare) (λ e'. Runs-bind kept_back (λ x. k))
                (λ e'. taken))

  once_from-Runs :
      (left : ℕ) (continuation : Bool) (skip : Option ℕ) (sector : ℕ)
      → InData v0 owner sector
      → Runs
          (Searching v0 owner)
          (once_from b owner left continuation skip sector)
          (IsTaken b cell v0 owner skip)
  unfolding once_from
  once_from-Runs zero continuation skip sector here = Runs-fail no_space tt
  once_from-Runs (suc left) continuation skip sector here = record {
    at = λ v h.
        (rest (next_data_sector (geometry v.fs) sector) (is_passed_by owner skip sector v)
            (once_from-Runs left continuation skip (next_data_sector (geometry v.fs) sector)
              (next-InData v0 owner v sector h here))
            (passed-IsChosen v0 owner skip sector v here h)).at
          v h;
  }
    where
      rest :
          (next : ℕ) (passed : Bool)
          → Runs
              (Searching v0 owner)
              (once_from b owner left continuation skip next)
              (IsTaken b cell v0 owner skip)
          → (passed ≡ false → IsChosen v0 owner skip sector)
          → Runs
              (Searching v0 owner)
              (if passed
                then once_from b owner left continuation skip next
                else (window_in b owner sector >>= λ found.
                    take_window b owner continuation
                      (once_from b owner left continuation skip next)
                      sector
                      found))
              (IsTaken b cell v0 owner skip)
      rest next passed later chosen =
          Runs-if passed (λ e. later)
            (λ e.
              Runs-bind (window_in-Runs sector)
                (λ found. take_window-Runs continuation skip sector found (chosen e) later))

  -- On NOR flash, with a scratch that is not empty, sectors of at most 2^16 bytes that are a
  -- multiple of 16, and a map that covers the sectors, the search for a sector with room comes to
  -- an end whichever read fails. A sector that it gives is a data sector other than the one to skip,
  -- to which no open writer writes, which no other writer has reserved, and which was neither kept
  -- back for compaction nor marked in the map. A search of this sector has found a free window, and
  -- the file has that window: 128 erased bytes under the place of a record, with the whole sector
  -- erased where it wants a footer, and else beside every record that the search has read there:
  -- the place of the record under it, and the start of the data above its data.
  pub alloc_sector_once-IsTaken :
      (skip : Option ℕ)
      → Covers v0.fs.alloc_map v0.fs.sector_count
      → Settled (IsTaken b cell v0 owner skip) (alloc_sector_once b owner skip v0)
  unfolding alloc_sector_once
  alloc_sector_once-IsTaken skip covers = elim (dec_lt v0.fs.index_sectors v0.fs.sector_count) [
    | yes some_data ↦ rw (leb_lt v0.fs.sector_count v0.fs.index_sectors some_data) (
        (once_from-Runs (v0.fs.sector_count - v0.fs.index_sectors) ((file_at v0 owner).current != 0)
            skip (first_sector v0.fs) (first-InData v0 owner some_data)).at
          v0
          (record {
            shape = refl;
            buffer = refl;
            writers = refl;
            kept = λ s h. h;
            marked = λ s h. h;
            covers = covers;
          }))
    | no none_left ↦ rw (le→leb v0.fs.sector_count v0.fs.index_sectors (omega arith)) tt
  ]
