-- ===== src/Metadata/Deleted.antt =====
-- The record that a deletion gives was the live one of the slot, and is not live any more.
use fastffs.Prelude.{
  ℕ, zero, suc, ◌+◌, ◌-◌, ◌*◌, ◌<◌, ◌≡◌, ◌⊎◌, inl, inr, refl, ap, ◌∙◌, arith, List, [], ◌∷◌, Option,
  some, none, bit_and, ltb_ge, Bool, true, false, not, ◌&&◌, ◌||◌, ◌==◌, if◌then◌else◌,
}
use fastffs.Status.{corrupt, Result, ok, err, Action, pure, fail, ◌>>=◌, ◌>>◌}
use fastffs.Lifecycle.{lifecycle_is_live, is_mixed, is_cleared, lifecycle_tombstoned}
use fastffs.Lifecycle.Torn.{live_state, tombstoned_dead}
use fastffs.Flash.{Backend, program_aligned}
use fastffs.Flash.Nor.{IsNor, overlay}
use fastffs.Flash.Aligned.{program_aligned_lem}
use fastffs.Flash.Ends.{program_aligned-IsDone}
use fastffs.Sector.{Geometry, footer_size, sector_type_file, SectorFooter, decode_sector_footer}
use fastffs.Settled.{Settled, Settled-weaken, Runs, Runs-pure, Runs-fail, Runs-if, Runs-bind}
use fastffs.Metadata.{
  WalkResult, walk_record, end_erased, end_claimed_data, end_invalid, MdRecord, Walking, view,
  md_walk_next,
}
use fastffs.Metadata.Find.{valid_data_sector, no_walk, md_window, run_walk, start_walk}
use fastffs.Metadata.Step.{AfterStep, md_walk_next-Settled, view-Runs}
use fastffs.Metadata.Ends.{start_walk-Runs}
use fastffs.Metadata.Records.{Each, next-known, AreRecords, IsFooterOf, AreRecordsOf}
use fastffs.Metadata.Window.{on_ctx}
use fastffs.Metadata.Tombstone.{
  deleted_record, delete_record, delete_under, delete_in_sector, tombstone_metadata_for_slot,
}

-- The live record of a slot.
abbrev pub IsLiveOf : ℕ → MdRecord → Type 0
IsLiveOf slot r = (r.live ≡ true) × (r.slot ≡ slot)

-- A live record of the slot, whose state byte is not live now.
abbrev pub IsTombstoned :
    {Ctx : Type 0} → (Ctx → ℕ → ℕ) → Geometry → ℕ → ℕ → MdRecord → Ctx → Type 0
IsTombstoned cell g sector slot r c =
    IsLiveOf slot r × (live_state (cell c (sector * g.sector_size + r.record_start)) ≡ false)

module _ {Ctx : Type 0} (b : Backend Ctx) (cell : Ctx → ℕ → ℕ) (g : Geometry)
    (sector slot : ℕ) where
  -- From the walk on: none where none of all its records is the live one of the slot.
  abbrev IsGone : Walking Ctx → Option MdRecord → Walking Ctx → Type 0
  IsGone w (some r) w' = IsTombstoned cell g sector slot r w'.ctx
  IsGone w none w' = (rs : List MdRecord) × AreRecords b g w rs × Each (λ r. ¬ IsLiveOf slot r) rs

  -- What the footer says there is to delete: nothing where it is erased or deleted.
  abbrev HasNone : Walking Ctx → SectorFooter → Type 0
  HasNone w footer =
      (footer.erased ≡ true)
      ⊎ ((is_cleared footer.tombstone_bits ≡ true)
          ⊎ ((rs : List MdRecord) × AreRecordsOf b g sector w rs
              × Each (λ r. ¬ IsLiveOf slot r) rs))

  -- A record was deleted, or the sector, as it is read where the flash is in the state `c`, has none
  -- to delete.
  abbrev pub IsDeleted : Ctx → Option MdRecord → Ctx → Type 0
  IsDeleted c (some r) c' = IsTombstoned cell g sector slot r c'
  IsDeleted c none c' =
      (footer : SectorFooter) × (w : Walking Ctx) × IsFooterOf b g sector c footer w
      × HasNone w footer

  -- A record that is not the one to delete was passed.
  passed-IsGone :
      (r : MdRecord) (w w' : Walking Ctx)
      → md_walk_next b g w ≡ (ok (r, walk_record), w')
      → (not r.live || not (r.slot == slot)) ≡ true
      → (o : Option MdRecord) (s : Walking Ctx) → IsGone w' o s
      → IsGone w o s
  passed-IsGone r w w' same other (some r') s h = h
  passed-IsGone r w w' same other none s (rs, all, none_live) =
      (r ∷ rs, (w', same, all), ((λ h. absurd (ground (arith, other, h))), none_live))

module _ {Ctx : Type 0} {b : Backend Ctx} {cell : Ctx → ℕ → ℕ} (nor : IsNor b cell)
    (pos : 0 < b.program_granule) (g : Geometry) (sector want_slot : ℕ) where
  abbrev Gone : Walking Ctx → Option MdRecord → Walking Ctx → Type 0
  Gone = IsGone b cell g sector want_slot

  tombstone-Runs :
      (off : ℕ)
      → Runs
          (λ (w : Walking Ctx). Unit {0})
          (on_ctx (program_aligned b off (lifecycle_tombstoned ∷ [])))
          (λ x w. live_state (cell w.ctx off) ≡ false)
  unfolding on_ctx
  tombstone-Runs off = record {
    at = λ w h.
        out w _ (program_aligned-IsDone b off (lifecycle_tombstoned ∷ []) w.ctx)
          ((program_aligned_lem b nor off (lifecycle_tombstoned ∷ []) w.ctx pos).1);
  }
    where
      out :
          (w : Walking Ctx) (x : Result (Unit {0}) × Ctx)
          → Settled (λ y c. Unit {0}) x
          → (x.0 ≡ ok tt
              → (i : ℕ)
              → cell x.1 i ≡ bit_and (cell w.ctx i) (overlay off (lifecycle_tombstoned ∷ []) i))
          → Settled (λ y w. live_state (cell w.ctx off) ≡ false) (x.0, record w { ctx = x.1 })
      out w (ok tt, c) ends cells =
          ap live_state (cells refl off ∙ ap (bit_and (cell w.ctx off)) (at off))
          ∙ tombstoned_dead (cell w.ctx off) (nor.is_byte w.ctx off)
        where
          at : (off : ℕ) → overlay off (lifecycle_tombstoned ∷ []) off ≡ lifecycle_tombstoned
          at off = rw (ltb_ge off off (omega arith), none off) refl
            where
              none : (x : ℕ) → x - x ≡ 0
              none x = omega arith
      out w (err e, c) ends cells = ends

  deleted_record-Settled :
      (fuel : ℕ) (rest : Action (Walking Ctx) (Option MdRecord))
      → ((w : Walking Ctx) → w.walk.cursor < fuel → Settled (Gone w) (rest w))
      → (w : Walking Ctx) → w.walk.cursor < suc fuel
      → (x : MdRecord × WalkResult) (w' : Walking Ctx) → AfterStep g w.walk x w'
      → md_walk_next b g w ≡ (ok x, w')
      → Settled (Gone w) (deleted_record b g sector want_slot rest x w')
  unfolding deleted_record
  deleted_record-Settled fuel rest later w enough (r, walk_record) w' after same =
      (Runs-if {P = λ v. v ≡ w'} (not r.live || not (r.slot == want_slot))
          (λ e. record {
            at = λ v here.
                Settled-weaken (Gone v) (Gone w) (rest v)
                  (later v (rw here (omega (arith, after.0, after.3))))
                  (passed-IsGone b cell g sector want_slot r w v (rw here same) e);
          })
          (λ e. record {
            at = λ v here.
                (Runs-bind (tombstone-Runs (sector * g.sector_size + r.record_start))
                    (λ x. Runs-pure (some r) (λ s h. ((ground arith, ground arith), h)))).at
                  v tt;
          })).at
        w' refl
  deleted_record-Settled fuel rest later w enough (r, end_erased) w' after same =
      ([], inr (r, end_erased, w', same, tt), tt)
  deleted_record-Settled fuel rest later w enough (r, end_claimed_data) w' after same =
      ([], inr (r, end_claimed_data, w', same, tt), tt)
  deleted_record-Settled fuel rest later w enough (r, end_invalid) w' after same = tt

  delete_record-Settled :
      (fuel : ℕ) (w : Walking Ctx)
      → w.walk.cursor < fuel
      → Settled (Gone w) (delete_record b g fuel sector want_slot w)
  unfolding delete_record
  delete_record-Settled zero w h = absurd (omega arith)
  delete_record-Settled (suc fuel) w h =
      either (delete_record b g fuel sector want_slot) (delete_record-Settled fuel) w.walk.active
        refl
    where
      either :
          (rest : Action (Walking Ctx) (Option MdRecord))
          → ((w : Walking Ctx) → w.walk.cursor < fuel → Settled (Gone w) (rest w))
          → (active : Bool) → w.walk.active ≡ active
          → Settled (Gone w) (
              (if not active
                  then pure none
                  else (md_walk_next b g >>= deleted_record b g sector want_slot rest))
                w)
      either rest later false e = ([], inl e, tt)
      either rest later true e =
          next-known (AfterStep g w.walk) (Gone w) (md_walk_next b g w)
            (deleted_record b g sector want_slot rest) (md_walk_next-Settled b g w)
            (deleted_record-Settled fuel rest later w h)

  -- From where the footer has been read.
  abbrev Under : SectorFooter → Walking Ctx → Option MdRecord → Walking Ctx → Type 0
  Under footer w (some r) w' = IsTombstoned cell g sector want_slot r w'.ctx
  Under footer w none w' = HasNone b cell g sector want_slot w footer

  from_start :
      (footer : SectorFooter) (w w' : Walking Ctx)
      → start_walk g sector w ≡ (ok tt, w')
      → (o : Option MdRecord) (s : Walking Ctx) → Gone w' o s
      → Under footer w o s
  from_start footer w w' same (some r) s h = h
  from_start footer w w' same none s (rs, all, none_live) =
      inr (inr (rs, (w', same, all), none_live))

  delete_under-Settled :
      (footer : SectorFooter) (w : Walking Ctx)
      → Settled (Under footer w) (delete_under b g sector want_slot footer w)
  unfolding delete_under
  delete_under-Settled footer w =
      (Runs-if {P = λ v. v ≡ w} footer.erased (λ e. Runs-pure none (λ s h. inl e))
          (λ e.
            Runs-if (not (footer.type == sector_type_file) || not footer.magic_valid)
              (λ e. Runs-fail corrupt tt)
              (λ e.
                Runs-if (not (is_mixed footer.valid_bits) && is_cleared footer.tombstone_bits)
                  (λ e. Runs-pure none (λ s h. inr (inl (ground arith))))
                  (λ e.
                    Runs-if (not (lifecycle_is_live footer.valid_bits footer.tombstone_bits))
                      (λ e. Runs-fail corrupt tt)
                      (λ e. record { at = λ v here. rw here walked_under }))))).at
        w refl
    where
      walked_under :
          Settled
            (Under footer w)
            ((start_walk g sector >> delete_record b g (suc g.sector_size) sector want_slot) w)
      walked_under =
          next-known
            (λ x w'.
              (w'.walk.walk_sector ≡ sector) × (w'.walk.cursor ≡ g.sector_size - footer_size))
            (Under footer w) (start_walk g sector w)
            (λ x. delete_record b g (suc g.sector_size) sector want_slot)
            ((start_walk-Runs g sector).at w tt)
            (λ x w' h same.
              Settled-weaken (Gone w') (Under footer w)
                (delete_record b g (suc g.sector_size) sector want_slot w')
                (delete_record-Settled (suc g.sector_size) w' (omega (arith, h.1)))
                (from_start footer w w' same))

  -- On NOR flash with a granule, deleting the record of a slot in a sector comes to an end whatever
  -- the flash holds and whichever call fails. If it succeeds with a record, then that one was live
  -- and of the slot, and the state byte at its place on the flash is not that of a live record any
  -- more. If it succeeds without one, then the footer that was read is erased or deleted, or none
  -- of all the records that the walk reads behind it is live and of the slot.
  pub tombstone_metadata_for_slot-IsDeleted :
      (c : Ctx)
      → Settled
          (IsDeleted b cell g sector want_slot c)
          (tombstone_metadata_for_slot b g sector want_slot c)
  unfolding tombstone_metadata_for_slot delete_in_sector run_walk
  tombstone_metadata_for_slot-IsDeleted c = either (not (valid_data_sector g sector))
    where
      first : Walking Ctx
      first = record { walk = no_walk; window = md_window; ctx = c }

      read :
          (bytes : List ℕ) (w : Walking Ctx)
          → view b g sector (g.sector_size - footer_size) footer_size first ≡ (ok bytes, w)
          → (o : Option MdRecord) (s : Walking Ctx) → Under (decode_sector_footer bytes) w o s
          → IsDeleted b cell g sector want_slot c o s.ctx
      read bytes w same (some r) s h = h
      read bytes w same none s h = (decode_sector_footer bytes, w, (bytes, same, refl), h)

      searched :
          Settled
            (λ o s. IsDeleted b cell g sector want_slot c o s.ctx)
            (delete_in_sector b g sector want_slot first)
      searched =
          next-known (λ x s. Unit {0}) (λ o s. IsDeleted b cell g sector want_slot c o s.ctx)
            (view b g sector (g.sector_size - footer_size) footer_size first) _
            ((view-Runs b g sector (g.sector_size - footer_size) footer_size (λ w reader c h. h)).at
              first tt)
            (λ bytes w h same.
              Settled-weaken (Under (decode_sector_footer bytes) w)
                (λ o s. IsDeleted b cell g sector want_slot c o s.ctx)
                (delete_under b g sector want_slot (decode_sector_footer bytes) w)
                (delete_under-Settled (decode_sector_footer bytes) w) (read bytes w same))

      out :
          (x : Result (Option MdRecord) × Walking Ctx)
          → Settled (λ o s. IsDeleted b cell g sector want_slot c o s.ctx) x
          → Settled (IsDeleted b cell g sector want_slot c) (x.0, x.1.ctx)
      out (ok o, s) h = h
      out (err e, s) h = h

      either :
          (refused : Bool)
          → Settled (IsDeleted b cell g sector want_slot c) (
              (if refused then fail corrupt else run_walk (delete_in_sector b g sector want_slot))
                c)
      either true = tt
      either false = out _ searched
