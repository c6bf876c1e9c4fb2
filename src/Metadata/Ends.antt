-- ===== src/Metadata/Ends.antt =====
-- The search for the record of a slot in a data sector.
use fastffs.Prelude.{
  ℕ, zero, suc, ◌+◌, ◌-◌, ◌≤◌, ◌<◌, ◌≡◌, refl, ◌∙◌, subst, arith, Bool, true, false, not, ◌||◌, ltb,
  leb, if◌then◌else◌,
}
use fastffs.Status.{invalid, corrupt, Result, ok, err, Action, pure, fail, ◌>>=◌}
use fastffs.Flash.{Backend}
use fastffs.Sector.{Geometry, footer_size, md_file_record_size, decode_sector_footer, SectorReader}
use fastffs.Settled.{Ends, Settled, next-Settled, Runs, Runs-fail, Runs-if, Runs-bind, Runs-weaken}
use fastffs.Metadata.{
  WalkResult, walk_record, end_erased, end_claimed_data, end_invalid, MdRecord, MdWalk, Walking,
  md_walk_next, md_walk_init,
}
use fastffs.Metadata.Find.{
  SlotMatch, match_live, match_uncommitted, md_record_matches_slot, missing, valid_data_sector,
  run_walk, live_file_sector, started, start_walk, found_record, find_record, search_sector,
  read_md_for_slot,
}
use fastffs.Metadata.Step.{IsExtent, AfterStep, md_walk_next-Settled, view-Runs}

missing-Ends : (kind : SlotMatch) → Ends (missing kind)
unfolding missing
missing-Ends match_live = tt
missing-Ends match_uncommitted = tt

-- The record that the search is for, within the sector.
abbrev pub IsFound : Geometry → ℕ → ℕ → SlotMatch → MdRecord → Type 0
IsFound g sector want_slot kind r =
    (md_record_matches_slot r want_slot kind ≡ true)
    × (footer_size ≤ r.record_start)
    × (r.record_start + md_file_record_size + footer_size ≤ g.sector_size)
    × IsExtent g sector r

module _ {Ctx : Type 0} (g : Geometry) (sector : ℕ) where
  -- The walk starts under the footer.
  pub start_walk-Runs :
      Runs
        (λ (w : Walking Ctx). Unit {0})
        (start_walk g sector)
        (λ x w. (w.walk.walk_sector ≡ sector) × (w.walk.cursor ≡ g.sector_size - footer_size))
  unfolding start_walk started md_walk_init
  start_walk-Runs = record {
    at = λ w h.
        init w
          (ltb w.window.capacity (md_file_record_size + footer_size)
            || ltb sector g.index_sectors
            || leb g.sector_count sector)
          _;
  }
    where
      init :
          (w : Walking Ctx) (refused : Bool) (window : SectorReader)
          → Settled
              (λ (x : Unit {0}) (w : Walking Ctx).
                (w.walk.walk_sector ≡ sector) × (w.walk.cursor ≡ g.sector_size - footer_size))
              (started
                (if refused
                  then err invalid
                  else ok (
                    record {
                      cursor = g.sector_size - footer_size;
                      claimed_data_end = 0;
                      walk_sector = sector;
                      active = true;
                    },
                    window,
                  ))
                w)
      init w true window = tt
      init w false window = (refl, refl)

pub run_walk-Settled :
    {Ctx A : Type 0} (Q : A → Ctx → Type 0) (m : Action (Walking Ctx) A) (c : Ctx)
    → Runs (λ w. Unit {0}) m (λ a w. Q a w.ctx)
    → Settled Q (run_walk m c)
unfolding run_walk
run_walk-Settled {Ctx} {A} Q m c h = out (m _) (h.at _ tt)
  where
    out : (x : Result A × Walking Ctx) → Settled (λ a w. Q a w.ctx) x → Settled Q (x.0, x.1.ctx)
    out (ok a, w) k = k
    out (err e, w) k = k

module _ {Ctx : Type 0} (b : Backend Ctx) (g : Geometry) (sector want_slot : ℕ)
    (kind : SlotMatch) where
  -- The walk is in the sector, and `fuel` rounds are enough for it.
  abbrev Within : ℕ → Walking Ctx → Type 0
  Within fuel w =
      (w.walk.walk_sector ≡ sector)
      × (w.walk.cursor + footer_size ≤ g.sector_size)
      × (w.walk.cursor < fuel)

  found_record-Settled :
      (fuel : ℕ) (rest : Action (Walking Ctx) MdRecord)
      → Runs (Within fuel) rest (λ r w. IsFound g sector want_slot kind r)
      → (walk : MdWalk) → walk.walk_sector ≡ sector
      → walk.cursor + footer_size ≤ g.sector_size
      → walk.cursor < suc fuel
      → (x : MdRecord × WalkResult) (w : Walking Ctx) → AfterStep g walk x w
      → Settled (λ r w. IsFound g sector want_slot kind r) (found_record want_slot kind rest x w)
  unfolding found_record
  found_record-Settled fuel rest later walk here inside enough (r, walk_record) w
        (below, above, extent, at, same, more, claimed, active) =
      (Runs-if {P = λ s. s ≡ w} (md_record_matches_slot r want_slot kind) {m = pure r} {n = rest}
          (λ e. record {
            at = λ s h. (e, above, omega arith, subst (λ x. IsExtent g x r) here extent);
          })
          (λ e. record {
            at = λ s h. later.at s (rw h (same ∙ here, omega arith, omega arith));
          })).at
        w refl
  found_record-Settled fuel rest later walk here inside enough (r, end_erased) w h = tt
  found_record-Settled fuel rest later walk here inside enough (r, end_claimed_data) w h = tt
  found_record-Settled fuel rest later walk here inside enough (r, end_invalid) w h = tt

  find_record-Runs :
      (fuel : ℕ)
      → Runs
          (Within fuel)
          (find_record b g fuel want_slot kind)
          (λ r w. IsFound g sector want_slot kind r)
  unfolding find_record
  find_record-Runs zero = record { at = λ w h. absurd (omega (arith, h.2)) }
  find_record-Runs (suc fuel) = record {
    at = λ w h.
        either w h (find_record b g fuel want_slot kind) (find_record-Runs fuel)
          (not w.walk.active);
  }
    where
      either :
          (w : Walking Ctx)
          → Within (suc fuel) w
          → (rest : Action (Walking Ctx) MdRecord)
          → Runs (Within fuel) rest (λ r w. IsFound g sector want_slot kind r)
          → (over : Bool)
          → Settled
              (λ r w. IsFound g sector want_slot kind r)
              ((if over
                  then fail (missing kind)
                  else (md_walk_next b g >>= found_record want_slot kind rest))
                w)
      either w h rest later true = missing-Ends kind
      either w (here, inside, enough) rest later false =
          next-Settled (AfterStep g w.walk) (λ r w. IsFound g sector want_slot kind r)
            (md_walk_next b g w) (found_record want_slot kind rest) (md_walk_next-Settled b g w)
            (found_record-Settled fuel rest later w.walk here inside enough)

  -- Where a sector has room for a footer, the search for a slot's record in a sector comes to an
  -- end whatever is on the flash and whichever read fails. The record that it finds is one of the
  -- slot, live or uncommitted as asked, stands between the lowest place and the footer, and has
  -- its data below it and, where it is committed, an extent in the volume.
  pub read_md_for_slot-Settled :
      (c : Ctx)
      → footer_size ≤ g.sector_size
      → Settled
          (λ r c'. IsFound g sector want_slot kind r)
          (read_md_for_slot b g sector want_slot kind c)
  unfolding read_md_for_slot search_sector
  read_md_for_slot-Settled c whole = either (not (valid_data_sector g sector))
    where
      searched :
          Runs
            (λ w. Unit {0})
            (search_sector b g sector want_slot kind)
            (λ r w. IsFound g sector want_slot kind r)
      searched =
          Runs-bind
            (view-Runs b g sector (g.sector_size - footer_size) footer_size (λ w reader c h. h))
            (λ bytes.
              Runs-if (not (live_file_sector (decode_sector_footer bytes)))
                (λ other. Runs-fail (missing kind) (missing-Ends kind))
                (λ live.
                  Runs-bind
                    (Runs-weaken (start_walk-Runs g sector)
                      (λ x w h. (h.0, omega (arith, h.1), omega (arith, h.1))))
                    (λ x. find_record-Runs (suc g.sector_size))))

      either :
          (refused : Bool)
          → Settled
              (λ r c'. IsFound g sector want_slot kind r)
              ((if refused
                  then fail corrupt
                  else run_walk (search_sector b g sector want_slot kind))
                c)
      either true = tt
      either false = run_walk-Settled (λ r c'. IsFound g sector want_slot kind r) _ c searched
