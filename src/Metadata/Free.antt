-- ===== src/Metadata/Free.antt =====
-- The free window of a data sector holds nothing, and does not touch a record or the footer.
use fastffs.Prelude.{
  ℕ, zero, suc, ◌+◌, ◌-◌, ◌*◌, ◌%◌, ◌^◌, ◌≤◌, ◌<◌, ◌≡◌, inl, inr, refl, ap, ◌∙◌, arith, List, [],
  ◌∷◌, Bool, true, false, not, ◌&&◌, ◌||◌, ◌==◌, ltb, leb, if◌then◌else◌,
}
use fastffs.Status.{invalid, no_space, Result, ok, err, Action, pure, fail, ◌>>=◌, ◌>>◌}
use fastffs.Bytes.{u16}
use fastffs.Lifecycle.{lifecycle_is_live, is_cleared}
use fastffs.Flash.{Backend}
use fastffs.Flash.Nor.{IsNor}
use fastffs.Sector.{
  Geometry, footer_size, md_file_record_size, sector_type_file, SectorFooter, decode_sector_footer,
}
use fastffs.Settled.{
  Settled, next-Settled, Settled-weaken, Runs, Runs-pure, Runs-fail, Runs-if, Runs-bind,
}
use fastffs.Metadata.{
  md_type_file_cont, WalkResult, walk_record, end_erased, end_claimed_data, end_invalid, MdRecord,
  Walking, view, md_walk_next,
}
use fastffs.Metadata.Find.{no_walk, md_window, run_walk, start_walk}
use fastffs.Metadata.Step.{AfterStep, md_walk_next-Settled, view-Runs}
use fastffs.Metadata.Ends.{start_walk-Runs}
use fastffs.Metadata.Records.{Each, next-known, AreRecords, IsFooterOf, AreRecordsOf}
use fastffs.Metadata.Erased.{AreErased, span_is_erased_from-Runs}
use fastffs.Metadata.Window.{
  FreeWindow, Scanned, minus, with_record, quietly, on_ctx, flash_span_is_erased, scanned,
  scan_records, window_at, window_between, blank_window, used_window, window_in_sector,
  find_sector_free_window,
}

-- Erased cells, enough of them, under the place of a record, which is under those of the footer.
abbrev pub IsRoom : (ℕ → ℕ) → Geometry → ℕ → ℕ → FreeWindow → Type 0
IsRoom cells g sector min_free fw =
    (fw.data_off + min_free ≤ fw.record_off)
    × (fw.record_off + md_file_record_size + footer_size ≤ g.sector_size)
    × AreErased cells (sector * g.sector_size + fw.data_off) (fw.record_off - fw.data_off)

-- The place of the record is under the record, and that of the data above its data.
abbrev pub IsBeside : FreeWindow → MdRecord → Type 0
IsBeside fw r =
    (fw.record_off + md_file_record_size ≤ r.record_start) × (r.data_off + r.data_len ≤ fw.data_off)

Each-map :
    {P Q : MdRecord → Type 0} (rs : List MdRecord)
    → ((r : MdRecord) → P r → Q r)
    → Each P rs
    → Each Q rs
Each-map [] f h = tt
Each-map (r ∷ rs) f h = (f r h.0, Each-map rs f h.1)

module _ {Ctx : Type 0} (b : Backend Ctx) (cell : Ctx → ℕ → ℕ) (g : Geometry) (sector : ℕ) where
  -- A sector without a footer is erased; in another, as it is read from the state `c` on, the window
  -- is beside every record.
  abbrev pub IsClear : Ctx → FreeWindow → Ctx → Type 0
  IsClear c fw c' =
      (fw.needs_footer ≡ true → AreErased (cell c') (sector * g.sector_size) g.sector_size)
      × (fw.needs_footer ≡ false
          → (footer : SectorFooter) × (w : Walking Ctx) × (rs : List MdRecord) × IsFooterOf b g
              sector c footer w
            × AreRecordsOf b g sector w rs
            × Each (IsBeside fw) rs)

  abbrev pub IsFree : ℕ → Ctx → FreeWindow → Ctx → Type 0
  IsFree min_free c fw c' = IsRoom (cell c') g sector min_free fw × IsClear c fw c'

module _ {Ctx : Type 0} {b : Backend Ctx} {cell : Ctx → ℕ → ℕ} (nor : IsNor b cell) (g : Geometry)
    (scratch_size sector min_free reject_slot : ℕ) (normal_allocation : Bool)
    (pos : 0 < scratch_size) (whole : g.sector_size % 16 ≡ 0) (some_size : 26 ≤ g.sector_size)
    (small : g.sector_size ≤ 2 ^ 16) where
  -- The records stand at places that are 6 past a multiple of 16.
  abbrev Placed : Scanned → Type 0
  Placed s =
      (s.metadata_start % 16 ≡ 6)
      × (footer_size ≤ s.metadata_start)
      × (s.metadata_start + footer_size ≤ g.sector_size)

  -- The record and its data are counted.
  abbrev IsCounted : Scanned → MdRecord → Type 0
  IsCounted s r = (s.metadata_start ≤ r.record_start) × (r.data_off + r.data_len ≤ s.max_data_end)

  abbrev Scanning : ℕ → Scanned → Walking Ctx → Type 0
  Scanning fuel s w = Placed s × (w.walk.cursor ≡ s.metadata_start) × (w.walk.cursor < fuel)

  full_fails :
      {A : Type 0} {P : Walking Ctx → Type 0} {Q : A → Walking Ctx → Type 0}
      (m : Action (Walking Ctx) (Unit {0}))
      → Runs P (quietly m >> fail no_space) Q
  unfolding quietly
  full_fails m = record { at = λ w h. tt }

  -- All records of the walk were looked at.
  abbrev Seen : Walking Ctx → Scanned → Scanned → Type 0
  Seen w s s' =
      Placed s'
      × (s'.metadata_start ≤ s.metadata_start)
      × (s.max_data_end ≤ s'.max_data_end)
      × ((rs : List MdRecord) × AreRecords b g w rs × Each (IsCounted s') rs)

  passed-Seen :
      (r : MdRecord) (s : Scanned) (w w' : Walking Ctx)
      → md_walk_next b g w ≡ (ok (r, walk_record), w')
      → r.record_start ≤ s.metadata_start
      → (s' : Scanned) (v : Walking Ctx) → Seen w' (with_record r s) s'
      → Seen w s s'
  unfolding with_record
  passed-Seen r s w w' same under s' v (placed, low, high, (rs, all, each)) = (
    placed,
    omega (arith, low, under),
    ground (arith, high),
    (r ∷ rs, (w', same, all), ((low, ground (arith, high)), each)),
  )

  scanned-Settled :
      (fuel : ℕ) (rest : Scanned → Action (Walking Ctx) Scanned)
      → ((s : Scanned) (w : Walking Ctx)
          → Scanning fuel s w
          → Settled (λ s' v. Seen w s s') (rest s w))
      → (s : Scanned) (w : Walking Ctx) → Scanning (suc fuel) s w
      → (x : MdRecord × WalkResult) (w' : Walking Ctx) → AfterStep g w.walk x w'
      → md_walk_next b g w ≡ (ok x, w')
      → Settled
          (λ s' v. Seen w s s')
          (scanned b g scratch_size sector min_free reject_slot normal_allocation rest s x w')
  unfolding scanned with_record
  scanned-Settled fuel rest later s w h (r, walk_record) w' after same =
      (Runs-if {P = λ v. v ≡ w'} (normal_allocation && r.type == md_type_file_cont)
          (λ e. full_fails _)
          (λ e.
            Runs-if (r.live && r.slot == reject_slot) (λ e. Runs-fail no_space tt)
              (λ e. record {
                at = λ v here.
                    Settled-weaken (λ s' x. Seen v (with_record r s) s') (λ s' x. Seen w s s')
                      (rest (with_record r s) v) (later (with_record r s) v (rw here (below s h)))
                      (passed-Seen r s w v (rw here same) (omega (arith, after.0, h.1)));
              }))).at
        w' refl
    where
      below : (s : Scanned) → Scanning (suc fuel) s w → Scanning fuel (with_record r s) w'
      below s h = ground (arith, after.0, after.1, after.3, h)
  scanned-Settled fuel rest later s w h (r, end_erased) w' after same =
      (h.0, omega arith, omega arith, ([], inr (r, end_erased, w', same, tt), tt))
  scanned-Settled fuel rest later s w h (r, end_claimed_data) w' after same =
      (h.0, omega arith, omega arith, ([], inr (r, end_claimed_data, w', same, tt), tt))
  scanned-Settled fuel rest later s w h (r, end_invalid) w' after same = tt

  scan_records-Settled :
      (fuel : ℕ) (s : Scanned) (w : Walking Ctx)
      → Scanning fuel s w
      → Settled
          (λ s' v. Seen w s s')
          (scan_records b g scratch_size sector min_free reject_slot normal_allocation fuel s w)
  unfolding scan_records
  scan_records-Settled zero s w h = absurd (omega (arith, h.2))
  scan_records-Settled (suc fuel) s w h =
      either (scan_records b g scratch_size sector min_free reject_slot normal_allocation fuel)
        (scan_records-Settled fuel) w.walk.active refl
    where
      either :
          (rest : Scanned → Action (Walking Ctx) Scanned)
          → ((s : Scanned) (w : Walking Ctx)
              → Scanning fuel s w
              → Settled (λ s' v. Seen w s s') (rest s w))
          → (active : Bool) → w.walk.active ≡ active
          → Settled
              (λ s' v. Seen w s s')
              ((if not active
                  then pure s
                  else (md_walk_next b g
                      >>= scanned b g scratch_size sector min_free reject_slot normal_allocation
                          rest s))
                w)
      either rest later false e = (h.0, omega arith, omega arith, ([], inl e, tt))
      either rest later true e =
          next-known (AfterStep g w.walk) (λ s' v. Seen w s s') (md_walk_next b g w)
            (scanned b g scratch_size sector min_free reject_slot normal_allocation rest s)
            (md_walk_next-Settled b g w) (scanned-Settled fuel rest later s w h)

  on_ctx-erased :
      (off n : ℕ)
      → Runs
          (λ (w : Walking Ctx). Unit {0})
          (on_ctx (flash_span_is_erased b scratch_size off n))
          (λ x w. AreErased (cell w.ctx) off n)
  unfolding on_ctx flash_span_is_erased
  on_ctx-erased off n = record {
    at = λ w h. out w _ (
        (span_is_erased_from-Runs nor (cell w.ctx) (suc n) scratch_size off n pos (omega arith)).at
          w.ctx refl);
  }
    where
      out :
          (w : Walking Ctx) (x : Result (Unit {0}) × Ctx)
          → Settled (λ y c. AreErased (cell w.ctx) off n × (cell c ≡ cell w.ctx)) x
          → Settled (λ y w. AreErased (cell w.ctx) off n) (x.0, record w { ctx = x.1 })
      out w (ok a, c) h = rw h.1 h.0
      out w (err e, c) h = h

  minus_record :
      (s : Scanned) → Placed s → minus s.metadata_start md_file_record_size ≡ s.metadata_start - 16
  minus_record s h = omega (arith, h)

  -- Room between the data and the records that were counted.
  abbrev IsBetween : Scanned → FreeWindow → Walking Ctx → Type 0
  IsBetween s fw w =
      IsRoom (cell w.ctx) g sector min_free fw
      × (fw.needs_footer ≡ false)
      × (fw.data_off ≡ s.max_data_end)
      × (fw.record_off + 16 ≡ s.metadata_start)

  -- What is returned in 16 bits is not cut off.
  IsBetween-at :
      (s : Scanned) (off : ℕ) (w : Walking Ctx)
      → off + 16 ≡ s.metadata_start
      → off + 26 ≤ g.sector_size
      → s.max_data_end ≤ off
      → min_free ≤ off - s.max_data_end
      → AreErased (cell w.ctx) (sector * g.sector_size + s.max_data_end) (off - s.max_data_end)
      → IsBetween s
          (record {
            data_off = u16 s.max_data_end;
            record_off = u16 off;
            needs_footer = false;
            md_records = u16 s.record_count;
          })
          w
  IsBetween-at s off w under room below enough erased =
      rw (fits s.max_data_end (omega arith), fits off (omega arith))
        ((omega arith, omega arith, erased), refl, refl, under)
    where
      fits : (n : ℕ) → n < 2 ^ 16 → u16 n ≡ n
      fits n lt = omega arith

  window_at-Runs :
      (s : Scanned) (off : ℕ)
      → off + 16 ≡ s.metadata_start
      → off + 26 ≤ g.sector_size
      → Runs
          (λ w. Unit {0})
          (window_at b g scratch_size sector min_free reject_slot normal_allocation s off)
          (IsBetween s)
  unfolding window_at
  window_at-Runs s off under room =
      Runs-if (leb 32 s.record_count) (λ e. full_fails _)
        (λ e.
          Runs-if (ltb off s.max_data_end || ltb (off - s.max_data_end) min_free)
            (λ e. Runs-if normal_allocation (λ e. full_fails _) (λ e. Runs-fail no_space tt))
            (λ e.
              Runs-bind
                (on_ctx-erased (sector * g.sector_size + s.max_data_end) (off - s.max_data_end))
                (λ x.
                  Runs-pure _
                    (λ w h. IsBetween-at s off w under room (ground arith) (ground arith) h))))

  window_between-Runs :
      (s : Scanned)
      → Runs
          (λ w. Placed s)
          (window_between b g scratch_size sector min_free reject_slot normal_allocation s)
          (IsBetween s)
  unfolding window_between
  window_between-Runs s = record {
    at = λ w h.
        (window_at-Runs s (minus s.metadata_start md_file_record_size) (omega (arith, h))
            (omega (arith, h))).at
          w tt;
  }

  -- What a window is, once the footer has been read.
  abbrev Under : Walking Ctx → FreeWindow → Walking Ctx → Type 0
  Under w fw v =
      IsRoom (cell v.ctx) g sector min_free fw
      × (fw.needs_footer ≡ true → AreErased (cell v.ctx) (sector * g.sector_size) g.sector_size)
      × (fw.needs_footer ≡ false
          → (rs : List MdRecord) × AreRecordsOf b g sector w rs × Each (IsBeside fw) rs)

  blank_window-Runs :
      (w : Walking Ctx)
      → Runs
          (λ v. Unit {0})
          (blank_window b g scratch_size sector min_free reject_slot normal_allocation)
          (Under w)
  unfolding blank_window
  blank_window-Runs w = Runs-bind (on_ctx-erased (sector * g.sector_size) g.sector_size) (λ x.
      Runs-if (ltb (g.sector_size - 10) 16 || ltb (g.sector_size - 10 - 16) min_free)
        (λ e. Runs-fail no_space tt)
        (λ e. Runs-pure _ (λ v h. (blank v (ground arith) h, (λ k. h), λ k. absurd (true-ne k)))))
    where
      true-ne : ¬ (true ≡ false)
      true-ne e = absurd (ground arith)

      blank :
          (w : Walking Ctx)
          → min_free ≤ g.sector_size - 26
          → AreErased (cell w.ctx) (sector * g.sector_size) g.sector_size
          → IsRoom (cell w.ctx) g sector min_free (record {
            data_off = 0;
            record_off = u16 (g.sector_size - 10 - 16);
            needs_footer = true;
            md_records = 0;
          })
      blank w enough erased =
          (omega arith, omega arith, λ i lt. ap (cell w.ctx) (omega arith) ∙ erased i (omega arith))

  used_window-Settled :
      (footer : SectorFooter) (w : Walking Ctx)
      → Settled
          (Under w)
          (used_window b g scratch_size sector min_free reject_slot normal_allocation footer w)
  unfolding used_window
  used_window-Settled footer w =
      (Runs-if {P = λ v. v ≡ w}
          (not (footer.type == sector_type_file)
            || not footer.magic_valid
            || not (lifecycle_is_live footer.valid_bits footer.tombstone_bits))
          (λ e. Runs-fail no_space tt)
          (λ e.
            Runs-if (normal_allocation && is_cleared footer.full_bits) (λ e. Runs-fail no_space tt)
              (λ e. record { at = λ v here. rw here walked }))).at
        w refl
    where
      first : Scanned
      first = record {
        max_data_end = 0;
        metadata_start = g.sector_size - footer_size;
        record_count = 0;
      }

      between :
          (w' : Walking Ctx)
          → start_walk g sector w ≡ (ok tt, w')
          → (s : Scanned) → Seen w' first s
          → (fw : FreeWindow) (v : Walking Ctx) → IsBetween s fw v
          → Under w fw v
      between w' same s (placed, low, high, (rs, all, each)) fw v (room, no_footer, start, place) =
          (
            room,
            (λ k. absurd (ground (arith, k, no_footer))),
            λ k. (
              rs,
              (w', same, all),
              Each-map rs (λ r h. (omega (arith, h, place), omega (arith, h, start))) each,
            ),
          )

      walked : Settled (Under w) (
          (start_walk g sector >>= λ x.
          scan_records b g scratch_size sector min_free reject_slot normal_allocation
            (suc g.sector_size)
            first
          >>= window_between b g scratch_size sector min_free reject_slot normal_allocation)
            w)
      walked =
          next-known
            (λ x w'.
              (w'.walk.walk_sector ≡ sector) × (w'.walk.cursor ≡ g.sector_size - footer_size))
            (Under w) (start_walk g sector w) _ ((start_walk-Runs g sector).at w tt)
            (λ x w' h same.
              next-Settled (λ s v. Seen w' first s) (Under w)
                (scan_records b g scratch_size sector min_free reject_slot normal_allocation
                  (suc g.sector_size) first w')
                (window_between b g scratch_size sector min_free reject_slot normal_allocation)
                (scan_records-Settled (suc g.sector_size) first w'
                  ((omega arith, omega arith, omega arith), h.1, omega (arith, h.1)))
                (λ s v seen.
                  Settled-weaken (IsBetween s) (Under w) _ ((window_between-Runs s).at v seen.0)
                    (between w' same s seen)))

  -- On NOR flash, with a scratch buffer that is not empty and sectors of at most 2^16 bytes, which
  -- are a multiple of 16, the search for a free window comes to an end whichever read fails. The
  -- window that it finds has room for the data asked for under the place of a record, which ends
  -- below the footer, and every cell between the start of the data and the record is erased. If the
  -- window wants a footer, then the whole sector is erased. If not, then the place of the record is
  -- under every record that the walk reads behind the footer, and the start of the data is above
  -- the data of each of them.
  pub find_sector_free_window-IsFree :
      (c : Ctx)
      → Settled
          (IsFree b cell g sector min_free c)
          (find_sector_free_window b g scratch_size sector min_free reject_slot normal_allocation c)
  unfolding find_sector_free_window window_in_sector run_walk
  find_sector_free_window-IsFree c =
      either (ltb sector g.index_sectors || leb g.sector_count sector)
    where
      initial : Walking Ctx
      initial = record { walk = no_walk; window = md_window; ctx = c }

      Free : FreeWindow → Walking Ctx → Type 0
      Free fw v = IsFree b cell g sector min_free c fw v.ctx

      read :
          (bytes : List ℕ) (w : Walking Ctx)
          → view b g sector (g.sector_size - footer_size) footer_size initial ≡ (ok bytes, w)
          → (fw : FreeWindow) (v : Walking Ctx) → Under w fw v
          → Free fw v
      read bytes w same fw v (room, blank, used) = (room, (blank, λ k. with_footer (used k)))
        where
          with_footer :
              ((rs : List MdRecord) × AreRecordsOf b g sector w rs × Each (IsBeside fw) rs)
              → (footer : SectorFooter) × (w : Walking Ctx) × (rs : List MdRecord) × IsFooterOf b g
                  sector c footer w
                × AreRecordsOf b g sector w rs
                × Each (IsBeside fw) rs
          with_footer (rs, all, each) =
              (decode_sector_footer bytes, w, rs, (bytes, same, refl), all, each)

      by_footer :
          (footer : SectorFooter) (w : Walking Ctx)
          → Settled (Under w) (
              (if footer.erased
                  then blank_window b g scratch_size sector min_free reject_slot normal_allocation
                  else used_window b g scratch_size sector min_free reject_slot normal_allocation
                      footer)
                w)
      by_footer footer w =
          (Runs-if {P = λ v. v ≡ w} footer.erased
              (λ e. record { at = λ v here. (blank_window-Runs w).at v tt })
              (λ e. record { at = λ v here. rw here (used_window-Settled footer w) })).at
            w refl

      searched :
          Settled Free (
            window_in_sector b g scratch_size sector min_free reject_slot normal_allocation initial)
      searched =
          next-known (λ x v. Unit {0}) Free
            (view b g sector (g.sector_size - footer_size) footer_size initial) _
            ((view-Runs b g sector (g.sector_size - footer_size) footer_size (λ w reader c h. h)).at
              initial tt)
            (λ bytes w h same.
              Settled-weaken (Under w) Free _ (by_footer (decode_sector_footer bytes) w)
                (read bytes w same))

      out :
          (x : Result FreeWindow × Walking Ctx)
          → Settled Free x
          → Settled (IsFree b cell g sector min_free c) (x.0, x.1.ctx)
      out (ok fw, v) h = h
      out (err e, v) h = h

      either :
          (refused : Bool)
          → Settled (IsFree b cell g sector min_free c) (
              (if refused
                  then fail invalid
                  else run_walk (
                      window_in_sector b g scratch_size sector min_free reject_slot
                        normal_allocation))
                c)
      either true = tt
      either false = out _ searched
