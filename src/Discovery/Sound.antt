-- ===== src/Discovery/Sound.antt =====
-- What a mount takes for a journal is one, whatever the flash holds.
use fastffs.Prelude.{
  ℕ, zero, suc, ◌+◌, ◌*◌, ◌/◌, ◌%◌, ◌≤◌, ◌<◌, ◌≡◌, refl, arith, List, Option, some, none, Bool,
  true, false, not, ◌||◌, ◌!=◌, ltb, if◌then◌else◌,
}
use fastffs.Status.{corrupt, Result, ok, err, Action, pure, fail, ◌>>=◌}
use fastffs.Flash.{Backend}
use fastffs.IndexHeader.{Header, valid_index_header, header_size}
use fastffs.Triple.{Outcome, Triple, Triple-pure, Triple-fail, Triple-if, Triple-bind}
use fastffs.Discovery.{
  IndexSequence, Scan, scan_start, scan_header, scan_sectors, finish_scan, find_oldest_index_sector,
  lock_geometry, try_sector, find_from, find_index_sequence, discovery_probe_shift,
  shifted_sector_size,
}
use fastffs.Discovery.Ranges.{
  HeaderInRange, IfSome, valid_index_header-InRange, BestInRange, scan_header-InRange, IsWalk,
  find_oldest_index_sector-IsWalk,
}

module _ {Ctx : Type 0} (b : Backend Ctx) where
  -- A sequence of index sectors in the ring of an index area that the flash has room for.
  abbrev pub IsSequence : IndexSequence → Type 0
  IsSequence s =
      (2 ≤ s.index_sectors)
      × (s.index_sectors ≤ 15)
      × (s.sector_shift ≤ 15)
      × (b.size % shifted_sector_size s.sector_shift ≡ 0)
      × (s.index_sectors ≤ b.size / shifted_sector_size s.sector_shift)
      × (s.active_serial < 16)
      × IsWalk s.index_sectors s.active_sector (s.oldest_sector, s.count)

  finish_scan-IsSequence :
      (locked : Header) (st : Scan)
      → HeaderInRange locked
      → b.size % shifted_sector_size locked.sector_shift ≡ 0
      → locked.index_sectors ≤ b.size / shifted_sector_size locked.sector_shift
      → BestInRange locked.index_sectors st.best
      → IfSome IsSequence (finish_scan b locked st)
  unfolding finish_scan
  finish_scan-IsSequence locked st (two, few, shift, serial) whole room known =
      by_found st.best.found st.conflict (λ e. known e)
    where
      by_found :
          (found conflict : Bool)
          → (found ≡ true → (st.best.active < locked.index_sectors) × (st.best.serial < 16))
          → IfSome IsSequence (
              if conflict || not found
              then none
              else some (record {
                index_sectors = locked.index_sectors;
                sector_shift = locked.sector_shift;
                active_serial = st.best.serial;
                active_sector = st.best.active;
                oldest_sector =
                    (find_oldest_index_sector st.valid st.serials locked.index_sectors
                      st.best.active st.best.serial).0;
                count =
                    (find_oldest_index_sector st.valid st.serials locked.index_sectors
                      st.best.active st.best.serial).1;
              }))
      by_found false true k = tt
      by_found false false k = tt
      by_found true true k = tt
      by_found true false k =
          let walk =
            find_oldest_index_sector-IsWalk st.valid st.serials locked.index_sectors st.best.active
              st.best.serial (k refl).0 in
          (two, few, shift, whole, room, (k refl).1, walk)

  -- The flash may hold anything, before and after.
  abbrev Gives : {A : Type 0} → Action Ctx A → (A → Type 0) → Type 0
  Gives m Q = Triple (λ c. Unit {0}) m (λ a c. Q a) (λ c. Unit {0})

  any-Gives : {A : Type 0} (m : Action Ctx A) → Gives m (λ _. Unit {0})
  any-Gives m = record { at = λ c h. ends (m c) }
    where
      ends : {A : Type 0} (r : Result A × Ctx) → Outcome (λ _ _. Unit {0}) (λ _. Unit {0}) r
      ends (ok a, c) = tt
      ends (err e, c) = tt

  scan_sectors-Gives :
      (locked : Header) (size off : ℕ) (found : List ℕ) (left i : ℕ) (st : Scan)
      → BestInRange locked.index_sectors st.best
      → Gives
          (scan_sectors b locked size off found left i st)
          (λ st'. BestInRange locked.index_sectors st'.best)
  unfolding scan_sectors
  scan_sectors-Gives locked size off found zero i st known = Triple-pure st (λ c h. known)
  scan_sectors-Gives locked size off found (suc left) i st known =
      Triple-bind {Q = λ _ _. Unit {0}} (any-Gives _) (λ hdr.
        let out = scan_header locked i (i * size) hdr st in
        let known' = scan_header-InRange locked i (i * size) hdr st known in
        Triple-if out.1 (λ e. scan_sectors-Gives locked size off found left (i + 1) out.0 known')
          (λ e. Triple-pure out.0 (λ c h. known')))

  lock_geometry-Gives :
      (shift off : ℕ) (hdr : List ℕ) (o : Option Header)
      → IfSome HeaderInRange o
      → Gives (lock_geometry b shift off hdr o) (IfSome IsSequence)
  unfolding lock_geometry
  lock_geometry-Gives shift off hdr none k = Triple-pure none (λ c h. tt)
  lock_geometry-Gives shift off hdr (some locked) k =
      Triple-if
        (locked.sector_shift != shift
          || b.size % shifted_sector_size shift != 0
          || ltb (b.size / shifted_sector_size shift) locked.index_sectors)
        (λ e. Triple-pure none (λ c h. tt))
        (λ e.
          Triple-bind
            (scan_sectors-Gives locked (shifted_sector_size shift) off hdr locked.index_sectors 0
              scan_start (λ found. absurd (differ found)))
            (λ st. record {
              at = λ c known.
                  finish_scan-IsSequence locked st k (fits locked e).0 (fits locked e).1 known;
            }))
    where
      differ : false ≡ true → ⊥
      differ e = ground arith

      same_shift :
          (locked : Header)
          → (locked.sector_shift != shift
              || b.size % shifted_sector_size shift != 0
              || ltb (b.size / shifted_sector_size shift) locked.index_sectors)
            ≡ false
          → (locked.sector_shift ≡ shift)
            × (b.size % shifted_sector_size shift ≡ 0)
            × (locked.index_sectors ≤ b.size / shifted_sector_size shift)
      same_shift locked e = (ground arith, ground arith, ground arith)

      fits :
          (locked : Header)
          → (locked.sector_shift != shift
              || b.size % shifted_sector_size shift != 0
              || ltb (b.size / shifted_sector_size shift) locked.index_sectors)
            ≡ false
          → (b.size % shifted_sector_size locked.sector_shift ≡ 0)
            × (locked.index_sectors ≤ b.size / shifted_sector_size locked.sector_shift)
      fits locked e = let known = same_shift locked e in rw (known.0) (known.1, known.2)

  try_sector-Gives : (shift sector : ℕ) → Gives (try_sector b shift sector) (IfSome IsSequence)
  unfolding try_sector
  try_sector-Gives shift sector =
      Triple-if (ltb b.size (sector * shifted_sector_size shift + header_size))
        (λ e. Triple-pure none (λ c h. tt))
        (λ e. Triple-bind {Q = λ _ _. Unit {0}} (any-Gives _) (λ hdr.
          lock_geometry-Gives shift (sector * shifted_sector_size shift) hdr
            (valid_index_header hdr) (valid_index_header-InRange hdr)))

  find_from-Gives : (fuel probe : ℕ) → Gives (find_from b fuel probe) IsSequence
  unfolding find_from
  find_from-Gives zero probe = Triple-fail corrupt (λ c h. tt)
  find_from-Gives (suc fuel) probe =
      at_shift (discovery_probe_shift probe) (find_from-Gives fuel (probe + 1))
    where
      by_second :
          {later : Action Ctx IndexSequence} (second : Option IndexSequence)
          → Gives later IsSequence
          → Triple
              (λ c. IfSome IsSequence second)
              (elim second [ some sequence ↦ pure sequence | none ↦ later ])
              (λ s c. IsSequence s)
              (λ c. Unit {0})
      by_second (some sequence) k = Triple-pure sequence (λ c h. h)
      by_second none k = k

      by_first :
          {later : Action Ctx IndexSequence} (shift : ℕ) (first : Option IndexSequence)
          → Gives later IsSequence
          → Triple
              (λ c. IfSome IsSequence first)
              (elim first [
                | some sequence ↦ pure sequence
                | none ↦ try_sector b shift 1 >>= λ second. elim second [
                  | some sequence ↦ pure sequence
                  | none ↦ later
                ]
              ])
              (λ s c. IsSequence s)
              (λ c. Unit {0})
      by_first shift (some sequence) k = Triple-pure sequence (λ c h. h)
      by_first shift none k = Triple-bind (try_sector-Gives shift 1) (λ second. by_second second k)

      at_shift :
          {later : Action Ctx IndexSequence} (o : Option ℕ)
          → Gives later IsSequence
          → Gives
              (elim o [
                | none ↦ fail corrupt
                | some shift ↦
                    if b.size % shifted_sector_size shift != 0
                    then later
                    else (try_sector b shift 0 >>= λ first. elim first [
                      | some sequence ↦ pure sequence
                      | none ↦ try_sector b shift 1 >>= λ second. elim second [
                        | some sequence ↦ pure sequence
                        | none ↦ later
                      ]
                    ])
              ])
              IsSequence
      at_shift none k = Triple-fail corrupt (λ c h. tt)
      at_shift (some shift) k =
          Triple-if (b.size % shifted_sector_size shift != 0) (λ e. k)
            (λ e. Triple-bind (try_sector-Gives shift 0) (λ first. by_first shift first k))

  -- Whatever the flash holds and wherever a read of it fails, the index sequence that is found, if
  -- any is, runs from its oldest to its active sector in the ring of an index area of 2 to 15
  -- sectors, inside a flash whose size is a multiple of the sector size, and its serial is below
  -- 16.
  pub find_index_sequence-Outcome :
      (c : Ctx) → Outcome (λ s _. IsSequence s) (λ _. Unit {0}) (find_index_sequence b c)
  unfolding find_index_sequence
  find_index_sequence-Outcome c = (find_from-Gives 17 0).at c tt
