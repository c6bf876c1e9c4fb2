-- ===== src/Discovery/Sequence.antt =====
-- What a mount finds on a flash that holds a journal.
mod Headers
use native.Mathlib.Decide.{ℕ_discrete}
use native.Mathlib.Nat.{le-div_iff_mul-le, one-le-pow}
use fastffs.Prelude.{
  ℕ, ◌+◌, ◌*◌, ◌-◌, ◌%◌, ◌/◌, ◌≤◌, ◌<◌, ◌≡◌, ◌≢◌, ◌⊎◌, inl, inr, refl, ap, ◌∙◌, arith, Option, some,
  none, true, false, not, ◌||◌, ltb, leb, ◌==◌, ◌!=◌, if◌then◌else◌, ltb_ge, lt→ltb, !=_self,
  Bool-cases, List,
}
use fastffs.Status.{Result, ok, next}
use fastffs.Flash.{Backend, flash_read}
use fastffs.Flash.Nor.{IsNor, IsReliable, span}
use fastffs.Flash.Reads.{flash_read_lem, cell-read}
use fastffs.IndexHeader.{Header, valid_index_header}
use fastffs.Discovery.{
  IndexSequence, Best, Scan, scan_start, scan_sectors, finish_scan, try_sector, lock_geometry,
  shifted_sector_size, find_oldest_index_sector,
}
use fastffs.Discovery.Newest.{
  age, serial_of, best_before, best_at, best_up, best_kept, best_taken, shifted_sector_size-pos,
}
use fastffs.Discovery.Oldest.{sector_of, find_oldest_index_sector-count}
use Headers.{sector_room, IsScanned, IsScanned-IsNoted, start-IsScanned, scan_sectors-IsScanned}

-- The index area holds a journal of `total` sectors: the sectors of age below `count` have headers
-- with the serials in step, and the others have no valid header.
pub record IsJournal (cell : ℕ → ℕ) (size total shift active serial count : ℕ) : Type 0 where
  pub small : total ≤ 15
  pub inside : active < total
  pub some_valid : 1 ≤ count
  pub fits : count ≤ total
  pub byte : serial < 16
  pub room : total * shifted_sector_size shift ≤ size
  pub whole : size % shifted_sector_size shift ≡ 0
  pub headers :
      (j : ℕ)
      → j < total
      → valid_index_header (span cell (j * shifted_sector_size shift) 8) ≡ (
          if ltb (age total active serial j) count
          then some (record {
            index_sectors = total;
            sector_shift = shift;
            serial = serial_of total active serial j;
          })
          else none)

module _ {Ctx : Type 0} {b : Backend Ctx} {cell : Ctx → ℕ → ℕ} (nor : IsNor b cell)
    (works : IsReliable b) (c : Ctx) {total shift active serial count : ℕ}
    (journal : IsJournal (cell c) b.size total shift active serial count) where
  open journal use {small, inside, some_valid, fits, byte, room, whole, headers}

  sectors_fit : ltb (b.size / shifted_sector_size shift) total ≡ false
  sectors_fit =
      ltb_ge (b.size / shifted_sector_size shift) total
        ((le-div_iff_mul-le (shifted_sector_size-pos shift)).1 room)

  sector_inside : (j : ℕ) → j < total → j * shifted_sector_size shift + 8 ≤ b.size
  sector_inside j lt =
      omega (arith, sector_room j total (shifted_sector_size shift) lt, one-le-pow shift 2, room)

  -- A probe at a sector that has a header ends with the sequence that the scan found.
  try_sector-scan :
      (d : ℕ)
      → d < total
      → age total active serial d < count
      → (st : Scan) × (c' : Ctx) × (try_sector b shift d c ≡ (
        ok (
            finish_scan b
              (record {
                index_sectors = total;
                sector_shift = shift;
                serial = serial_of total active serial d;
              })
              st),
        c',
      ))
        × IsScanned total active serial count total st
  unfolding try_sector lock_geometry
  try_sector-scan d lt valid =
      let off : ℕ = d * shifted_sector_size shift in
      let found : Header = record {
        index_sectors = total;
        sector_shift = shift;
        serial = serial_of total active serial d;
      } in
      let c' : Ctx = (b.read off 8 c).2 in
      let (st, c'', scanned, final) =
        scan_sectors-IsScanned total active serial count shift small inside some_valid fits byte nor
          works c room headers found refl refl off total 0 c' scan_start (omega arith)
          (cell-read nor works off 8 c)
          (start-IsScanned total active serial count shift small inside some_valid fits byte) in
      (
        st,
        c'',
        rw
            (
              ltb_ge b.size (off + 8) (sector_inside d lt),
              flash_read_lem nor works off 8 c (sector_inside d lt),
              headers d lt,
              lt→ltb (age total active serial d) count valid,
              !=_self shift,
              whole,
              sectors_fit,
              scanned,
            )
            refl,
        final,
      )

  -- The sequence that a scan ends with, by what it took for the newest header.
  found_sequence : Best → ℕ × ℕ → IndexSequence
  found_sequence best walk = record {
    index_sectors = total;
    sector_shift = shift;
    active_serial = best.serial;
    active_sector = best.active;
    oldest_sector = walk.0;
    count = walk.1;
  }

  finish_scan-found :
      (k j : ℕ) (st : Scan)
      → IsScanned total active serial count total st
      → best_before total active serial count total ≡ best_at total active serial j
      → finish_scan b
          (record {
            index_sectors = total;
            sector_shift = shift;
            serial = serial_of total active serial k;
          })
          st
        ≡ some (
            found_sequence (best_at total active serial j) (
              find_oldest_index_sector st.valid st.serials total j
                (serial_of total active serial j)))
  unfolding finish_scan found_sequence
  finish_scan-found k j st scanned e = rw (scanned.no_conflict, scanned.best, e) refl

  -- On reliable NOR flash whose index area holds a journal, a probe with the journal's sector size
  -- at any sector of the sequence finds the active sector, its serial, the oldest sector and the
  -- length of the sequence, if the sequence is of nine sectors at most or does not go round the
  -- end of the index area.
  pub try_sector-finds :
      (d : ℕ)
      → d < total
      → age total active serial d < count
      → (count ≤ 9) ⊎ (count ≤ active + 1)
      → (c' : Ctx) × (try_sector b shift d c ≡ (
        ok (
            some (record {
              index_sectors = total;
              sector_shift = shift;
              active_serial = serial;
              active_sector = active;
              oldest_sector = sector_of total active (count - 1);
              count = count;
            })),
        c',
      ))
  unfolding found_sequence
  try_sector-finds d lt valid why =
      let (st, c', probed, scanned) = try_sector-scan d lt valid in
      (
        c',
        rw
            (
              probed,
              finish_scan-found d active st scanned (newest why),
              at_active,
              find_oldest_index_sector-count total active serial count st.valid st.serials small
                  inside byte fits
                  (IsScanned-IsNoted total active serial count shift small inside some_valid fits
                    byte st scanned)
                  some_valid,
            )
            refl,
      )
    where
      at_active : serial_of total active serial active ≡ serial
      at_active = ground arith

      newest :
          (count ≤ 9) ⊎ (count ≤ active + 1)
          → best_before total active serial count total ≡ best_at total active serial active
      newest why = elim (ℕ_discrete total (active + 1)) [
        | yes e ↦
            best_up total active serial count total (omega arith) (omega arith) (omega arith)
            ∙ ap (best_at total active serial) (omega arith)
        | no ne ↦ best_kept total active serial count total (omega arith) (ground arith)
      ]

  -- On reliable NOR flash whose index area holds a journal, with ten sectors or more in a sequence
  -- that goes round the end of the index area, a probe with the journal's sector size at any
  -- sector of the sequence takes the last sector of the area for the active one, which it is not.
  pub try_sector_stale :
      (d : ℕ)
      → d < total
      → age total active serial d < count
      → 10 ≤ count
      → active + 1 < count
      → (c' : Ctx) × (sequence : IndexSequence) × (try_sector b shift d c
          ≡ (ok (some sequence), c'))
        × (sequence.active_sector ≡ total - 1)
        × (sequence.active_sector ≢ active)
  unfolding found_sequence
  try_sector_stale d lt valid many round =
      let (st, c', probed, scanned) = try_sector-scan d lt valid in
      let walk : ℕ × ℕ =
        find_oldest_index_sector st.valid st.serials total (total - 1)
          (serial_of total active serial (total - 1)) in
      (
        c',
        found_sequence (best_at total active serial (total - 1)) walk,
        rw
            (
              probed,
              finish_scan-found d (total - 1) st scanned
                  (best_taken total active serial count total (omega arith) many (omega arith)),
            )
            refl,
        refl,
        omega arith,
      )
