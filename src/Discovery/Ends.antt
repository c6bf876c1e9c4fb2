-- ===== src/Discovery/Ends.antt =====
-- The search for the index sequence comes to an end.
use fastffs.Prelude.{
  ℕ, zero, suc, ◌+◌, ◌*◌, ◌/◌, ◌%◌, List, Option, some, none, ◌||◌, ◌==◌, ◌!=◌, ltb, if◌then◌else◌,
}
use fastffs.Status.{corrupt, Action, pure, fail, ◌>>=◌}
use fastffs.Flash.{Backend, flash_read}
use fastffs.IndexHeader.{Header, valid_index_header, header_size}
use fastffs.Settled.{Runs, Runs-pure, Runs-fail, Runs-if, Runs-bind}
use fastffs.Discovery.{
  IndexSequence, Scan, scan_start, scan_header, scan_sectors, lock_geometry, try_sector, find_from,
  find_index_sequence, discovery_probe_shift, shifted_sector_size,
}
use fastffs.Names.Reads.{flash_read-Settled}

module _ {Ctx : Type 0} (b : Backend Ctx) where
  -- Discovery only reads.
  abbrev Reads : {A : Type 0} → Action Ctx A → Type 0
  Reads m = Runs (λ c. Unit {0}) m (λ a c. Unit {0})

  scan_sectors-Runs :
      (locked : Header) (size off : ℕ) (hdr : List ℕ) (left i : ℕ) (st : Scan)
      → Reads (scan_sectors b locked size off hdr left i st)
  unfolding scan_sectors
  scan_sectors-Runs locked size off hdr zero i st = Runs-pure st (λ s h. tt)
  scan_sectors-Runs locked size off hdr (suc left) i st =
      Runs-bind {Q = λ a c. Unit {0}}
        (Runs-if (i * size == off) (λ e. Runs-pure hdr (λ s h. tt))
          (λ e. record { at = λ c h. flash_read-Settled b (i * size) header_size c }))
        (λ hdr'.
          Runs-if (scan_header locked i (i * size) hdr' st).1
            (λ e.
              scan_sectors-Runs locked size off hdr left (i + 1)
                (scan_header locked i (i * size) hdr' st).0)
            (λ e. Runs-pure _ (λ s h. tt)))

  lock_geometry-Runs :
      (shift off : ℕ) (hdr : List ℕ) (o : Option Header) → Reads (lock_geometry b shift off hdr o)
  unfolding lock_geometry
  lock_geometry-Runs shift off hdr none = Runs-pure none (λ s h. tt)
  lock_geometry-Runs shift off hdr (some locked) =
      Runs-if
        (locked.sector_shift != shift
          || b.size % shifted_sector_size shift != 0
          || ltb (b.size / shifted_sector_size shift) locked.index_sectors)
        (λ e. Runs-pure none (λ s h. tt))
        (λ e.
          Runs-bind {Q = λ a c. Unit {0}}
            (scan_sectors-Runs locked (shifted_sector_size shift) off hdr locked.index_sectors 0
              scan_start)
            (λ st. Runs-pure _ (λ s h. tt)))

  try_sector-Runs : (shift sector : ℕ) → Reads (try_sector b shift sector)
  unfolding try_sector
  try_sector-Runs shift sector =
      Runs-if (ltb b.size (sector * shifted_sector_size shift + header_size))
        (λ e. Runs-pure none (λ s h. tt))
        (λ e.
          Runs-bind {Q = λ a c. Unit {0}}
            {m = flash_read b (sector * shifted_sector_size shift) header_size}
            (record {
              at = λ c h. flash_read-Settled b (sector * shifted_sector_size shift) header_size c;
            })
            (λ hdr.
              lock_geometry-Runs shift (sector * shifted_sector_size shift) hdr
                (valid_index_header hdr)))

  find_from-Runs : (fuel probe : ℕ) → Reads (find_from b fuel probe)
  unfolding find_from
  find_from-Runs zero probe = Runs-fail corrupt tt
  find_from-Runs (suc fuel) probe =
      by_shift (discovery_probe_shift probe) (find_from-Runs fuel (probe + 1))
    where
      second :
          (o : Option IndexSequence) (later : Action Ctx IndexSequence)
          → Reads later
          → Reads {A = IndexSequence} (elim o [ some sequence ↦ pure sequence | none ↦ later ])
      second (some sequence) later h = Runs-pure sequence (λ s k. tt)
      second none later h = h

      by_shift :
          (o : Option ℕ) {later : Action Ctx IndexSequence}
          → Reads later
          → Reads {A = IndexSequence} (elim o [
            | none ↦ fail corrupt
            | some shift ↦
                if b.size % shifted_sector_size shift != 0
                then later
                else (try_sector b shift 0 >>= λ first. elim first [
                  | some sequence ↦ pure sequence
                  | none ↦ try_sector b shift 1 >>= λ second. elim second [
                    | some sequence ↦ pure sequence
                    | none ↦ later
                  ]
                ])
          ])
      by_shift none h = Runs-fail corrupt tt
      by_shift (some shift) {later} h =
          Runs-if (b.size % shifted_sector_size shift != 0) (λ e. h)
            (λ e. Runs-bind {Q = λ a c. Unit {0}} (try_sector-Runs shift 0) (λ first.
              second first _ (
                Runs-bind {Q = λ a c. Unit {0}} (try_sector-Runs shift 1) (λ o. second o later h))))

  pub find_index_sequence-Runs : Reads (find_index_sequence b)
  unfolding find_index_sequence
  find_index_sequence-Runs = find_from-Runs 17 0
