-- ===== src/Discovery/Sequence/Headers.antt =====
-- The scan of the headers of one journal, one after the other.
use native.Mathlib.Nat.{one-le-pow}
use native.Mathlib.Decide.{dec_lt}
use fastffs.Prelude.{
  ℕ, zero, suc, ◌+◌, ◌*◌, ◌≤◌, ◌<◌, ◌≡◌, refl, sym, subst, ap, ◌∙◌, arith, true, false, ◌&&◌,
  Option, some, none, ◌==◌, ltb, if◌then◌else◌, List, get_or, set, length, length-set,
  get_or-set_self, get_or-set_ne, Bool-cases, inl, inr, get_or-replicate,
}
use fastffs.Status.{Result, ok, pure}
use fastffs.Flash.{Backend, flash_read}
use fastffs.Flash.Nor.{IsNor, IsReliable, span}
use fastffs.Flash.Reads.{flash_read_lem, cell-read}
use fastffs.IndexHeader.{Header, valid_index_header}
use fastffs.Discovery.{Scan, scan_start, scan_header, scan_sectors, shifted_sector_size}
use fastffs.Discovery.Newest.{age, serial_of, best_before, consider_valid, consider_other}
use fastffs.Discovery.Oldest.{IsNoted}

pub sector_room : (j total d : ℕ) → j < total → j * d + d ≤ total * d
sector_room j total d h = grind arith

module _ (total active serial count : ℕ) where
  -- The locals of the scan before it comes to sector `i`.
  pub record IsScanned (i : ℕ) (st : Scan) : Type 0 where
    pub no_conflict : st.conflict ≡ false
    pub best : st.best ≡ best_before total active serial count i
    pub valid_length : length st.valid ≡ 15
    pub serials_length : length st.serials ≡ 15
    pub valid_at :
        (j : ℕ)
        → j < 15
        → get_or st.valid j false ≡ (ltb j i && ltb (age total active serial j) count)
    pub serial_at :
        (j : ℕ)
        → j < i
        → age total active serial j < count
        → get_or st.serials j 0 ≡ serial_of total active serial j

module _ (total active serial count shift : ℕ) (small : total ≤ 15) (inside : active < total)
    (some_valid : 1 ≤ count) (fits : count ≤ total) (byte : serial < 16) where
  pub start-IsScanned : IsScanned total active serial count 0 scan_start
  unfolding best_before
  start-IsScanned = record {
    no_conflict = refl;
    best = start_best;
    valid_length = refl;
    serials_length = refl;
    valid_at = λ j h. get_or-replicate 15 j false ∙ ground arith;
    serial_at = λ j h k. absurd (omega arith);
  }
    where
      start_best : scan_start.best ≡ best_before total active serial count 0
      start_best = ground arith

  -- What a sector of the journal has in its header.
  abbrev journal_header : ℕ → Option Header
  journal_header j =
      if ltb (age total active serial j) count
      then some (record {
        index_sectors = total;
        sector_shift = shift;
        serial = serial_of total active serial j;
      })
      else none

  module _ (h : Header) (same_count : h.index_sectors ≡ total) (same_shift : h.sector_shift ≡ shift)
      (j : ℕ) (here : j < total) (hdr : List ℕ) (st : Scan)
      (scanned : IsScanned total active serial count j st)
      (read : valid_index_header hdr ≡ journal_header j) where
    abbrev off : ℕ
    off = j * shifted_sector_size shift

    abbrev noted : Scan
    noted = record {
      conflict = st.conflict;
      best = best_before total active serial count (j + 1);
      valid = set st.valid j true;
      serials = set st.serials j (serial_of total active serial j);
    }

    scan_valid : age total active serial j < count → scan_header h j off hdr st ≡ (noted, true)
    unfolding scan_header
    scan_valid valid = ground (
      arith,
      read,
      same_count,
      same_shift,
      scanned.best,
      scanned.no_conflict,
      consider_valid total active serial count shift j small inside some_valid fits byte here valid,
    )

    noted-IsScanned :
        age total active serial j < count → IsScanned total active serial count (j + 1) noted
    noted-IsScanned valid = record {
      no_conflict = scanned.no_conflict;
      best = refl;
      valid_length = length-set st.valid j true ∙ scanned.valid_length;
      serials_length =
          length-set st.serials j (serial_of total active serial j) ∙ scanned.serials_length;
      valid_at = λ k lt. ground (
        arith,
        scanned.valid_at k lt,
        scanned.valid_length,
        get_or-set_self st.valid j true false,
        get_or-set_ne st.valid j k true false,
      );
      serial_at = λ k lt old. ground (
        arith,
        scanned.serial_at k,
        scanned.serials_length,
        get_or-set_self st.serials j (serial_of total active serial j) 0,
        get_or-set_ne st.serials j k (serial_of total active serial j) 0,
      );
    }

    scan_other : count ≤ age total active serial j → scan_header h j off hdr st ≡ (st, true)
    unfolding scan_header
    scan_other other = ground (arith, read)

    other-IsScanned :
        count ≤ age total active serial j → IsScanned total active serial count (j + 1) st
    other-IsScanned other = record {
      no_conflict = scanned.no_conflict;
      best =
          scanned.best
          ∙ sym (
              consider_other total active serial count shift j small inside some_valid fits byte
                here other);
      valid_length = scanned.valid_length;
      serials_length = scanned.serials_length;
      valid_at = λ k lt. ground (arith, scanned.valid_at k lt);
      serial_at = λ k lt old. ground (arith, scanned.serial_at k);
    }

    -- One round goes on, with the locals for the next sector.
    scan_header-IsScanned :
        (st' : Scan) × (scan_header h j off hdr st ≡ (st', true))
        × IsScanned total active serial count (j + 1) st'
    scan_header-IsScanned = elim (dec_lt (age total active serial j) count) [
      | yes valid ↦ (noted, scan_valid valid, noted-IsScanned valid)
      | no other ↦ (st, scan_other (omega arith), other-IsScanned (omega arith))
    ]

  pub IsScanned-IsNoted :
      (st : Scan)
      → IsScanned total active serial count total st
      → IsNoted total active serial count st.valid st.serials
  IsScanned-IsNoted st h = record {
    valid_at = λ j lt. ground (arith, h.valid_at j);
    serial_at = λ j lt old. h.serial_at j lt old;
  }

  module _ {Ctx : Type 0} {b : Backend Ctx} {cell : Ctx → ℕ → ℕ} (nor : IsNor b cell)
      (works : IsReliable b) (c : Ctx) (room : total * shifted_sector_size shift ≤ b.size)
      (headers : (j : ℕ)
        → j < total
        → valid_index_header (span (cell c) (j * shifted_sector_size shift) 8) ≡ journal_header j)
      (h : Header) (same_count : h.index_sectors ≡ total) (same_shift : h.sector_shift ≡ shift)
      (d_off : ℕ) where
    abbrev fetch : ℕ → Ctx → Result (List ℕ) × Ctx
    fetch off = if off == d_off then pure (span (cell c) d_off 8) else flash_read b off 8

    -- The header comes from the first read or from a read of its own.
    fetch_lem :
        (off : ℕ) (c' : Ctx)
        → off + 8 ≤ b.size
        → cell c' ≡ cell c
        → (c'' : Ctx) × (fetch off c' ≡ (ok (span (cell c) off 8), c'')) × (cell c'' ≡ cell c)
    fetch_lem off c' inside_flash e = elim (Bool-cases (off == d_off)) [
      | inl same ↦ (c', rw same (ap (λ o. (ok (span (cell c) o 8), c')) (ground arith)), e)
      | inr other ↦ (
        (b.read off 8 c').2,
        rw other (
            flash_read_lem nor works off 8 c' inside_flash
            ∙ ap (λ f. (ok (span f off 8), (b.read off 8 c').2)) e),
        cell-read nor works off 8 c' ∙ e,
      )
    ]

    sector_inside : (j : ℕ) → j < total → j * shifted_sector_size shift + 8 ≤ b.size
    sector_inside j lt =
        omega (arith, sector_room j total (shifted_sector_size shift) lt, one-le-pow shift 2)

    -- The whole scan: it ends with no conflict, whatever the reads do to the backend.
    pub scan_sectors-IsScanned :
        (left j : ℕ) (c' : Ctx) (st : Scan)
        → j + left ≡ total
        → cell c' ≡ cell c
        → IsScanned total active serial count j st
        → (st' : Scan) × (c'' : Ctx) × (scan_sectors b h
              (shifted_sector_size shift)
              d_off
              (span (cell c) d_off 8)
              left
              j
              st
              c'
            ≡ (ok st', c''))
          × IsScanned total active serial count total st'
    unfolding scan_sectors
    scan_sectors-IsScanned zero j c' st e same scanned =
        let all : j ≡ total = omega arith in
        (st, c', refl, subst (λ k. IsScanned total active serial count k st) all scanned)
    scan_sectors-IsScanned (suc left) j c' st e same scanned =
        let (c'', got, same'') =
          fetch_lem (j * shifted_sector_size shift) c' (sector_inside j (omega arith)) same in
        let (st', stepped, scanned') =
          scan_header-IsScanned h same_count same_shift j (omega arith)
            (span (cell c) (j * shifted_sector_size shift) 8) st scanned
            (headers j (omega arith)) in
        let (st2, c2, rest, final) =
          scan_sectors-IsScanned left (j + 1) c'' st' (omega arith) same'' scanned' in
        (st2, c2, rw (got, stepped) rest, final)
