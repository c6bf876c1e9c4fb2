-- ===== src/Discovery/Ranges.antt =====
-- The bounds that the discovery of the index sequence checks, in each of its parts.
use native.Mathlib.Nat.{mod-eq_of_lt}
use fastffs.Prelude.{
  ℕ, zero, suc, ◌+◌, ◌-◌, ◌/◌, ◌%◌, ◌^◌, bit_and, ◌≤◌, ◌<◌, ◌≡◌, ◌⊎◌, inl, inr, refl, sym, subst,
  ap, ◌∙◌, arith, List, Option-cases, Bool-cases, Option, some, none, Bool, true, false, not, ◌||◌,
  ◌==◌, ◌!=◌, ltb, leb, if◌then◌else◌, take, get_or,
}
use fastffs.Status.{Error, corrupt, Result, ok, err}
use fastffs.Bits.{bit_and-mask}
use fastffs.Bytes.{byte, u8, u32}
use fastffs.IndexHeader.{Header, valid_index_header, same_bytes, index_magic, index_serial_newer}
use fastffs.Journal.Ring.{mod_below_twice}
use fastffs.Discovery.{
  Best, Scan, consider_index_header, scan_header, find_oldest_from, find_oldest_index_sector,
  prev_index_sector, shifted_sector_size,
}

abbrev pub HeaderInRange : Header → Type 0
HeaderInRange h =
    (2 ≤ h.index_sectors) × (h.index_sectors ≤ 15) × (h.sector_shift ≤ 15) × (h.serial < 16)

-- A predicate on what is there, if anything is.
abbrev pub IfSome {ℓ} : {A : Type ℓ} → (A → Type 0) → Option A → Type 0
IfSome P none = Unit
IfSome P (some a) = P a

IfSome-if :
    {A : Type 0} (P : A → Type 0) (test : Bool) (o : Option A)
    → (test ≡ false → IfSome P o)
    → IfSome P (if test then none else o)
IfSome-if P true o h = tt
IfSome-if P false o h = h refl

pub valid_index_header-InRange : (hdr : List ℕ) → IfSome HeaderInRange (valid_index_header hdr)
unfolding valid_index_header
valid_index_header-InRange hdr =
    let count = u8 (byte hdr 5 / 2 ^ 4) in
    let shift = byte hdr 6 in
    IfSome-if HeaderInRange (not (same_bytes (take 4 hdr) index_magic) || byte hdr 4 != 1) _ (λ _.
      IfSome-if HeaderInRange
        (bit_and (byte hdr 7) 0x80 != 0
          || bit_and (byte hdr 7) 0x40 == 0
          || bit_and (byte hdr 7) 0x20 == 0
          || bit_and (byte hdr 7) 0x1f != 0x1f)
        _
        (λ _. IfSome-if HeaderInRange (ltb count 2 || ltb 15 count) _ (λ few.
          IfSome-if HeaderInRange (ltb 15 shift) _ (λ large. (
            ground arith,
            ground arith,
            ground arith,
            omega (arith, bit_and-mask 4 (byte hdr 5)),
          )))))

-- What is known of the locals of the scan.
abbrev pub BestInRange : ℕ → Best → Type 0
BestInRange total best = best.found ≡ true → (best.active < total) × (best.serial < 16)

IfOk : {A : Type 0} → (A → Type 0) → Result A → Type 0
IfOk P (ok a) = P a
IfOk P (err e) = Unit

consider-InRange :
    (off : ℕ) (h : Header) (best : Best)
    → HeaderInRange h
    → BestInRange h.index_sectors best
    → IfOk (BestInRange h.index_sectors) (consider_index_header off h best)
unfolding consider_index_header IfOk
consider-InRange off h best (two, few, shift, serial) known =
    let size = shifted_sector_size h.sector_shift in
    steps (off % size != 0) (leb h.index_sectors (off / size))
      (not best.found || index_serial_newer h.serial best.serial) refl
  where
    steps :
        (uneven outside newer : Bool)
        → outside ≡ leb h.index_sectors (off / shifted_sector_size h.sector_shift)
        → IfOk (BestInRange h.index_sectors) (
            if uneven
            then err corrupt
            else if outside
            then err corrupt
            else if newer
            then ok (record {
              found = true;
              active = off / shifted_sector_size h.sector_shift;
              serial = h.serial;
            })
            else ok best)
    steps true outside newer e = tt
    steps false true newer e = tt
    steps false false true e = λ _. (ground arith, serial)
    steps false false false e = known

Result-cases : {A : Type 0} (r : Result A) → ((a : A) × (r ≡ ok a)) ⊎ ((e : Error) × (r ≡ err e))
Result-cases (ok a) = inl (a, refl)
Result-cases (err e) = inr (e, refl)

module _ (locked : Header) where
  same_total :
      (h : Header)
      → (h.index_sectors != locked.index_sectors || h.sector_shift != locked.sector_shift) ≡ false
      → h.index_sectors ≡ locked.index_sectors
  same_total h e = ground arith

  -- One header keeps what is known.
  pub scan_header-InRange :
      (i off : ℕ) (hdr : List ℕ) (st : Scan)
      → BestInRange locked.index_sectors st.best
      → BestInRange locked.index_sectors (scan_header locked i off hdr st).0.best
  unfolding scan_header IfOk
  scan_header-InRange i off hdr st known = elim (Option-cases (valid_index_header hdr)) [
    | inl e ↦ rw (scan_header, e) known
    | inr (h, e) ↦
        elim (Bool-cases
          (h.index_sectors != locked.index_sectors || h.sector_shift != locked.sector_shift)) [
            | inl t ↦ rw (scan_header, e, t) known
            | inr f ↦ elim (Result-cases (consider_index_header off h st.best)) [
              | inl (best, r) ↦ rw (scan_header, e, f, r) (known_best h best e f r)
              | inr (x, r) ↦ rw (scan_header, e, f, r) known
            ]
          ]
  ]
    where
      known_best :
          (h : Header) (best : Best)
          → valid_index_header hdr ≡ some h
          → (h.index_sectors != locked.index_sectors || h.sector_shift != locked.sector_shift)
            ≡ false
          → consider_index_header off h st.best ≡ ok best
          → BestInRange locked.index_sectors best
      known_best h best e f r =
          subst (λ n. BestInRange n best) (same_total h f)
            (subst (IfOk (BestInRange h.index_sectors)) r (
              consider-InRange off h st.best
                (subst (IfSome HeaderInRange) e (valid_index_header-InRange hdr))
                (subst (λ n. BestInRange n st.best) (sym (same_total h f)) known)))

-- The walk back stays in the ring, and ends as far behind the active sector as it counts.
abbrev pub IsWalk : ℕ → ℕ → ℕ × ℕ → Type 0
IsWalk total active (oldest, count) =
    (oldest < total) × (1 ≤ count) × (count ≤ total) × (active ≡ (oldest + count - 1) % total)

find_oldest_from-IsWalk :
    (valid : List Bool) (serials : List ℕ) (total active left current serial n : ℕ)
    → n + left ≤ total
    → IsWalk total active (current, n)
    → IsWalk total active (find_oldest_from valid serials total left current serial n)
unfolding find_oldest_from prev_index_sector
find_oldest_from-IsWalk valid serials total active zero current serial n le walk = walk
find_oldest_from-IsWalk valid serials total active (suc left) current serial n le walk =
    stop
      (not (get_or valid (prev_index_sector current total) false)
        || get_or serials (prev_index_sector current total) 0
          != u8 (bit_and (u32 (serial + 2 ^ 32 - 1)) 0x0f))
      (find_oldest_from-IsWalk valid serials total active left (prev_index_sector current total)
        (get_or serials (prev_index_sector current total) 0) (n + 1) (omega arith) (before walk))
  where
    stop :
        (at : Bool) {rest : ℕ × ℕ}
        → IsWalk total active rest
        → IsWalk total active (if at then (current, n) else rest)
    stop true k = walk
    stop false k = k

    before :
        IsWalk total active (current, n)
        → IsWalk total active (prev_index_sector current total, n + 1)
    before (inside, some_valid, fits, place) = ground (
      arith,
      mod_below_twice (current + n - 1) total (omega arith),
      mod_below_twice (prev_index_sector current total + (n + 1) - 1) total (ground arith),
    )

pub find_oldest_index_sector-IsWalk :
    (valid : List Bool) (serials : List ℕ) (total active serial : ℕ)
    → active < total
    → IsWalk total active (find_oldest_index_sector valid serials total active serial)
unfolding find_oldest_index_sector
find_oldest_index_sector-IsWalk valid serials total active serial inside =
    find_oldest_from-IsWalk valid serials total active (total - 1) active serial 1 (omega arith)
      (inside, omega arith, omega arith, sym (ap (λ x. x % total) same ∙ mod-eq_of_lt inside))
  where
    same : active + 1 - 1 ≡ active
    same = omega arith
