-- ===== src/AllocMap/Ranges.antt =====
-- The operations of the map on a range of sectors: `fffs_alloc_map_mark_range_unknown`, and
-- `fffs_alloc_map_mount_init`.
use fastffs.Prelude.{
  ℕ, zero, suc, ◌+◌, ◌/◌, ◌%◌, ◌^◌, ◌≤◌, ◌≡◌, refl, ◌∙◌, arith, List, Bool, false, ◌==◌, ◌&&◌, leb,
  ltb, if◌then◌else◌, length, replicate, ◌++◌, drop, ==_ne, ==_refl, le→leb, length-append,
  length-replicate, get_or-append_left, get_or-replicate,
}
use native.Mathlib.Decide.{ℕ_discrete, dec_le}
use fastffs.Bytes.{u16}
use fastffs.Bits.{digit}
use fastffs.Status.{ok}
use fastffs.AllocMap.{
  map_words_for_sectors, map_config_valid, maybe_used, mark_used, mark_unknown, mark_range_from,
  mark_range_unknown, mark_index_from, map_mount_init,
}
use fastffs.AllocMap.Marks.{maybe_used-bit}
use fastffs.AllocMap.Sets.{
  Covers, length-mark_used, length-mark_unknown, maybe_used-mark_used, maybe_used-mark_unknown,
}

-- `x` is one of the `left` sectors from `a` on.
abbrev pub among : ℕ → ℕ → ℕ → Bool
among a left x = leb a x && ltb x (a + left)

among_zero : (a t : ℕ) → among a 0 t ≡ false
among_zero a t = ground arith

-- A range is its first sector and the rest.
among-suc :
    (a left t : ℕ) (v m : Bool)
    → (if among (a + 1) left t then v else (if t == a then v else m))
      ≡ (if among a (suc left) t then v else m)
among-suc a left t v m = elim (ℕ_discrete t a) [
  | yes e ↦ ground (arith, e)
  | no ne ↦ ground (arith)
]

range_from :
    (count first left i : ℕ) (words : List ℕ)
    → Covers words count
    → first + i + left ≤ 2 ^ 16
    → (t : ℕ)
    → maybe_used count (mark_range_from count words first left i) t
      ≡ (if among (first + i) left t then false else maybe_used count words t)
unfolding mark_range_from
range_from count first zero i words covers fits t = rw (among_zero (first + i) t) refl
range_from count first (suc left) i words covers fits t =
    range_from count first left (i + 1) (mark_unknown count words (u16 (first + i)))
      (rw (length-mark_unknown count words (u16 (first + i))) covers) (omega arith) t
    ∙ rw (start, index, maybe_used-mark_unknown count words covers (first + i) t)
        (among-suc (first + i) left t false (maybe_used count words t))
  where
    start : first + (i + 1) ≡ first + i + 1
    start = omega arith

    index : u16 (first + i) ≡ first + i
    index = omega arith

-- In a map that has a bit for every sector, marking a range unknown that ends at sector 65535 at
-- the latest takes exactly the sectors of the range out of the map.
pub maybe_used-mark_range_unknown :
    (sector_count : ℕ) (alloc_map : List ℕ)
    → Covers alloc_map sector_count
    → (first count : ℕ) → first + count ≤ 2 ^ 16
    → (sector : ℕ)
    → maybe_used sector_count (mark_range_unknown sector_count alloc_map first count) sector ≡ (
        if leb first sector && ltb sector (first + count)
        then false
        else maybe_used sector_count alloc_map sector)
unfolding mark_range_unknown
maybe_used-mark_range_unknown sector_count alloc_map covers first count fits sector =
    range_from sector_count first count 0 alloc_map covers (omega arith) sector
    ∙ rw (start first) refl
  where
    start : (first : ℕ) → first + 0 ≡ first
    start first = omega arith

index_from :
    (count left s : ℕ) (words : List ℕ)
    → Covers words count
    → (t : ℕ)
    → maybe_used count (mark_index_from count words left s) t
      ≡ (if among s left t then ltb t count else maybe_used count words t)
unfolding mark_index_from
index_from count zero s words covers t = rw (among_zero s t) refl
index_from count (suc left) s words covers t =
    index_from count left (s + 1) (mark_used count words s)
      (rw (length-mark_used count words s) covers) t
    ∙ rw (maybe_used-mark_used count words covers s t, one_sector)
        (among-suc s left t (ltb t count) (maybe_used count words t))
  where
    one_sector :
        (if t == s then ltb s count else maybe_used count words t)
        ≡ (if t == s then ltb t count else maybe_used count words t)
    one_sector = elim (ℕ_discrete t s) [
      | yes e ↦ rw (e, ==_refl s) refl
      | no ne ↦ rw (==_ne t s ne) refl
    ]

-- A cleared map has no sector.
cleared_map :
    (count n : ℕ) (rest : List ℕ)
    → n ≡ (count + 31) / 32
    → (t : ℕ) → maybe_used count (replicate n 0 ++ rest) t ≡ false
cleared_map count n rest e t =
    maybe_used-bit count (replicate n 0 ++ rest) t ∙ elim (dec_le count t) [
      | yes beyond ↦ rw (le→leb count t beyond) refl
      | no within ↦
          rw
            (
              get_or-append_left (replicate n 0) rest (t / 32) 0
                  (omega (arith, length-replicate {A = ℕ} n 0)),
              get_or-replicate {A = ℕ} n (t / 32) 0,
              zero_digit (t % 32),
            )
            (ground arith)
    ]
  where
    zero_digit : (k : ℕ) → digit 0 k ≡ 0
    zero_digit zero = refl
    zero_digit (suc k) = zero_digit k

-- Mounting with a map that has a bit for every sector succeeds, and leaves in use exactly the
-- sectors below the number of index sectors, as far as there are sectors.
pub map_mount_init-maybe_used :
    (sector_count index_sectors : ℕ) (alloc_map : List ℕ)
    → Covers alloc_map sector_count
    → (map' : List ℕ) × (map_mount_init sector_count index_sectors alloc_map ≡ ok map')
      × ((sector : ℕ)
          → maybe_used sector_count map' sector
            ≡ (if ltb sector index_sectors then ltb sector sector_count else false))
unfolding map_mount_init map_config_valid map_words_for_sectors
map_mount_init-maybe_used count index words covers = (
  mark_index_from count cleared index 0,
  rw (le→leb ((count + 31) / 32) (length words) covers) refl,
  (λ t.
      index_from count index 0 cleared cleared-Covers t
      ∙ rw (cleared_map count ((count + 31) / 32) (drop ((count + 31) / 32) words) refl t)
          (ground arith)),
)
  where
    cleared : List ℕ
    cleared = replicate ((count + 31) / 32) 0 ++ drop ((count + 31) / 32) words

    cleared-Covers : Covers cleared count
    cleared-Covers = omega (
      arith,
      length-append {A = ℕ} (replicate ((count + 31) / 32) 0) (drop ((count + 31) / 32) words),
      length-replicate {A = ℕ} ((count + 31) / 32) 0,
    )
