-- ===== src/HashIndex/Find.antt =====
-- The invariant of the table, and what `find_slot_bucket` finds under it.
use fastffs.Prelude.{
  ℕ, zero, suc, ◌+◌, ◌^◌, ◌≤◌, ◌<◌, ◌≡◌, ◌≢◌, refl, arith, List, length, Bool, true, false, ==_ne,
  ==_refl,
}
use native.Mathlib.Decide.{ℕ_discrete, dec_lt}
use fastffs.Status.{Result, ok, err, no_space}
use fastffs.HashIndex.{Bucket, bucket_at, bucket_for, find_from, find_slot_bucket}
use fastffs.HashIndex.Cycle.{
  dist, dist-lt, dist_self, dist_inj, dist-after, after, after-lt, bucket_for-lt, next_bucket-after,
}

-- The slot in bucket `p`, and the bucket where the probes for a slot begin.
abbrev pub slot_at : List Bucket → ℕ → ℕ
slot_at table p = (bucket_at table p).slot

-- Every entry can be reached from its home over buckets that are not empty, and no two entries
-- have one slot.
pub record IsValid (table : List Bucket) (k : ℕ) : Type 0 where
  pub small : k ≤ 64
  pub power : length table ≡ 2 ^ k
  pub reach :
      (p q : ℕ)
      → p < length table
      → q < length table
      → slot_at table p ≢ 0
      → dist (length table) (bucket_for (length table) (slot_at table p)) q
        < dist (length table) (bucket_for (length table) (slot_at table p)) p
      → slot_at table q ≢ 0
  pub unique :
      (p q : ℕ)
      → p < length table
      → q < length table
      → slot_at table p ≢ 0
      → slot_at table p ≡ slot_at table q
      → p ≡ q

-- The buckets that `d` probes for the slot have looked at hold other slots.
abbrev pub Passed : List Bucket → ℕ → ℕ → Type 0
Passed table slot d =
    (q : ℕ)
    → q < length table
    → dist (length table) (bucket_for (length table) slot) q < d
    → (slot_at table q ≢ 0) × (slot_at table q ≢ slot)

-- The three ends of the search.
pub data Found (table : List Bucket) (slot : ℕ) (r : Result (ℕ × Bool)) : Type 0 where
  there :
      (p : ℕ) → p < length table → slot_at table p ≡ slot → r ≡ ok (p, true) → Found table slot r
  free :
      (p : ℕ)
      → p < length table
      → slot_at table p ≡ 0
      → Passed table slot (dist (length table) (bucket_for (length table) slot) p)
      → r ≡ ok (p, false)
      → Found table slot r
  full : Passed table slot (length table) → r ≡ err no_space → Found table slot r

module _ (table : List Bucket) (slot k : ℕ) (small : k ≤ 64) (power : length table ≡ 2 ^ k)
    (proper : slot ≢ 0) where
  abbrev size : ℕ
  size = length table

  abbrev home : ℕ
  home = bucket_for size slot

  home-lt : home < size
  home-lt = bucket_for-lt size k power small slot

  Passed-next :
      (p : ℕ)
      → p < size
      → Passed table slot (dist size home p)
      → slot_at table p ≢ 0
      → slot_at table p ≢ slot
      → Passed table slot (dist size home p + 1)
  Passed-next p h before ne other q hq lt = elim (ℕ_discrete q p) [
    | yes e ↦ (rw e ne, rw e other)
    | no apart ↦ before q hq (closer (λ e. apart (dist_inj size home q p home-lt hq h e)))
  ]
    where
      closer : dist size home q ≢ dist size home p → dist size home q < dist size home p
      closer ne = omega arith

  none_left :
      (left p : ℕ)
      → left ≡ 0
      → Passed table slot (length table)
      → Found table slot (find_from table slot left p)
  unfolding find_from
  none_left zero p e all = full all refl
  none_left (suc left) p e all = absurd (omega arith)

  find_from-Found :
      (left p : ℕ)
      → p < size
      → dist size home p + left ≡ size
      → Passed table slot (dist size home p)
      → Found table slot (find_from table slot left p)
  unfolding find_from
  find_from-Found zero p h e before = absurd (omega (arith, dist-lt size home p home-lt h))
  find_from-Found (suc left) p h e before = elim (ℕ_discrete (slot_at table p) 0) [
    | yes none_there ↦ free p h none_there before (rw (none_there) refl)
    | no taken ↦ elim (ℕ_discrete (slot_at table p) slot) [
      | yes same ↦ there p h same (rw (==_ne (slot_at table p) 0 taken, same, ==_refl slot) refl)
      | no other ↦
          rw
            (
              ==_ne (slot_at table p) 0 taken,
              ==_ne (slot_at table p) slot other,
              next_bucket-after size k power small p h,
            )
            (elim (dec_lt (dist size home p + 1) size) [
              | yes more ↦
                  find_from-Found left (after size p) (after-lt size home p home-lt h)
                    (omega (arith, dist-after size home p home-lt h more))
                    (rw (dist-after size home p home-lt h more)
                      (Passed-next p h before taken other))
              | no last ↦
                  none_left left (after size p) (omega (arith, dist-lt size home p home-lt h))
                    (λ q hq lt.
                      Passed-next p h before taken other q hq
                        (omega (arith, dist-lt size home p home-lt h)))
            ])
    ]
  ]

  pub find_slot_bucket-Found : Found table slot (find_slot_bucket table slot)
  unfolding find_slot_bucket
  find_slot_bucket-Found = rw (==_ne slot 0 proper) (
      find_from-Found size home home-lt (omega (arith, dist_self size home home home-lt home-lt))
        (λ q hq lt. absurd (omega (arith, dist_self size home home home-lt home-lt))))
