-- ===== src/HashIndex/Insert.antt =====
-- `fffs_index_insert` keeps the invariant, and updates the mapping.
use fastffs.Prelude.{
  ℕ, ◌<◌, ◌≡◌, ◌≢◌, ◌⊎◌, inl, inr, refl, ap, ◌∙◌, sym, List, length, true, set, if◌then◌else◌, ◌==◌,
  get_or-set_self, get_or-set_ne, length-set, ==_ne, ==_refl,
}
use native.Mathlib.Decide.{ℕ_discrete}
use fastffs.Status.{ok, err, no_space}
use fastffs.HashIndex.{Bucket, bucket_at, empty_bucket, bucket_for, insert, head_for_slot}
use fastffs.HashIndex.Cycle.{dist, dist-lt, bucket_for-lt}
use fastffs.HashIndex.Find.{IsValid, Passed, there, free, full, slot_at, find_slot_bucket-Found}
use fastffs.HashIndex.Lookup.{Holds, free-absent, head_for_slot-Holds, same_lookup}

-- A write to one bucket.
module _ (table : List Bucket) (p : ℕ) (hp : p < length table) (entry : Bucket) where
  abbrev written : List Bucket
  written = set table p entry

  pub bucket-written_self : bucket_at (set table p entry) p ≡ entry
  bucket-written_self = get_or-set_self table p entry empty_bucket hp

  pub bucket-written_ne : (q : ℕ) → q ≢ p → bucket_at (set table p entry) q ≡ bucket_at table q
  bucket-written_ne q ne = get_or-set_ne table p q entry empty_bucket (λ e. ne (sym e))

module _ {table : List Bucket} {k : ℕ} (valid : IsValid table k) (slot head : ℕ) (proper : slot ≢ 0)
    (p : ℕ) (hp : p < length table) where
  open valid use {small, power, reach, unique}

  abbrev entry : Bucket
  entry = record { slot = slot; head = head }

  abbrev table' : List Bucket
  table' = set table p entry

  same_length : length table' ≡ length table
  same_length = length-set table p entry

  -- The bucket had the slot, or was free for it and the slot is nowhere else.
  abbrev Fits : Type 0
  Fits =
      (slot_at table p ≡ slot)
      ⊎ ((slot_at table p ≡ 0)
          × Passed table slot (dist (length table) (bucket_for (length table) slot) p)
          × ((q : ℕ) → q < length table → slot_at table q ≢ slot))

  slot_self : slot_at table' p ≡ slot
  slot_self = ap (λ b. b.slot) (bucket-written_self table p hp entry)

  slot_other : (q : ℕ) → q ≢ p → slot_at table' q ≡ slot_at table q
  slot_other q ne = ap (λ b. b.slot) (bucket-written_ne table p hp entry q ne)

  still_taken : (q : ℕ) → slot_at table q ≢ 0 → slot_at table' q ≢ 0
  still_taken q taken = elim (ℕ_discrete q p) [
    | yes e ↦ λ z. proper (sym slot_self ∙ ap (slot_at table') (sym e) ∙ z)
    | no ne ↦ λ z. taken (sym (slot_other q ne) ∙ z)
  ]

  written-reach :
      Fits
      → (r q : ℕ) → r < length table
      → q < length table
      → slot_at table' r ≢ 0
      → dist (length table) (bucket_for (length table) (slot_at table' r)) q
        < dist (length table) (bucket_for (length table) (slot_at table' r)) r
      → slot_at table' q ≢ 0
  written-reach fits r q hr hq taken lt = elim (ℕ_discrete r p) [
    | no ne ↦
        still_taken q
          (reach r q hr hq (λ z. taken (slot_other r ne ∙ z)) (rw (slot_other r ne) at lt))
    | yes e ↦ elim fits [
      | inl same ↦
          still_taken q
            (reach p q hp hq (λ z. proper (sym same ∙ z)) (rw same (rw (e, slot_self) at lt)))
      | inr (none_there, before, alone) ↦ still_taken q (before q hq (rw (e, slot_self) at lt)).0
    ]
  ]

  written_unique :
      Fits
      → (r q : ℕ) → r < length table
      → q < length table
      → slot_at table' r ≢ 0
      → slot_at table' r ≡ slot_at table' q
      → r ≡ q
  written_unique fits r q hr hq taken same = elim (ℕ_discrete r p) [
    | yes e ↦ elim (ℕ_discrete q p) [
      | yes f ↦ e ∙ sym f
      | no f ↦
          absurd
            (not_twice q hq f (sym (slot_other q f) ∙ sym same ∙ ap (slot_at table') e ∙ slot_self))
    ]
    | no e ↦ elim (ℕ_discrete q p) [
      | yes f ↦
          absurd
            (not_twice r hr e (sym (slot_other r e) ∙ same ∙ ap (slot_at table') f ∙ slot_self))
      | no f ↦
          unique r q hr hq (λ z. taken (slot_other r e ∙ z))
            (sym (slot_other r e) ∙ same ∙ slot_other q f)
    ]
  ]
    where
      not_twice : (q : ℕ) → q < length table → q ≢ p → slot_at table q ≢ slot
      not_twice q hq ne e = elim fits [
        | inl here ↦ ne (unique q p hq hp (λ z. proper (sym e ∙ z)) (e ∙ sym here))
        | inr (none_there, before, alone) ↦ alone q hq e
      ]

  pub written-IsValid : Fits → IsValid table' k
  written-IsValid fits = record {
    small = small;
    power = same_length ∙ power;
    reach = rw same_length (written-reach fits);
    unique = rw same_length (written_unique fits);
  }

  written-Holds : Holds table' slot head
  written-Holds =
      (p, rw same_length hp, slot_self, ap (λ b. b.head) (bucket-written_self table p hp entry))

  module _ (fits : Fits) (other : ℕ) (ne : other ≢ slot) (some_slot : other ≢ 0) where
    Holds-written : (h : ℕ) → Holds table other h → Holds table' other h
    Holds-written h (q, hq, e, e') = (
      q,
      rw same_length hq,
      slot_other q apart ∙ e,
      ap (λ b. b.head) (bucket-written_ne table p hp entry q apart) ∙ e',
    )
      where
        apart : q ≢ p
        apart f = elim fits [
          | inl here ↦ ne (sym e ∙ ap (slot_at table) f ∙ here)
          | inr (none_there, before, alone) ↦ some_slot (sym e ∙ ap (slot_at table) f ∙ none_there)
        ]

    written-Holds_other : (h : ℕ) → Holds table' other h → Holds table other h
    written-Holds_other h (q, hq, e, e') = (
      q,
      rw same_length at hq,
      sym (slot_other q apart) ∙ e,
      sym (ap (λ b. b.head) (bucket-written_ne table p hp entry q apart)) ∙ e',
    )
      where
        apart : q ≢ p
        apart f = ne (sym e ∙ ap (slot_at table') f ∙ slot_self)

  written-lookup :
      Fits
      → (other : ℕ) → other ≢ 0
      → head_for_slot table' other
        ≡ (if other == slot then ok (head, true) else head_for_slot table other)
  written-lookup fits other some_slot = elim (ℕ_discrete other slot) [
    | yes e ↦
        rw (e, ==_refl slot)
          (head_for_slot-Holds (written-IsValid fits) slot proper head written-Holds)
    | no ne ↦ rw (==_ne other slot ne) (
        same_lookup (written-IsValid fits) valid other some_slot
          (written-Holds_other fits other ne some_slot) (Holds-written fits other ne some_slot))
  ]

-- Inserting a slot other than 0 into a valid table either fails with `no_space`, and then every
-- bucket has another slot, or gives a valid table in which the slot is looked up with its new head
-- and every other slot as before.
pub insert-lookup :
    {table : List Bucket} {k : ℕ}
    → IsValid table k
    → (slot head : ℕ) → slot ≢ 0
    → ((insert table slot head ≡ err no_space)
        × ((q : ℕ) → q < length table → (slot_at table q ≢ 0) × (slot_at table q ≢ slot)))
      ⊎ ((table' : List Bucket) × (insert table slot head ≡ ok table')
          × IsValid table' k
          × ((other : ℕ)
              → other ≢ 0
              → head_for_slot table' other
                ≡ (if other == slot then ok (head, true) else head_for_slot table other)))
unfolding insert
insert-lookup {table} {k} valid slot head proper =
    elim (find_slot_bucket-Found table slot k valid.small valid.power proper) [
      | there p hp e r ↦ inr (
        set table p (record { slot = slot; head = head }),
        rw (r, insert) refl,
        written-IsValid valid slot head proper p hp (inl e),
        written-lookup valid slot head proper p hp (inl e),
      )
      | free p hp e before r ↦
          let fits : Fits valid slot head proper p hp =
            inr (e, before, free-absent valid slot proper p hp e before) in
          inr (
            set table p (record { slot = slot; head = head }),
            rw (r, insert) refl,
            written-IsValid valid slot head proper p hp fits,
            written-lookup valid slot head proper p hp fits,
          )
      | full all r ↦ inl (
        rw (r, insert) refl,
        λ q hq. all q hq (
            dist-lt (length table) (bucket_for (length table) slot) q
              (bucket_for-lt (length table) k valid.power valid.small slot) hq),
      )
    ]
