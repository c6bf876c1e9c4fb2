-- ===== src/HashIndex/Shift.antt =====
-- The loop of `remove_bucket_at`: its invariant, and the step that ends it.
use fastffs.Prelude.{ℕ, ◌^◌, ◌≤◌, ◌<◌, ◌≡◌, ◌≢◌, ap, ◌∙◌, sym, arith, List, length, set, length-set}
use native.Mathlib.Decide.{ℕ_discrete, dec_lt}
use fastffs.HashIndex.{Bucket, bucket_at, empty_bucket, bucket_for}
use fastffs.HashIndex.Cycle.{dist, dist_inj, dist_on, dist_off, bucket_for-lt}
use fastffs.HashIndex.Find.{IsValid, slot_at}
use fastffs.HashIndex.Lookup.{Holds, head_at}
use fastffs.HashIndex.Insert.{bucket-written_self, bucket-written_ne}

-- The steps from the home of the entry in bucket `p` to bucket `q`.
abbrev pub way : List Bucket → ℕ → ℕ → ℕ
way table p q = dist (length table) (bucket_for (length table) (slot_at table p)) q

-- Between two rounds: what stands in `hole` is to go, and none of the entries that were scanned
-- after it has it on its way from home.
pub record Shifting (table : List Bucket) (k hole idx : ℕ) : Type 0 where
  pub small : k ≤ 64
  pub power : length table ≡ 2 ^ k
  pub hole_in : hole < length table
  pub idx_in : idx < length table
  pub filled : slot_at table hole ≢ 0
  pub reach :
      (p q : ℕ)
      → p < length table
      → q < length table
      → slot_at table p ≢ 0
      → way table p q < way table p p
      → slot_at table q ≢ 0
  pub unique :
      (p q : ℕ)
      → p < length table
      → q < length table
      → p ≢ hole
      → q ≢ hole
      → slot_at table p ≢ 0
      → slot_at table p ≡ slot_at table q
      → p ≡ q
  pub scanned :
      (p : ℕ)
      → p < length table
      → p ≢ hole
      → slot_at table p ≢ 0
      → dist (length table) hole p < dist (length table) hole idx
      → way table p p ≤ way table p hole

-- The table maps the slot to the head, but for what stands in the hole.
abbrev pub HoldsBeside : List Bucket → ℕ → ℕ → ℕ → Type 0
HoldsBeside table hole slot head =
    (p : ℕ) × (p < length table) × (p ≢ hole) × (slot_at table p ≡ slot) × (head_at table p ≡ head)

-- An empty bucket on the way from the hole to `r` is on the way from home to `r`.
on_the_way :
    (size h hole e r : ℕ)
    → h < size
    → hole < size
    → e < size
    → r < size
    → e ≢ r
    → dist size h hole < dist size h r
    → dist size hole e ≤ dist size hole r
    → dist size h e < dist size h r
on_the_way size h hole e r hh ho he hr apart lt le = elim (dec_lt (dist size h r) (dist size h e)) [
  | yes beyond ↦ absurd (
      omega (
        arith,
        dist_on size h hole r hh ho hr (omega arith),
        dist_on size hole e r ho he hr le,
        dist_off size h e r hh he hr beyond,
        dist_on size h hole e hh ho he (omega arith),
      ))
  | no within ↦
      omega (arith, λ (s : dist size h e ≡ dist size h r). apart (dist_inj size h e r hh he hr s))
]

module _ {table : List Bucket} {k hole idx : ℕ} (s : Shifting table k hole idx)
    (stop : slot_at table idx ≡ 0) where
  open s use {small, power, hole_in, idx_in, filled, reach, unique, scanned}

  abbrev cleared : List Bucket
  cleared = set table hole empty_bucket

  same_length : length cleared ≡ length table
  same_length = length-set table hole empty_bucket

  cleared_self : slot_at cleared hole ≡ 0
  cleared_self = ap (λ b. b.slot) (bucket-written_self table hole hole_in empty_bucket)

  cleared_other : (q : ℕ) → q ≢ hole → bucket_at cleared q ≡ bucket_at table q
  cleared_other q ne = bucket-written_ne table hole hole_in empty_bucket q ne

  slot_other : (q : ℕ) → q ≢ hole → slot_at cleared q ≡ slot_at table q
  slot_other q ne = ap (λ b. b.slot) (cleared_other q ne)

  not_hole : (q : ℕ) → slot_at cleared q ≢ 0 → q ≢ hole
  not_hole q taken e = taken (ap (slot_at cleared) e ∙ cleared_self)

  -- No entry has the hole on its way.
  hole_unused :
      (r : ℕ)
      → r < length table
      → r ≢ hole
      → slot_at table r ≢ 0
      → ¬ (way table r hole < way table r r)
  hole_unused r hr apart taken lt =
      elim (dec_lt (dist (length table) hole r) (dist (length table) hole idx)) [
        | yes before ↦ absurd (omega (arith, scanned r hr apart taken before))
        | no beyond ↦
            reach r idx hr idx_in taken
              (on_the_way (length table) (bucket_for (length table) (slot_at table r)) hole idx r
                (bucket_for-lt (length table) k power small (slot_at table r)) hole_in idx_in hr
                (λ e. taken (ap (slot_at table) (sym e) ∙ stop)) lt (omega arith))
              stop
      ]

  cleared-reach :
      (r q : ℕ)
      → r < length table
      → q < length table
      → slot_at cleared r ≢ 0
      → dist (length table) (bucket_for (length table) (slot_at cleared r)) q
        < dist (length table) (bucket_for (length table) (slot_at cleared r)) r
      → slot_at cleared q ≢ 0
  cleared-reach r q hr hq taken lt = elim (ℕ_discrete q hole) [
    | yes e ↦ absurd (hole_unused r hr apart taken' (rw e at lt'))
    | no ne ↦ λ z. reach r q hr hq taken' lt' (sym (slot_other q ne) ∙ z)
  ]
    where
      apart : r ≢ hole
      apart = not_hole r taken

      taken' : slot_at table r ≢ 0
      taken' z = taken (slot_other r apart ∙ z)

      lt' : way table r q < way table r r
      lt' = rw (slot_other r apart) at lt

  cleared_unique :
      (r q : ℕ)
      → r < length table
      → q < length table
      → slot_at cleared r ≢ 0
      → slot_at cleared r ≡ slot_at cleared q
      → r ≡ q
  cleared_unique r q hr hq taken same =
      unique r q hr hq apart apart' (λ z. taken (slot_other r apart ∙ z))
        (sym (slot_other r apart) ∙ same ∙ slot_other q apart')
    where
      apart : r ≢ hole
      apart = not_hole r taken

      apart' : q ≢ hole
      apart' = not_hole q (λ z. taken (same ∙ z))

  pub cleared-IsValid : IsValid (set table hole empty_bucket) k
  cleared-IsValid = record {
    small = small;
    power = same_length ∙ power;
    reach = rw same_length cleared-reach;
    unique = rw same_length cleared_unique;
  }

  pub cleared-Holds :
      (slot head : ℕ)
      → slot ≢ 0
      → Holds (set table hole empty_bucket) slot head
      → HoldsBeside table hole slot head
  cleared-Holds slot head proper (q, hq, e, e') = (
    q,
    rw same_length at hq,
    apart,
    sym (slot_other q apart) ∙ e,
    sym (ap (λ b. b.head) (cleared_other q apart)) ∙ e',
  )
    where
      apart : q ≢ hole
      apart = not_hole q (λ z. proper (sym e ∙ z))

  pub Holds-cleared :
      (slot head : ℕ)
      → HoldsBeside table hole slot head
      → Holds (set table hole empty_bucket) slot head
  Holds-cleared slot head (q, hq, apart, e, e') =
      (q, rw same_length hq, slot_other q apart ∙ e, ap (λ b. b.head) (cleared_other q apart) ∙ e')
