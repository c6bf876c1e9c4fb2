-- ===== src/HashIndex/Move.antt =====
-- The two steps of the loop of `remove_bucket_at` that go on: the bucket stays, or fills the hole.
use fastffs.Prelude.{ℕ, ◌+◌, ◌≤◌, ◌<◌, ◌≡◌, ◌≢◌, ap, ◌∙◌, sym, arith, List, length, set, length-set}
use native.Mathlib.Decide.{ℕ_discrete, dec_lt}
use fastffs.HashIndex.{Bucket, bucket_at, bucket_for}
use fastffs.HashIndex.Cycle.{
  dist, dist-lt, dist_self, dist_inj, dist-after, dist-after_round, after, after-lt,
}
use fastffs.HashIndex.Find.{slot_at}
use fastffs.HashIndex.Lookup.{head_at}
use fastffs.HashIndex.Insert.{bucket-written_self, bucket-written_ne}
use fastffs.HashIndex.Shift.{Shifting, HoldsBeside, way}

-- What is before the bucket after `idx` is before `idx`, or is `idx`.
pub before_after :
    (size h idx p : ℕ)
    → h < size
    → idx < size
    → p < size
    → dist size h p < dist size h (after size idx)
    → p ≢ idx
    → dist size h p < dist size h idx
before_after size h idx p hh hi hp lt ne = elim (dec_lt (dist size h idx + 1) size) [
  | yes more ↦ omega (
    arith,
    dist-after size h idx hh hi more,
    λ (s : dist size h p ≡ dist size h idx). ne (dist_inj size h p idx hh hp hi s),
  )
  | no last ↦ absurd (
      omega (
        arith,
        rw
            (
              dist-after_round size h idx hh hi (omega (arith, dist-lt size h idx hh hi)),
              dist_self size h h hh hh,
            )
            at lt,
      ))
]

module _ {table : List Bucket} {k hole idx : ℕ} (s : Shifting table k hole idx)
    (taken : slot_at table idx ≢ 0) where
  open s use {small, power, hole_in, idx_in, filled, reach, unique, scanned}

  -- The bucket is as near to its home as it can get.
  pub stayed :
      way table idx idx ≤ way table idx hole → Shifting table k hole (after (length table) idx)
  stayed near = record {
    small = small;
    power = power;
    hole_in = hole_in;
    idx_in = after-lt (length table) hole idx hole_in idx_in;
    filled = filled;
    reach = reach;
    unique = unique;
    scanned = λ p hp apart full lt. elim (ℕ_discrete p idx) [
      | yes e ↦ rw e near
      | no ne ↦
          scanned p hp apart full (before_after (length table) hole idx p hole_in idx_in hp lt ne)
    ];
  }

  module _ (nearer : way table idx hole < way table idx idx) where
    abbrev moved : List Bucket
    moved = set table hole (bucket_at table idx)

    same_length : length moved ≡ length table
    same_length = length-set table hole (bucket_at table idx)

    idx-apart : idx ≢ hole
    idx-apart e = omega (arith, ap (way table idx) e)

    moved_self : bucket_at moved hole ≡ bucket_at table idx
    moved_self = bucket-written_self table hole hole_in (bucket_at table idx)

    moved_other : (q : ℕ) → q ≢ hole → bucket_at moved q ≡ bucket_at table q
    moved_other q ne = bucket-written_ne table hole hole_in (bucket_at table idx) q ne

    slot_self : slot_at moved hole ≡ slot_at table idx
    slot_self = ap (λ b. b.slot) moved_self

    pub moved_slot :
        (q : ℕ) → q ≢ hole → slot_at (set table hole (bucket_at table idx)) q ≡ slot_at table q
    moved_slot q ne = ap (λ b. b.slot) (moved_other q ne)

    still_taken : (q : ℕ) → slot_at table q ≢ 0 → slot_at moved q ≢ 0
    still_taken q full = elim (ℕ_discrete q hole) [
      | yes e ↦ λ z. taken (sym slot_self ∙ ap (slot_at moved) (sym e) ∙ z)
      | no ne ↦ λ z. full (sym (moved_slot q ne) ∙ z)
    ]

    moved-reach :
        (p q : ℕ)
        → p < length table
        → q < length table
        → slot_at moved p ≢ 0
        → dist (length table) (bucket_for (length table) (slot_at moved p)) q
          < dist (length table) (bucket_for (length table) (slot_at moved p)) p
        → slot_at moved q ≢ 0
    moved-reach p q hp hq full lt = elim (ℕ_discrete p hole) [
      | yes e ↦ still_taken q (reach idx q idx_in hq taken (omega (arith, rw (e, slot_self) at lt)))
      | no ne ↦
          still_taken q
            (reach p q hp hq (λ z. full (moved_slot p ne ∙ z)) (rw (moved_slot p ne) at lt))
    ]

    not_idx : (q : ℕ) → q < length table → q ≢ idx → q ≢ hole → slot_at table idx ≢ slot_at table q
    not_idx q hq apart apart' same =
        apart (sym (unique idx q idx_in hq idx-apart apart' taken same))

    moved_unique :
        (p q : ℕ)
        → p < length table
        → q < length table
        → p ≢ idx
        → q ≢ idx
        → slot_at moved p ≢ 0
        → slot_at moved p ≡ slot_at moved q
        → p ≡ q
    moved_unique p q hp hq p_ne q_ne full same = elim (ℕ_discrete p hole) [
      | yes e ↦ elim (ℕ_discrete q hole) [
        | yes f ↦ e ∙ sym f
        | no f ↦ absurd (
            not_idx q hq q_ne f
              (sym slot_self ∙ ap (slot_at moved) (sym e) ∙ same ∙ moved_slot q f))
      ]
      | no e ↦ elim (ℕ_discrete q hole) [
        | yes f ↦ absurd (
            not_idx p hp p_ne e
              (sym slot_self ∙ ap (slot_at moved) (sym f) ∙ sym same ∙ moved_slot p e))
        | no f ↦
            unique p q hp hq e f (λ z. full (moved_slot p e ∙ z))
              (sym (moved_slot p e) ∙ same ∙ moved_slot q f)
      ]
    ]

    -- The bucket fills the hole, and leaves one.
    pub moved-Shifting :
        Shifting (set table hole (bucket_at table idx)) k idx (after (length table) idx)
    moved-Shifting = record {
      small = small;
      power = same_length ∙ power;
      hole_in = rw same_length idx_in;
      idx_in = rw same_length (after-lt (length table) hole idx hole_in idx_in);
      filled = λ z. taken (sym (moved_slot idx idx-apart) ∙ z);
      reach = rw same_length moved-reach;
      unique = rw same_length moved_unique;
      scanned = rw same_length (λ p hp apart full lt. absurd (
          omega (
            arith,
            before_after (length table) idx idx p idx_in idx_in hp lt apart,
            dist_self (length table) idx idx idx_in idx_in,
          )));
    }

    pub moved-Holds :
        (slot head : ℕ)
        → HoldsBeside (set table hole (bucket_at table idx)) idx slot head
        → HoldsBeside table hole slot head
    moved-Holds slot head (p, hp, apart, e, e') = elim (ℕ_discrete p hole) [
      | yes f ↦ (
        idx,
        idx_in,
        idx-apart,
        sym slot_self ∙ ap (slot_at moved) (sym f) ∙ e,
        sym (ap (λ b. b.head) moved_self) ∙ ap (head_at moved) (sym f) ∙ e',
      )
      | no f ↦ (
        p,
        rw same_length at hp,
        f,
        sym (moved_slot p f) ∙ e,
        sym (ap (λ b. b.head) (moved_other p f)) ∙ e',
      )
    ]

    pub Holds-moved :
        (slot head : ℕ)
        → HoldsBeside table hole slot head
        → HoldsBeside (set table hole (bucket_at table idx)) idx slot head
    Holds-moved slot head (p, hp, apart, e, e') = elim (ℕ_discrete p idx) [
      | yes f ↦ (
        hole,
        rw same_length hole_in,
        (λ g. idx-apart (sym g)),
        slot_self ∙ ap (slot_at table) (sym f) ∙ e,
        ap (λ b. b.head) moved_self ∙ ap (head_at table) (sym f) ∙ e',
      )
      | no f ↦ (
        p,
        rw same_length hp,
        f,
        moved_slot p apart ∙ e,
        ap (λ b. b.head) (moved_other p apart) ∙ e',
      )
    ]
