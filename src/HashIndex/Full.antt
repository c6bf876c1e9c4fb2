-- ===== src/HashIndex/Full.antt =====
-- `remove_bucket_at` in a table without an empty bucket.
use fastffs.Prelude.{
  ℕ, zero, suc, ◌-◌, ◌^◌, ◌≤◌, ◌<◌, ◌≡◌, ◌≢◌, refl, ap, ◌∙◌, sym, List, length, set, length-set,
  none, Bool, true, false, ltb, if◌then◌else◌, ==_ne,
}
use native.Mathlib.Decide.{ℕ_discrete}
use fastffs.HashIndex.{Bucket, bucket_at, bucket_for, probe_distance, shift_back, remove_bucket_at}
use fastffs.HashIndex.Cycle.{after, after-lt, next_bucket-after}
use fastffs.HashIndex.Find.{slot_at}
use fastffs.HashIndex.Insert.{bucket-written_self, bucket-written_ne}

shift_back_full :
    (fuel : ℕ)
    → (table : List Bucket) → (k : ℕ) → k ≤ 64
    → length table ≡ 2 ^ k
    → ((q : ℕ) → q < length table → slot_at table q ≢ 0)
    → (hole idx : ℕ) → hole < length table
    → idx < length table
    → shift_back fuel table hole idx ≡ none
unfolding shift_back
shift_back_full zero table k small power taken hole idx hh hi = refl
shift_back_full (suc fuel) table k small power taken hole idx hh hi =
    rw
      (
        ==_ne (slot_at table idx) 0 (taken idx hi),
        next_bucket-after (length table) k power small idx hi,
      )
      (either
        (ltb
          (probe_distance (length table - 1) (bucket_for (length table) (slot_at table idx)) hole)
          (probe_distance (length table - 1) (bucket_for (length table) (slot_at table idx)) idx))
        (shift_back_full fuel (set table hole (bucket_at table idx)) k small (same_length ∙ power)
          (rw same_length still) idx (after (length table) idx) (rw same_length hi)
          (rw same_length next_in))
        (shift_back_full fuel table k small power taken hole (after (length table) idx) hh next_in))
  where
    next_in : after (length table) idx < length table
    next_in = after-lt (length table) hole idx hh hi

    same_length : length (set table hole (bucket_at table idx)) ≡ length table
    same_length = length-set table hole (bucket_at table idx)

    still : (q : ℕ) → q < length table → slot_at (set table hole (bucket_at table idx)) q ≢ 0
    still q hq = elim (ℕ_discrete q hole) [
      | yes e ↦ λ z. taken idx hi (
          sym (ap (λ b. b.slot) (bucket-written_self table hole hh (bucket_at table idx)))
          ∙ ap (slot_at (set table hole (bucket_at table idx))) (sym e)
          ∙ z)
      | no ne ↦ λ z.
          taken q hq (
            sym (ap (λ b. b.slot) (bucket-written_ne table hole hh (bucket_at table idx) q ne)) ∙ z)
    ]

    either :
        (closer : Bool)
        → shift_back fuel (set table hole (bucket_at table idx)) idx (after (length table) idx)
          ≡ none
        → shift_back fuel table hole (after (length table) idx) ≡ none
        → shift_back fuel
            (if closer then set table hole (bucket_at table idx) else table)
            (if closer then idx else hole)
            (after (length table) idx)
          ≡ none
    either true moves stays = moves
    either false moves stays = stays

-- In a table of at most `2 ^ 64` buckets, a power of two, none of which is empty, the loop that
-- removes a bucket is still running after any number of rounds.
pub remove_bucket_at_full :
    (table : List Bucket) (k : ℕ)
    → k ≤ 64
    → length table ≡ 2 ^ k
    → ((q : ℕ) → q < length table → slot_at table q ≢ 0)
    → (remove_idx : ℕ) → remove_idx < length table
    → (rounds : ℕ) → remove_bucket_at rounds table remove_idx ≡ none
unfolding remove_bucket_at
remove_bucket_at_full table k small power taken p hp rounds =
    rw (next_bucket-after (length table) k power small p hp) (
      shift_back_full rounds table k small power taken p (after (length table) p) hp
        (after-lt (length table) p p hp hp))
