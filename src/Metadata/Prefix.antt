-- ===== src/Metadata/Prefix.antt =====
-- The name of a file that was written is read again, and reading the root of a file ends.
use fastffs.Prelude.{
  ℕ, suc, ◌+◌, ◌-◌, ◌≤◌, ◌≡◌, refl, ap, ◌∙◌, arith, List, [], ◌∷◌, ◌++◌, false, ◌||◌, ◌==◌, ltb,
  leb, ltb_ge, take, length, get_or-append_right,
}
use fastffs.Status.{ok}
use fastffs.Bytes.{byte, u8, u16}
use fastffs.Metadata.Root.{root_prefix_bytes, root_prefix}

take-append : (xs ys : List ℕ) → take (length xs) (xs ++ ys) ≡ xs
take-append [] ys = refl
take-append (x ∷ xs) ys = ap (λ zs. x ∷ zs) (take-append xs ys)

append_assoc : (xs ys zs : List ℕ) → (xs ++ ys) ++ zs ≡ xs ++ (ys ++ zs)
append_assoc [] ys zs = refl
append_assoc (x ∷ xs) ys zs = ap (λ ws. x ∷ ws) (append_assoc xs ys zs)

-- The prefix that a new file gets is read as its name, with the payload right behind it, where the
-- name has 1 to 32 bytes and the extent and the bytes read of it have the whole prefix.
pub root_prefix-root_prefix_bytes :
    (name payload : List ℕ) (data_off data_len nread : ℕ)
    → 1 ≤ length name
    → length name ≤ 32
    → length name + 2 ≤ data_len
    → length name + 2 ≤ nread
    → root_prefix data_off data_len nread false (root_prefix_bytes name ++ payload)
      ≡ ok (record {
        name = name;
        payload_data_off = u16 (data_off + (length name + 2));
        payload_data_len = u16 (data_len - (length name + 2));
        cached = [];
      })
unfolding root_prefix root_prefix_bytes
root_prefix-root_prefix_bytes name payload data_off data_len nread lo hi extent whole =
    rw
      (
        append_assoc name (0 ∷ []) payload,
        small (length name) hi,
        no_vmeta,
        accepted (length name) lo hi extent whole,
        behind (length name),
        ltb_ge data_len (length name + 2) extent,
        take-append name (0 ∷ payload),
      )
      refl
  where
    small : (n : ℕ) → n ≤ 32 → u8 n ≡ n
    small n h = omega arith

    behind : (n : ℕ) → 1 + n + 1 + 0 ≡ n + 2
    behind n = omega arith

    accepted :
        (n : ℕ)
        → 1 ≤ n
        → n ≤ 32
        → n + 2 ≤ data_len
        → n + 2 ≤ nread
        → (n == 0 || ltb 32 n || leb data_len (1 + n) || leb nread (1 + n)) ≡ false
    accepted n lo hi extent whole = ground arith

    no_vmeta : byte (length name ∷ name ++ 0 ∷ payload) (1 + length name) ≡ 0
    no_vmeta =
        ap (byte (length name ∷ name ++ 0 ∷ payload)) (place (length name))
        ∙ get_or-append_right name (0 ∷ payload) 0 0
      where
        place : (n : ℕ) → 1 + n ≡ suc (n + 0)
        place n = omega arith
