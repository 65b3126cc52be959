-- ===== src/Hash/Capacity.antt =====
-- The number of buckets of a new table of uclib/hash.c, and the new table.
use native.Mathlib.Nat.{pow-le-pow_right}
use uclib.Base.{
  ℕ, suc, ◌+◌, ◌^◌, ◌≤◌, ◌<◌, max, ◌≡◌, refl, ◌∙◌, inl, inr, true, Bool-cases, arith, ltb, length,
  length-replicate, none,
}
use uclib.Word.{min_log2, shl}
use uclib.Word.Bits.{pow_double, pow_lt}
use uclib.Word.MaxPow2.{min_log2_le, min_log2_lt}
use uclib.Hash.{Keys, Flags, Bucket, empty, max_log2, int_shl, capacity, create, hash_foreach_pair}
use uclib.Hash.Pairs.{IsKeys, find}
use uclib.Hash.Places.{IsPlaced-replicate, bucket_pairs-replicate}
use uclib.Hash.Tables.{IsTable, at}

pub log_le : (a b : ℕ) → 2 ^ a ≤ 2 ^ b → a ≤ b
log_le a b h = elim (Bool-cases (ltb b a)) [
  | inl less ↦ absurd (omega (arith, pow_lt b a (ground (arith, less)), h))
  | inr done ↦ ground (arith, done)
]

pub log_lt : (a b : ℕ) → 2 ^ a < 2 ^ b → a < b
log_lt a b h = elim (Bool-cases (ltb a b)) [
  | inl less ↦ ground (arith, less)
  | inr done ↦
      let le : 2 ^ b ≤ 2 ^ a = pow-le-pow_right (omega arith) {i = b} (ground (arith, done)) in
      absurd (omega (arith, le, h))
]

-- The number of buckets is a power of two that is not below the number of elements.
pub record IsCapacity (n c : ℕ) : Type 0 where
  pub log2 : ℕ
  pub pow : c ≡ 2 ^ log2
  pub least : 6 ≤ log2
  pub most : log2 ≤ 30
  pub enough : n ≤ c

max_log2-IsCapacity : (x : ℕ) → 64 ≤ x → x ≤ 2 ^ 30 → IsCapacity x (int_shl (max_log2 x))
unfolding max_log2 int_shl
max_log2-IsCapacity x lo hi =
    let l = min_log2 x in
    let le = min_log2_le x (omega arith) in
    let lt = min_log2_lt x (omega arith) in
    let small : shl 1 l ≡ 2 ^ l = omega (arith, le) in
    rw small (elim (Bool-cases (ltb (2 ^ l) x)) [
      | inl less ↦
          let top : l < 30 = log_lt l 30 (ground (arith, less)) in
          let bottom : 6 < suc l = log_lt 6 (suc l) (omega (arith, lt, pow_double l)) in
          let fits : ltb (l + 1) 31 ≡ true = ground (arith, top) in
          rw (less, fits)
            (record {
              log2 = l + 1;
              pow = refl;
              least = omega (arith, bottom);
              most = omega (arith, top);
              enough =
                  let e : l + 1 ≡ suc l = omega arith in rw e (omega (arith, pow_double l, lt));
            })
      | inr same ↦
          let e : x ≡ 2 ^ l = ground (arith, same, le) in
          let top : l ≤ 30 = log_le l 30 (omega (arith, le)) in
          let fits : ltb l 31 ≡ true = ground (arith, top) in
          rw (same, fits)
            (record {
              log2 = l;
              pow = refl;
              least = log_le 6 l (omega (arith, e));
              most = top;
              enough = omega (arith, e);
            })
    ])

pub capacity-IsCapacity : (n : ℕ) → n ≤ 2 ^ 30 → IsCapacity n (capacity n)
unfolding capacity
capacity-IsCapacity n h =
    let c = max_log2-IsCapacity (max n 64) (omega arith) (omega arith) in
    record {
      log2 = c.log2;
      pow = c.pow;
      least = c.least;
      most = c.most;
      enough = omega (arith, c.enough);
    }

module _ {ℓ} (V : Type ℓ) (n : ℕ) (h : n ≤ 2 ^ 30) (flags : Flags) (keys : Keys) where
  pub length-create : IsCapacity n (length (create {V = V} n flags keys).buckets)
  unfolding create
  length-create = rw (length-replicate {A = Bucket V} (capacity n) empty) (capacity-IsCapacity n h)

  pub create-IsTable : (laws : IsKeys keys) → IsTable (create {V = V} n flags keys)
  unfolding create hash_foreach_pair
  create-IsTable laws =
      let c = capacity-IsCapacity n h in
      record {
        laws = laws;
        log2_capacity = c.log2;
        size = length-replicate (capacity n) empty ∙ c.pow;
        least = c.least;
        most = c.most;
        placed = IsPlaced-replicate V keys _ 0 (capacity n);
        counted = rw (bucket_pairs-replicate {V = V} (capacity n)) refl;
      }

pub at-create {ℓ} :
    (V : Type ℓ) (n : ℕ) (flags : Flags) (keys : Keys) (j : ℕ)
    → at (create {V = V} n flags keys) j ≡ none
unfolding create at hash_foreach_pair find
at-create V n flags keys j = rw (bucket_pairs-replicate {V = V} (capacity n)) refl
