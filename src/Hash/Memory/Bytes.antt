-- ===== src/Hash/Memory/Bytes.antt =====
-- The sum of a memory: `hash_memory64` of uclib/hash.c reads words beyond the last byte, and cuts
-- off what it should not see.
use native.Mathlib.Nat.{add-mul-mod_self_left}
use uclib.Base.{
  ℕ, zero, suc, ◌+◌, ◌-◌, ◌*◌, ◌/◌, ◌%◌, ◌^◌, ◌≤◌, ◌<◌, ◌≡◌, ◌≢◌, refl, sym, ◌∙◌, ap, ap₂, inl, inr,
  Bool-cases, arith, leb, ◌==◌,
}
use uclib.Word.Bits.{bit_and_mask, pow_add, pow_pos, pow_lt, shl_one}
use uclib.Hash.{Mix, mix64, golden}
use uclib.Hash.Memory.{
  load, masks_little_endian, zap64, Blocks, block, blocks, last_words, add_length, hash_memory,
}

regroup : (x a k l : ℕ) → x + 256 * (a + k * l) ≡ x + 256 * a + 2 ^ 8 * k * l
regroup x a k l = grind arith

load-add :
    (a b : ℕ) (p : ℕ → ℕ) (q : ℕ) → load (a + b) p q ≡ load a p q + 2 ^ (8 * a) * load b p (q + a)
unfolding load
load-add zero b p q =
    let e : 0 + b ≡ b = omega arith in let e2 : q + 0 ≡ q = omega arith in rw (e, e2) (omega arith)
load-add (suc a) b p q =
    let e : suc a + b ≡ suc (a + b) = omega arith in
    let e2 : q + suc a ≡ q + 1 + a = omega arith in
    let e3 : 8 * suc a ≡ 8 + 8 * a = omega arith in
    rw (e, e2, e3, pow_add 8 (8 * a))
      (ap (λ (t : ℕ). p q + 256 * t) (load-add a b p (q + 1))
        ∙ regroup (p q) (load a p (q + 1)) (2 ^ (8 * a)) (load b p (q + 1 + a)))

mask_lem : (n : ℕ) → n < 8 → masks_little_endian n ≡ 2 ^ (8 * n) - 1
unfolding masks_little_endian
mask_lem n h = elim (Bool-cases (n == 0)) [
  | inl none ↦ let e : n ≡ 0 = ground (arith, none) in rw e refl
  | inr some ↦
      let top : 2 ^ (8 * n) < 2 ^ 64 = pow_lt (8 * n) 64 (omega arith) in
      rw (some, shl_one (8 * n) (omega arith)) (omega (arith, top, pow_pos (8 * n)))
]

-- A word cut to `n` bytes shows only these.
zap64-load : (n : ℕ) (p : ℕ → ℕ) (q : ℕ) → n < 8 → zap64 (load 8 p q) n ≡ load n p q % 2 ^ (8 * n)
unfolding zap64
zap64-load n p q h =
    let e : 8 ≡ n + (8 - n) = omega arith in
    rw (mask_lem n h, bit_and_mask (8 * n) (load 8 p q))
      (ap (λ (w : ℕ). load w p q % 2 ^ (8 * n)) e
        ∙ (ap (λ (t : ℕ). t % 2 ^ (8 * n)) (load-add n (8 - n) p q)
            ∙ add-mul-mod_self_left (load n p q) (2 ^ (8 * n)) (load (8 - n) p (q + n))))

-- Two memories with the same first `len` bytes.
module _ (len : ℕ) (p p' : ℕ → ℕ) (same : (i : ℕ) → i < len → p i ≡ p' i) where
  load-same : (w q : ℕ) → q + w ≤ len → load w p q ≡ load w p' q
  unfolding load
  load-same zero q h = refl
  load-same (suc w) q h =
      ap₂ (λ (x y : ℕ). x + 256 * y) (same q (omega arith)) (load-same w (q + 1) (omega arith))

  block-same : (s : Blocks) → s.q + 24 ≤ len → block p s ≡ block p' s
  unfolding block
  block-same s h =
      rw
        (
          load-same 8 s.q (omega arith),
          load-same 8 (s.q + 8) (omega arith),
          load-same 8 (s.q + 16) (omega arith),
        )
        refl

  blocks-same : (fuel : ℕ) (s : Blocks) → s.q + s.n ≤ len → blocks fuel p s ≡ blocks fuel p' s
  unfolding blocks
  blocks-same zero s h = refl
  blocks-same (suc fuel) s h = elim (Bool-cases (leb 24 s.n)) [
    | inl more ↦
        let le : 24 ≤ s.n = ground (arith, more) in
        rw more (
          blocks-same fuel (block p s) (unfold block in omega (arith, le, h))
          ∙ ap (blocks fuel p') (block-same s (omega (arith, le, h))))
    | inr few ↦ rw few refl
  ]

  part-same : (n q : ℕ) → n < 8 → q + n ≤ len → zap64 (load 8 p q) n ≡ zap64 (load 8 p' q) n
  part-same n q lt h =
      zap64-load n p q lt
      ∙ (ap (λ (t : ℕ). t % 2 ^ (8 * n)) (load-same n q h) ∙ sym (zap64-load n p' q lt))

  last_words-same : (s : Blocks) → s.q + s.n ≤ len → s.n < 24 → last_words p s ≡ last_words p' s
  unfolding last_words
  last_words-same s h lt = elim (Bool-cases (s.n / 8 == 2)) [
    | inl two ↦
        let e : s.n / 8 ≡ 2 = ground (arith, two) in
        rw
          (
            two,
            load-same 8 (s.q + 8 * 0) (omega (arith, e)),
            load-same 8 (s.q + 8 * 1) (omega (arith, e)),
            part-same (s.n % 8) (s.q + 8 * 2) (omega arith) (omega (arith, e)),
          )
          refl
    | inr other ↦ rw other (elim (Bool-cases (s.n / 8 == 1)) [
      | inl one ↦
          let e : s.n / 8 ≡ 1 = ground (arith, one) in
          rw
            (
              one,
              load-same 8 (s.q + 8 * 0) (omega (arith, e)),
              part-same (s.n % 8) (s.q + 8 * 1) (omega arith) (omega (arith, e)),
            )
            refl
      | inr none ↦
          let e : s.n / 8 ≢ 2 = ground (arith, other) in
          let e1 : s.n / 8 ≢ 1 = ground (arith, none) in
          rw (none, part-same (s.n % 8) (s.q + 8 * 0) (omega arith) (omega (arith, e, e1, lt, h)))
            refl
    ])
  ]

-- What the loop leaves is less than a block.
blocks_left :
    (fuel : ℕ) (p : ℕ → ℕ) (s : Blocks)
    → s.n < 24 + fuel
    → ((blocks fuel p s).q + (blocks fuel p s).n ≡ s.q + s.n) × ((blocks fuel p s).n < 24)
unfolding blocks
blocks_left zero p s h = (refl, omega arith)
blocks_left (suc fuel) p s h = elim (Bool-cases (leb 24 s.n)) [
  | inl more ↦
      let le : 24 ≤ s.n = ground (arith, more) in
      let r = blocks_left fuel p (block p s) (unfold block in omega (arith, le, h)) in
      rw more (r.0 ∙ unfold block in omega (arith, le), r.1)
  | inr few ↦ rw few (refl, ground (arith, few))
]

-- The sum of `n_bytes` bytes depends on these bytes only, whatever stands behind them.
pub hash_memory-bytes :
    (p p' : ℕ → ℕ) (n_bytes state : ℕ)
    → ((i : ℕ) → i < n_bytes → p i ≡ p' i)
    → hash_memory p n_bytes state ≡ hash_memory p' n_bytes state
unfolding hash_memory mix64
hash_memory-bytes p p' n_bytes state same =
    let init : Blocks = record {
      q = 0;
      n = n_bytes;
      mix = record { a = golden; b = golden; c = state };
    } in
    let left = blocks_left n_bytes p' init (omega arith) in
    let s = blocks n_bytes p' init in
    rw (blocks-same n_bytes p p' same n_bytes init (omega arith)) (
      ap (λ (m : Mix). (mix64 m).c)
        (last_words-same n_bytes p p' same (add_length n_bytes s)
          (unfold add_length in omega (arith, left.0)) (unfold add_length in left.1)))
