-- ===== src/Bitmap/Search/Found.antt =====
-- What the search loop returns, for a set bit and for a clear one alike.
use uclib.Base.{
  ℕ, zero, suc, ◌+◌, ◌-◌, ◌*◌, ◌/◌, ◌%◌, ◌^◌, ◌≤◌, ◌<◌, ◌≡◌, ap, Bool, true, false, Option, none,
  some, arith, ltb, ◌==◌, if◌then◌else◌, Bool-cases, inl, inr, length,
}
use uclib.Word.{shl, shr, log2_first_set}
use uclib.Word.Bits.{test_bit, test_bit-zero, test_bit-mod, test_bit-shl, test_bit-shr}
use uclib.Word.FirstSet.{log2_first_set_lem}
use uclib.Bitmap.{Bitmap, word_at}
use uclib.Bitmap.Search.{Look, scan, next_from}

abbrev pub look_at : Look → Bitmap → ℕ → Bool
look_at look ai j = test_bit (look (word_at ai (j / 64))) (j % 64)

-- The result of a search of the bits from `lo` to `hi`.
abbrev pub Found : Look → Bitmap → ℕ → ℕ → Option ℕ → Type 0
Found look ai lo hi (some r) =
    (lo ≤ r)
    × (r < hi)
    × (look_at look ai r ≡ true)
    × ((j : ℕ) → lo ≤ j → j < r → look_at look ai j ≡ false)
Found look ai lo hi none = (j : ℕ) → lo ≤ j → j < hi → look_at look ai j ≡ false

-- The word with its bits below `p` cleared.
test_bit-high :
    (x p k : ℕ) → k < 64 → test_bit (shl (shr x p) p) k ≡ (if ltb k p then false else test_bit x k)
test_bit-high x p k h =
    let e : p + (k - p) ≡ (if ltb k p then p else k) = ground arith in
    ground (
      arith,
      test_bit-mod 64 (x / 2 ^ p * 2 ^ p) k,
      test_bit-shl (x / 2 ^ p) p k,
      test_bit-shr x p (k - p),
      ap (test_bit x) e,
    )

module _ (look : Look) (ai : Bitmap) (fits : (j : ℕ) → look (word_at ai j) < 2 ^ 64) where
  Found-none_before :
      (lo mid hi : ℕ) (o : Option ℕ)
      → lo ≤ mid
      → ((j : ℕ) → lo ≤ j → j < mid → look_at look ai j ≡ false)
      → Found look ai mid hi o
      → Found look ai lo hi o
  Found-none_before lo mid hi none le before h = λ j p q. elim (Bool-cases (ltb j mid)) [
    | inl early ↦ before j p (ground arith)
    | inr late ↦ h j (ground arith) q
  ]
  Found-none_before lo mid hi (some r) le before h = (
    omega arith,
    h.1,
    h.2,
    λ j p q. elim (Bool-cases (ltb j mid)) [
      | inl early ↦ before j p (ground arith)
      | inr late ↦ h.3 j (ground arith) q
    ],
  )

  -- A word with a bit at position `p` or above and none before, seen from bit `lo` of it.
  Found-word :
      (i lo p hi : ℕ)
      → i * 64 ≤ lo
      → p < 64
      → lo ≤ i * 64 + p
      → i * 64 + p < hi
      → test_bit (look (word_at ai i)) p ≡ true
      → ((k : ℕ) → lo ≤ i * 64 + k → k < p → test_bit (look (word_at ai i)) k ≡ false)
      → Found look ai lo hi (some (i * 64 + p))
  Found-word i lo p hi h p_lt le lt bit below = (
    le,
    lt,
    (let q : (i * 64 + p) / 64 ≡ i = omega arith in
        let r : (i * 64 + p) % 64 ≡ p = omega arith in rw (q, r) bit),
    λ j a b. let q : j / 64 ≡ i = omega arith in rw q (below (j % 64) (omega arith) (omega arith)),
  )

  zero_word : (i j : ℕ) → look (word_at ai i) ≡ 0 → j / 64 ≡ i → look_at look ai j ≡ false
  zero_word i j z q = rw (q, z) (test_bit-zero (j % 64))

  pub scan-Found : (n i : ℕ) → Found look ai (i * 64) ((i + n) * 64) (scan look ai n i)
  unfolding scan
  scan-Found zero i = λ j p q. absurd (omega arith)
  scan-Found (suc n) i = elim (Bool-cases (look (word_at ai i) == 0)) [
    | inl z ↦
        let e : (i + 1 + n) * 64 ≡ (i + suc n) * 64 = omega arith in
        rw z (
          Found-none_before (i * 64) ((i + 1) * 64) ((i + suc n) * 64) (scan look ai n (i + 1))
            (omega arith) (λ j p q. zero_word i j (ground arith) (omega arith))
            (rw e at (scan-Found n (i + 1))))
    | inr nz ↦
        let l = log2_first_set_lem (look (word_at ai i)) (ground arith) (fits i) in
        rw nz (
          Found-word i (i * 64) (log2_first_set (look (word_at ai i))) ((i + suc n) * 64)
            (omega arith) l.0 (omega arith) (omega (arith, l.0)) l.1 (λ k p q. l.2 k q))
  ]

  pub next_from-Found : (i : ℕ) → Found look ai i (length ai * 64) (next_from look ai i)
  unfolding next_from
  next_from-Found i =
      let x = look (word_at ai (i / 64)) in
      let t = shl (shr x (i % 64)) (i % 64) in
      let high = test_bit-high x (i % 64) in
      elim (Bool-cases (ltb (i / 64) (length ai))) [
        | inl inside ↦ rw inside (elim (Bool-cases (t == 0)) [
          | inl z ↦
              let e : (i / 64 + 1 + (length ai - (i / 64 + 1))) * 64 ≡ length ai * 64 =
                ground arith in
              rw z (
                Found-none_before i ((i / 64 + 1) * 64) (length ai * 64) _ (omega arith)
                  (λ j p q.
                    let w : j / 64 ≡ i / 64 = omega arith in
                    rw w (
                      ground (
                        arith,
                        high (j % 64) (omega arith),
                        test_bit-zero (j % 64),
                        λ (h : t ≡ 0). ap (λ (u : ℕ). test_bit u (j % 64)) h,
                      )))
                  (rw e at (scan-Found (length ai - (i / 64 + 1)) (i / 64 + 1))))
          | inr nz ↦
              let l = log2_first_set_lem t (ground arith) (omega arith) in
              let p = log2_first_set t in
              let comm : p + i / 64 * 64 ≡ i / 64 * 64 + p = omega arith in
              rw (nz, comm)
                (Found-word (i / 64) i p (length ai * 64) (omega arith) l.0
                  (ground (arith, high p l.0, l.1)) (ground (arith, l.0))
                  (ground (arith, high p l.0, l.1)) (λ k a b. ground (arith, high k, l.0, l.2 k)))
        ])
        | inr outside ↦ rw outside (λ j p q. absurd (ground arith))
      ]
