-- ===== src/Fifo/Copies.antt =====
-- The one or two copies of `clib_fifo_add`: up to the end of the vector, and on from its start.
use uclib.Base.{
  ℕ, ◌+◌, ◌-◌, ◌≤◌, ◌<◌, ◌≡◌, refl, ◌∙◌, ap, ◌⊎◌, inl, inr, true, Bool-cases, List, arith, ltb, leb,
  if◌then◌else◌, length, get_or, take, drop, memcpy, length-take, length-drop, length-memcpy,
  get_or-take, get_or-drop, get_or-memcpy_before, get_or-memcpy_inside, get_or-memcpy_behind,
}
use uclib.Fifo.{wrap}

-- The elements that do not fit behind index `i`.
abbrev pub n_over : ℕ → ℕ → ℕ → ℕ
n_over i k l = if ltb (i + k) l then 0 else i + k - l

-- Indices of a ring of length `l` with `n` elements from `h` on and `k` to come from `t` on.
module _ (l h n k t : ℕ) (head : h ≤ l - 1) (room : k + n ≤ l) (pos : 0 < k)
    (tail : t ≡ wrap l (h + n)) where
  pub over_le : (j : ℕ) → j < n → n_over t k l ≤ wrap l (h + j)
  unfolding wrap
  over_le j lt = ground (arith, head, room, pos, tail)

  pub apart : (j : ℕ) → j < n → (wrap l (h + j) < t) ⊎ (t + k ≤ wrap l (h + j))
  unfolding wrap
  apart j lt = elim (Bool-cases (ltb (wrap l (h + j)) t)) [
    | inl before ↦ inl (ground (arith, before))
    | inr behind ↦ inr (ground (arith, head, room, pos, tail, behind))
  ]

  pub wrap_twice : (j : ℕ) → j < k → wrap l (h + n + j) ≡ wrap l (t + j)
  unfolding wrap
  wrap_twice j lt = ground (arith, head, room, pos, tail)

module _ {ℓ} {A : Type ℓ} where
  -- `n1` elements go to the start.
  abbrev pub copies : List A → ℕ → List A → ℕ → List A
  copies xs i e n1 =
      let n0 = length e - n1 in
      let once = memcpy xs i (take n0 e) in
      if ltb 0 n1 then memcpy once 0 (take n1 (drop n0 e)) else once

  module _ (xs e : List A) (i n1 : ℕ) (inside : i < length xs) (fits : length e ≤ length xs)
      (over : n1 ≡ n_over i (length e) (length xs)) where
    n1_le : n1 ≤ length e
    n1_le = ground (arith, over, inside)

    length-front : length (take (length e - n1) e) ≡ length e - n1
    length-front = length-take (length e - n1) e (omega arith)

    length-back : length (take n1 (drop (length e - n1) e)) ≡ n1
    length-back =
        length-take n1 (drop (length e - n1) e)
          (omega (arith, length-drop (length e - n1) e, n1_le))

    front_fits : i + length (take (length e - n1) e) ≤ length xs
    front_fits = ground (arith, over, inside, length-front)

    length-once : length (memcpy xs i (take (length e - n1) e)) ≡ length xs
    length-once = length-memcpy xs i (take (length e - n1) e) front_fits

    back_fits :
        0 + length (take n1 (drop (length e - n1) e))
        ≤ length (memcpy xs i (take (length e - n1) e))
    back_fits = omega (arith, length-back, length-once, n1_le)

    pub length-copies : length (copies xs i e n1) ≡ length xs
    length-copies = elim (Bool-cases (ltb 0 n1)) [
      | inl two ↦
          rw two (length-memcpy _ 0 (take n1 (drop (length e - n1) e)) back_fits ∙ length-once)
      | inr one ↦ rw one length-once
    ]

    -- A read behind the elements that went to the start.
    get_or-once :
        (d : A) (p : ℕ)
        → n1 ≤ p
        → get_or (copies xs i e n1) p d ≡ get_or (memcpy xs i (take (length e - n1) e)) p d
    get_or-once d p h = elim (Bool-cases (ltb 0 n1)) [
      | inl two ↦ rw two (
          get_or-memcpy_behind (memcpy xs i (take (length e - n1) e)) 0
            (take n1 (drop (length e - n1) e)) p d back_fits (omega (arith, length-back)))
      | inr one ↦ rw one refl
    ]

    -- Element `j` of the new ones.
    pub get_or-copies_new :
        (d : A) (j : ℕ)
        → j < length e
        → get_or (copies xs i e n1) (wrap (length xs) (i + j)) d ≡ get_or e j d
    unfolding wrap
    get_or-copies_new d j lt = elim (Bool-cases (leb (length xs) (i + j))) [
      | inl behind ↦
          let over_end : length xs ≤ i + j = ground (arith, behind) in
          let sum : n1 + length xs ≡ i + length e = ground (arith, over, over_end) in
          let two : ltb 0 n1 ≡ true = ground (arith, sum) in
          rw (behind, two)
            (get_or-memcpy_inside (memcpy xs i (take (length e - n1) e)) 0
                (take n1 (drop (length e - n1) e)) (i + j - length xs) d back_fits (omega arith)
                (omega (arith, length-back, sum))
              ∙ (get_or-take n1 (drop (length e - n1) e) (i + j - length xs - 0) d
                    (omega (arith, sum, over_end))
                  ∙ (get_or-drop (length e - n1) e (i + j - length xs - 0) d
                      ∙ ap (λ (t : ℕ). get_or e t d) (omega (arith, sum, over_end, inside)))))
      | inr before ↦
          let under : i + j < length xs = ground (arith, before) in
          rw before (
            get_or-once d (i + j) (ground (arith, over, fits))
            ∙ (get_or-memcpy_inside xs i (take (length e - n1) e) (i + j) d front_fits (omega arith)
                  (ground (arith, length-front, over, under))
                ∙ (get_or-take (length e - n1) e (i + j - i) d (ground (arith, over, under, inside))
                    ∙ ap (λ (t : ℕ). get_or e t d) (omega arith))))
    ]

    -- What is not written.
    pub get_or-copies_old :
        (d : A) (p : ℕ)
        → n1 ≤ p
        → (p < i) ⊎ (i + length e ≤ p)
        → get_or (copies xs i e n1) p d ≡ get_or xs p d
    get_or-copies_old d p h side = get_or-once d p h ∙ elim side [
      | inl before ↦ get_or-memcpy_before xs i (take (length e - n1) e) p d front_fits before
      | inr behind ↦
          get_or-memcpy_behind xs i (take (length e - n1) e) p d front_fits
            (omega (arith, length-front, behind))
    ]
