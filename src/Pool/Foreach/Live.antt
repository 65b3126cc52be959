-- ===== src/Pool/Foreach/Live.antt =====
-- The indices in use between two bounds, and the regions that cover them.
use uclib.Base.{
  append-nil, append_assoc, ℕ, zero, suc, ◌+◌, ◌-◌, ◌≤◌, ◌<◌, ◌≡◌, refl, sym, ◌∙◌, ap, true, false,
  not, List, [], ◌∷◌, ◌++◌, arith, if◌then◌else◌, Bool-cases, inl, inr, range,
}
use uclib.Bitmap.{Bitmap, get}
use uclib.Pool.{visited}

-- The clear bits among the `n` from `lo` on.
unfoldable pub live : Bitmap → ℕ → ℕ → List ℕ
live b lo zero = []
live b lo (suc n) = let rest = live b (lo + 1) n in if not (get b lo) then lo ∷ rest else rest

pub live-clear :
    (b : Bitmap) (lo n : ℕ)
    → ((j : ℕ) → lo ≤ j → j < lo + n → get b j ≡ false)
    → live b lo n ≡ range lo n
unfolding live
live-clear b lo zero h = refl
live-clear b lo (suc n) h = rw (h lo (omega arith) (omega arith)) (
    ap (λ (t : List ℕ). lo ∷ t)
      (live-clear b (lo + 1) n (λ j p q. h j (omega arith) (omega arith))))

pub live-append : (b : Bitmap) (lo n m : ℕ) → live b lo (n + m) ≡ live b lo n ++ live b (lo + n) m
unfolding live
live-append b lo zero m =
    let e : 0 + m ≡ m = omega arith in let k : lo + 0 ≡ lo = omega arith in rw (e, k) refl
live-append b lo (suc n) m =
    let e : suc n + m ≡ suc (n + m) = omega arith in
    let k : lo + 1 + n ≡ lo + suc n = omega arith in
    rw e (
      rw (live-append b (lo + 1) n m, k)
        (elim (Bool-cases (get b lo)) [ inl h ↦ rw h refl | inr h ↦ rw h refl ]))

pub visited-append : (rs ss : List (ℕ × ℕ)) → visited (rs ++ ss) ≡ visited rs ++ visited ss
unfolding visited
visited-append [] ss = refl
visited-append ((lo, hi) ∷ rs) ss =
    rw (visited-append rs ss) (sym (append_assoc (range lo (hi - lo)) (visited rs) (visited ss)))

-- `xs` are the clear bits from `lo` to `lo'`.
unfoldable pub Covers : Bitmap → ℕ → ℕ → List ℕ → Type 0
Covers b lo lo' xs = (lo ≤ lo') × (xs ≡ live b lo (lo' - lo))

pub Covers-append :
    (b : Bitmap) (lo mid hi : ℕ) (xs ys : List ℕ)
    → Covers b lo mid xs
    → Covers b mid hi ys
    → Covers b lo hi (xs ++ ys)
unfolding Covers
Covers-append b lo mid hi xs ys h k =
    let e : (mid - lo) + (hi - mid) ≡ hi - lo = omega (arith, h.0, k.0) in
    let m : lo + (mid - lo) ≡ mid = omega (arith, h.0) in
    (
      omega (arith, h.0, k.0),
      rw (h.1, k.1) (sym (rw (e, m) at (live-append b lo (mid - lo) (hi - mid)))),
    )

pub Covers-region :
    (b : Bitmap) (lo hi : ℕ)
    → lo ≤ hi
    → ((j : ℕ) → lo ≤ j → j < hi → get b j ≡ false)
    → Covers b lo hi (range lo (hi - lo))
unfolding Covers
Covers-region b lo hi h clear =
    (h, sym (live-clear b lo (hi - lo) (λ j p q. clear j p (omega arith))))

-- With the bit at the end of a region set, the region covers that bit too.
pub Covers-past :
    (b : Bitmap) (lo hi : ℕ) (xs : List ℕ)
    → Covers b lo hi xs
    → get b hi ≡ true
    → Covers b lo (hi + 1) xs
unfolding Covers live
Covers-past b lo hi xs c h =
    let e : (hi - lo) + 1 ≡ hi + 1 - lo = omega (arith, c.0) in
    let m : lo + (hi - lo) ≡ hi = omega (arith, c.0) in
    let last : live b (lo + (hi - lo)) 1 ≡ [] = rw (m, h) refl in
    (
      omega (arith, c.0),
      c.1
          ∙ sym (append-nil _)
          ∙ sym (
              rw e at (
                live-append b lo (hi - lo) 1 ∙ ap (λ (t : List ℕ). live b lo (hi - lo) ++ t) last)),
    )

-- No bit of the map is set from `lo` up to `hi`.
unfoldable pub Clear : Bitmap → ℕ → ℕ → Type 0
Clear b lo hi = (j : ℕ) → lo ≤ j → j < hi → get b j ≡ false

pub Clear-nil : (b : Bitmap) (lo hi : ℕ) → hi ≤ lo → Clear b lo hi
unfolding Clear
Clear-nil b lo hi h j p q = absurd (omega arith)
