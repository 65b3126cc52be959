-- ===== src/Sha/Blocks.antt =====
-- The compression of a message block by block, and the loop of `update` over whole blocks.
use native.Mathlib.Nat.{mul-add-mod_self_right, mod-eq_of_lt}
use uclib.Base.{
  ◌%◌, ℕ, zero, suc, ◌+◌, ◌*◌, ◌≤◌, ◌<◌, ◌≡◌, refl, sym, ◌∙◌, ap, ap₂, List, [], ◌∷◌, ◌++◌, false,
  take-all, append_assoc, arith, leb, Bool-cases, inl, inr, length, length-append, take, drop,
  take-append, drop-append, take-append_at, drop-append_at, take-append-drop, length-take,
  length-drop,
}
use uclib.Sha.{Bytes, Algorithm, update_blocks}

-- A remainder behind whole blocks.
pub mod-blocks : (q r b : ℕ) → r < b → (q * b + r) % b ≡ r
mod-blocks q r b h = mul-add-mod_self_right q b r ∙ mod-eq_of_lt h

module _ (a : Algorithm) where
  open a use {n_block, update_block}

  -- The state after the first `q` blocks of a message.
  unfoldable pub fold_blocks : ℕ → List ℕ → Bytes → List ℕ
  fold_blocks zero state d = state
  fold_blocks (suc q) state d = fold_blocks q (update_block state (take n_block d)) (drop n_block d)

  pub fold_blocks-append :
      (q r : ℕ) (state : List ℕ) (xs ys : Bytes)
      → length xs ≡ q * n_block
      → fold_blocks (q + r) state (xs ++ ys) ≡ fold_blocks r (fold_blocks q state xs) ys
  unfolding fold_blocks
  fold_blocks-append zero r state [] ys h = let e : zero + r ≡ r = omega arith in rw e refl
  fold_blocks-append zero r state (x ∷ xs) ys h = absurd (omega arith)
  fold_blocks-append (suc q) r state xs ys h =
      let e : suc q + r ≡ suc (q + r) = omega arith in
      let m : suc q * n_block ≡ n_block + q * n_block = omega arith in
      ap (λ (t : ℕ). fold_blocks t state (xs ++ ys)) e
      ∙ (ap₂ (λ (b c : Bytes). fold_blocks (q + r) (update_block state b) c)
            (take-append n_block xs ys (omega arith)) (drop-append n_block xs ys (omega arith))
          ∙ fold_blocks-append q r (update_block state (take n_block xs)) (drop n_block xs) ys
              (omega (arith, length-drop n_block xs)))

  -- The blocks at the front of `d` that `state'` has taken in, and what is left.
  pub record IsFolded (state state' : List ℕ) (d rest : Bytes) : Type 0 where
    pub q : ℕ
    pub body : Bytes
    pub split : d ≡ body ++ rest
    pub whole : length body ≡ q * n_block
    pub short : length rest < n_block
    pub folded : state' ≡ fold_blocks q state body

  pub update_blocks-IsFolded :
      (f : ℕ) (state : List ℕ) (d : Bytes)
      → 0 < n_block
      → length d ≤ f
      → let r = update_blocks a f state d in IsFolded state r.0 d r.1
  unfolding update_blocks fold_blocks
  update_blocks-IsFolded zero state d pos h = record {
    q = 0;
    body = [];
    split = refl;
    whole = omega arith;
    short = omega arith;
    folded = refl;
  }
  update_blocks-IsFolded (suc f) state d pos h = elim (Bool-cases (leb n_block (length d))) [
    | inl more ↦
        let le : n_block ≤ length d = ground arith in
        let r =
          update_blocks-IsFolded f (update_block state (take n_block d)) (drop n_block d) pos
            (omega (arith, length-drop n_block d)) in
        let l : length (take n_block d) ≡ n_block = length-take n_block d le in
        rw more (record {
          q = suc r.q;
          body = take n_block d ++ r.body;
          split =
              sym (take-append-drop n_block d)
              ∙ (ap (λ (t : Bytes). take n_block d ++ t) r.split
                  ∙ sym (append_assoc (take n_block d) r.body _));
          whole = omega (arith, l, r.whole, length-append (take n_block d) r.body);
          short = r.short;
          folded =
              rw
                (
                  take-append_at n_block (take n_block d) r.body l,
                  drop-append_at n_block (take n_block d) r.body l,
                )
                r.folded;
        })
    | inr done ↦ rw done (record {
      q = 0;
      body = [];
      split = refl;
      whole = omega arith;
      short = ground arith;
      folded = refl;
    })
  ]

  pub update_blocks-nil :
      (f : ℕ) (state : List ℕ) → 0 < n_block → update_blocks a f state [] ≡ (state, [])
  unfolding update_blocks
  update_blocks-nil zero state pos = refl
  update_blocks-nil (suc f) state pos = let e : leb n_block 0 ≡ false = ground arith in rw e refl

  -- One more block.
  pub fold_blocks-snoc :
      (q : ℕ) (state : List ℕ) (xs block : Bytes)
      → length xs ≡ q * n_block
      → length block ≡ n_block
      → fold_blocks (q + 1) state (xs ++ block) ≡ update_block (fold_blocks q state xs) block
  unfolding fold_blocks
  fold_blocks-snoc q state xs block w l =
      fold_blocks-append q 1 state xs block w
      ∙ ap (update_block (fold_blocks q state xs)) (take-all n_block block (omega arith))
