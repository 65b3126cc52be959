-- ===== src/Hash/Pairs.antt =====
-- Lists of pairs as finite maps: what a search by equal keys finds, and lists of distinct keys.
use uclib.Base.{
  ℕ, ◌≡◌, refl, sym, ◌∙◌, ◌⊎◌, inl, inr, true, false, Bool-cases, List, [], ◌∷◌, ◌++◌,
  if◌then◌else◌, ==_refl, Option, none, some,
}
use uclib.Hash.{Keys, key_equal, Pair}

-- What the table asks of the functions on keys: an equivalence that the sums respect.
pub record IsKeys (h : Keys) : Type 0 where
  pub equal_sym : (a b : ℕ) → key_equal h a b ≡ true → key_equal h b a ≡ true
  pub equal_trans :
      (a b c : ℕ) → key_equal h a b ≡ true → key_equal h b c ≡ true → key_equal h a c ≡ true
  pub equal_sum : (a b : ℕ) → key_equal h a b ≡ true → h.key_sum a ≡ h.key_sum b

pub equal_refl : (h : Keys) (a : ℕ) → key_equal h a a ≡ true
unfolding key_equal
equal_refl h a = rw (==_refl a) refl

module _ {h : Keys} (laws : IsKeys h) where
  -- Equal keys are equal to the same keys.
  pub equal_left : (a b j : ℕ) → key_equal h a b ≡ true → key_equal h a j ≡ key_equal h b j
  equal_left a b j e = elim (Bool-cases (key_equal h a j)) [
    | inl t ↦ t ∙ sym (laws.equal_trans b a j (laws.equal_sym a b e) t)
    | inr f ↦ elim (Bool-cases (key_equal h b j)) [
      | inl t ↦ absurd (cc (laws.equal_trans a b j e t, f))
      | inr g ↦ f ∙ sym g
    ]
  ]

  pub equal_right : (j a b : ℕ) → key_equal h a b ≡ true → key_equal h j a ≡ key_equal h j b
  equal_right j a b e = elim (Bool-cases (key_equal h j a)) [
    | inl t ↦ t ∙ sym (laws.equal_trans j a b t e)
    | inr f ↦ elim (Bool-cases (key_equal h j b)) [
      | inl t ↦ absurd (cc (laws.equal_trans j b a t (laws.equal_sym a b e), f))
      | inr g ↦ f ∙ sym g
    ]
  ]

  pub differ_sym : (a b : ℕ) → key_equal h a b ≡ false → key_equal h b a ≡ false
  differ_sym a b f = elim (Bool-cases (key_equal h b a)) [
    | inl t ↦ absurd (cc (laws.equal_sym b a t, f))
    | inr g ↦ g
  ]

abbrev pub or_else {ℓ} : {V : Type ℓ} → Option V → Option V → Option V
or_else none o = o
or_else (some x) o = some x

pub or_else-none {ℓ} : {V : Type ℓ} (o : Option V) → or_else o none ≡ o
or_else-none none = refl
or_else-none (some x) = refl

pub or_else_assoc {ℓ} :
    {V : Type ℓ} (a b c : Option V) → or_else (or_else a b) c ≡ or_else a (or_else b c)
or_else_assoc none b c = refl
or_else_assoc (some x) b c = refl

pub both_none {ℓ} : {V : Type ℓ} (a b : Option V) → or_else a b ≡ none → (a ≡ none) × (b ≡ none)
both_none none b e = (refl, e)
both_none (some x) b e = absurd (cc)

module _ {ℓ} {V : Type ℓ} where
  unfoldable pub find : Keys → List (Pair V) → ℕ → Option V
  find h [] j = none
  find h ((k, x) ∷ ps) j = if key_equal h k j then some x else find h ps j

  -- No two keys are equal.
  abbrev pub IsDistinct : Keys → List (Pair V) → Type ℓ
  IsDistinct h [] = Unit
  IsDistinct h ((k, x) ∷ ps) = (find h ps k ≡ none) × IsDistinct h ps

  pub find-head :
      (h : Keys) (k : ℕ) (x : V) (ps : List (Pair V)) (j : ℕ)
      → key_equal h k j ≡ true
      → find h ((k, x) ∷ ps) j ≡ some x
  unfolding find
  find-head h k x ps j e = rw e refl

  pub find-tail :
      (h : Keys) (k : ℕ) (x : V) (ps : List (Pair V)) (j : ℕ)
      → key_equal h k j ≡ false
      → find h ((k, x) ∷ ps) j ≡ find h ps j
  unfolding find
  find-tail h k x ps j e = rw e refl

  pub find-append :
      (h : Keys) (ps qs : List (Pair V)) (j : ℕ)
      → find h (ps ++ qs) j ≡ or_else (find h ps j) (find h qs j)
  unfolding find
  find-append h [] qs j = refl
  find-append h ((k, x) ∷ ps) qs j = elim (Bool-cases (key_equal h k j)) [
    | inl e ↦ rw e refl
    | inr e ↦ rw e (find-append h ps qs j)
  ]

  pub find_equal :
      {h : Keys} (laws : IsKeys h) (ps : List (Pair V)) (a b : ℕ)
      → key_equal h a b ≡ true
      → find h ps a ≡ find h ps b
  unfolding find
  find_equal laws [] a b e = refl
  find_equal laws ((k, x) ∷ ps) a b e = rw (equal_right laws k a b e, find_equal laws ps a b e) refl

  -- What is not found under a key has no equal key.
  pub differ_of_none :
      (h : Keys) (k : ℕ) (x : V) (ps : List (Pair V)) (j : ℕ)
      → find h ((k, x) ∷ ps) j ≡ none
      → (key_equal h k j ≡ false) × (find h ps j ≡ none)
  unfolding find
  differ_of_none h k x ps j e = elim (Bool-cases (key_equal h k j)) [
    | inl t ↦ absurd (cc (find-head h k x ps j t))
    | inr f ↦ (f, sym (find-tail h k x ps j f) ∙ e)
  ]

  -- A list of distinct keys, in two parts.
  pub IsDistinct-append :
      (h : Keys) (ps qs : List (Pair V))
      → IsDistinct h ps
      → IsDistinct h qs
      → ((j : ℕ) → (find h ps j ≡ none) ⊎ (find h qs j ≡ none))
      → IsDistinct h (ps ++ qs)
  unfolding find
  IsDistinct-append h [] qs dp dq apart = dq
  IsDistinct-append h ((k, x) ∷ ps) qs dp dq apart = (
    find-append h ps qs k
        ∙ rw dp.0 (elim (apart k) [
          | inl e ↦ absurd (cc (find-head h k x ps k (equal_refl h k), e))
          | inr e ↦ e
        ]),
    IsDistinct-append h ps qs dp.1 dq
        (λ j. elim (apart j) [ inl e ↦ inl (differ_of_none h k x ps j e).1 | inr e ↦ inr e ]),
  )
