-- ===== src/Hash/Dictionary/Changes.antt =====
-- What `put_pair` and `remove_key` do to a dictionary.
use uclib.Base.{
  ℕ, ◌+◌, ◌-◌, ◌≤◌, ◌≡◌, refl, sym, ◌∙◌, inl, inr, true, false, Bool-cases, List, [], ◌∷◌, arith,
  if◌then◌else◌, length, Option, none, some,
}
use uclib.Hash.{Keys, key_equal, Pair}
use uclib.Hash.Pairs.{IsKeys, IsDistinct, find, find_equal, equal_left, equal_right, differ_sym}
use uclib.Hash.Growth.{added}
use uclib.Hash.Dictionary.{put_pair, remove_key}

-- Two keys that differ are not both equal to a third.
differs :
    {h : Keys} (laws : IsKeys h) (key k j : ℕ)
    → key_equal h k key ≡ false
    → key_equal h k j ≡ true
    → key_equal h key j ≡ false
differs {h} laws key k j differ e = elim (Bool-cases (key_equal h key j)) [
  | inl t ↦ absurd (cc (equal_right laws k key j t, differ, e))
  | inr f ↦ f
]

-- The number of pairs that a key stands for.
abbrev pub held {ℓ} : {V : Type ℓ} → Option V → ℕ
held none = 0
held (some x) = 1

held-le {ℓ} : {V : Type ℓ} (h : Keys) (key : ℕ) (d : List (Pair V)) → held (find h d key) ≤ length d
unfolding find
held-le h key [] = omega arith
held-le h key ((k, y) ∷ d) = elim (Bool-cases (key_equal h k key)) [
  | inl e ↦ rw e (omega arith)
  | inr e ↦ rw e (omega (arith, held-le h key d))
]

pub length-remove_key {ℓ} :
    {V : Type ℓ} (h : Keys) (key : ℕ) (d : List (Pair V))
    → length (remove_key h key d) ≡ length d - held (find h d key)
unfolding find remove_key
length-remove_key h key [] = refl
length-remove_key h key ((k, y) ∷ d) = elim (Bool-cases (key_equal h k key)) [
  | inl same ↦ rw same (omega arith)
  | inr differ ↦ rw differ (omega (arith, length-remove_key h key d, held-le h key d))
]

pub length-put_pair {ℓ} :
    {V : Type ℓ} (h : Keys) (key : ℕ) (x : V) (d : List (Pair V))
    → length (put_pair h key x d) ≡ length d + added (find h d key)
unfolding find put_pair
length-put_pair h key x [] = refl
length-put_pair h key x ((k, y) ∷ d) = elim (Bool-cases (key_equal h k key)) [
  | inl same ↦ rw same (omega arith)
  | inr differ ↦ rw differ (omega (arith, length-put_pair h key x d))
]

module _ {ℓ} {V : Type ℓ} {h : Keys} (laws : IsKeys h) where
  pub find-put_pair :
      (key : ℕ) (x : V) (d : List (Pair V)) (j : ℕ)
      → find h (put_pair h key x d) j ≡ (if key_equal h key j then some x else find h d j)
  unfolding find put_pair
  find-put_pair key x [] j = refl
  find-put_pair key x ((k, y) ∷ d) j = elim (Bool-cases (key_equal h k key)) [
    | inl same ↦ rw same (
        rw (equal_left laws k key j same)
          (elim (Bool-cases (key_equal h key j)) [ inl e ↦ rw e refl | inr e ↦ rw e refl ]))
    | inr differ ↦ rw differ (elim (Bool-cases (key_equal h k j)) [
      | inl e ↦ rw (differs laws key k j differ e) (rw e refl)
      | inr e ↦ rw e (find-put_pair key x d j)
    ])
  ]

  pub IsDistinct-put_pair :
      (key : ℕ) (x : V) (d : List (Pair V)) → IsDistinct h d → IsDistinct h (put_pair h key x d)
  unfolding find put_pair
  IsDistinct-put_pair key x [] a = (refl, tt)
  IsDistinct-put_pair key x ((k, y) ∷ d) a = elim (Bool-cases (key_equal h k key)) [
    | inl same ↦ rw same a
    | inr differ ↦ rw differ (
      find-put_pair key x d k ∙ rw (differ_sym laws k key differ) a.0,
      IsDistinct-put_pair key x d a.1,
    )
  ]

  pub find-remove_key :
      (key : ℕ) (d : List (Pair V)) (j : ℕ)
      → IsDistinct h d
      → find h (remove_key h key d) j ≡ (if key_equal h key j then none else find h d j)
  unfolding find remove_key
  find-remove_key key [] j a = elim (Bool-cases (key_equal h key j)) [
    | inl e ↦ rw e refl
    | inr e ↦ rw e refl
  ]
  find-remove_key key ((k, y) ∷ d) j a = elim (Bool-cases (key_equal h k key)) [
    | inl same ↦ rw same (
        rw (equal_left laws k key j same) (elim (Bool-cases (key_equal h key j)) [
          | inl e ↦ rw e (sym (find_equal laws d k j (equal_left laws k key j same ∙ e)) ∙ a.0)
          | inr e ↦ rw e refl
        ]))
    | inr differ ↦ rw differ (elim (Bool-cases (key_equal h k j)) [
      | inl e ↦ rw (differs laws key k j differ e) (rw e refl)
      | inr e ↦ rw e (find-remove_key key d j a.1)
    ])
  ]

  pub IsDistinct-remove_key :
      (key : ℕ) (d : List (Pair V)) → IsDistinct h d → IsDistinct h (remove_key h key d)
  unfolding find remove_key
  IsDistinct-remove_key key [] a = tt
  IsDistinct-remove_key key ((k, y) ∷ d) a = elim (Bool-cases (key_equal h k key)) [
    | inl same ↦ rw same a.1
    | inr differ ↦ rw differ (
      find-remove_key key d k a.1 ∙ rw (differ_sym laws k key differ) a.0,
      IsDistinct-remove_key key d a.1,
    )
  ]
