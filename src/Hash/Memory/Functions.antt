-- ===== src/Hash/Memory/Functions.antt =====
-- The functions on keys of uclib/hash.c keep to what the tables ask of them.
use uclib.Base.{
  ℕ, ◌+◌, ◌≡◌, refl, sym, ◌∙◌, ap, ◌⊎◌, inl, inr, Bool, true, not, ◌&&◌, Bool-cases, arith, ◌==◌,
  ==_refl, ==_iff,
}
use uclib.Hash.{Keys, key_equal, key_func_none, hash_uword}
use uclib.Hash.Pairs.{IsKeys}
use uclib.Hash.Memory.{
  load, hash_memory, CLibrary, key_func_pointer_uword, key_func_pointer_u32, key_func_string,
  mem_key,
}
use uclib.Hash.Memory.Bytes.{hash_memory-bytes}

-- Keys are equal as words or by the function of the header.
equal_cases : (h : Keys) (a b : ℕ) → key_equal h a b ≡ true → (a ≡ b) ⊎ (h.key_equal1 a b ≡ true)
unfolding key_equal
equal_cases h a b e = elim (Bool-cases (a == b)) [
  | inl same ↦ inl (ground (arith, same))
  | inr other ↦ inr (ground (arith, other, e))
]

equal_of_words : (h : Keys) (a b : ℕ) → a ≡ b → key_equal h a b ≡ true
unfolding key_equal
equal_of_words h a b e = rw e (rw (==_refl b) refl)

equal_of_function : (h : Keys) (a b : ℕ) → h.key_equal1 a b ≡ true → key_equal h a b ≡ true
unfolding key_equal
equal_of_function h a b e = elim (Bool-cases (a == b)) [
  | inl same ↦ rw same refl
  | inr other ↦ rw other e
]

IsKeys-of :
    (h : Keys)
    → ((a b : ℕ) → h.key_equal1 a b ≡ true → h.key_equal1 b a ≡ true)
    → ((a b c : ℕ) → h.key_equal1 a b ≡ true → h.key_equal1 b c ≡ true → h.key_equal1 a c ≡ true)
    → ((a b : ℕ) → h.key_equal1 a b ≡ true → h.key_sum a ≡ h.key_sum b)
    → IsKeys h
IsKeys-of h symm trans sums = record {
  equal_sym = λ a b e. elim (equal_cases h a b e) [
    | inl same ↦ equal_of_words h b a (sym same)
    | inr eq ↦ equal_of_function h b a (symm a b eq)
  ];
  equal_trans = λ a b c e1 e2. elim (equal_cases h a b e1) [
    | inl same ↦ rw same e2
    | inr eq1 ↦ elim (equal_cases h b c e2) [
      | inl same ↦ rw (← same) e1
      | inr eq2 ↦ equal_of_function h a c (trans a b c eq1 eq2)
    ]
  ];
  equal_sum =
      λ a b e. elim (equal_cases h a b e) [ inl same ↦ ap h.key_sum same | inr eq ↦ sums a b eq ];
}

key_func_none-IsKeys : IsKeys key_func_none
unfolding key_func_none
key_func_none-IsKeys =
    IsKeys-of key_func_none (λ a b e. e) (λ a b c e1 e2. e1) (λ a b e. absurd (cc))

-- Keys that point to numbers.
pointer-IsKeys :
    (read : ℕ → ℕ)
    → IsKeys (record {
      key_sum = λ key. hash_uword (read key);
      key_equal1 = λ key1 key2. read key1 == read key2;
    })
pointer-IsKeys read =
    IsKeys-of
      (record {
        key_sum = λ key. hash_uword (read key);
        key_equal1 = λ key1 key2. read key1 == read key2;
      })
      (λ a b e. ground (arith, e)) (λ a b c e1 e2. ground (arith, e1, e2))
      (λ a b e. ap hash_uword ((==_iff (read a) (read b)).0 e))

-- Keys that point to bytes, compared by an equivalence.
bytes-IsKeys :
    (sum : ℕ → ℕ) (same : ℕ → ℕ → Bool)
    → ((a b : ℕ) → same a b ≡ true → same b a ≡ true)
    → ((a b c : ℕ) → same a b ≡ true → same b c ≡ true → same a c ≡ true)
    → ((a b : ℕ) → same a b ≡ true → sum a ≡ sum b)
    → IsKeys (record {
      key_sum = sum;
      key_equal1 = λ key1 key2. not (key1 == 0) && (not (key2 == 0) && same key1 key2);
    })
bytes-IsKeys sum same symm trans sums =
    IsKeys-of
      (record {
        key_sum = sum;
        key_equal1 = λ key1 key2. not (key1 == 0) && (not (key2 == 0) && same key1 key2);
      })
      (λ a b e. ground (arith, e, symm a b)) (λ a b c e1 e2. ground (arith, e1, e2, trans a b c))
      (λ a b e. sums a b (ground (arith, e)))

module _ (memory : ℕ → ℕ) (c : CLibrary memory) where
  -- The functions for keys that are words, point to words of 64 or 32 bits, to strings or to a number
  -- of bytes: each compares keys by an equivalence, and keys that are equal have equal sums.
  pub key_functions-IsKeys :
      (user : ℕ)
      → IsKeys key_func_none
        × IsKeys (key_func_pointer_uword memory)
        × IsKeys (key_func_pointer_u32 memory)
        × IsKeys (key_func_string memory c)
        × IsKeys (mem_key memory c user)
  unfolding key_func_pointer_uword key_func_pointer_u32 key_func_string mem_key
  key_functions-IsKeys user = (
    key_func_none-IsKeys,
    pointer-IsKeys (load 8 memory),
    pointer-IsKeys (load 4 memory),
    bytes-IsKeys (λ key. hash_memory (λ i. memory (key + i)) (c.strlen key) 0) c.strcmp_zero
        (λ a b e.
          let r = (c.strcmp_lem a b).0 e in
          (c.strcmp_lem b a).1 (sym r.0, λ i lt. sym (r.1 i (omega (arith, r.0, lt)))))
        (λ a b d e1 e2.
          let r = (c.strcmp_lem a b).0 e1 in
          let r2 = (c.strcmp_lem b d).0 e2 in
          (c.strcmp_lem a d).1 (r.0 ∙ r2.0, λ i lt. r.1 i lt ∙ r2.1 i (omega (arith, r.0, lt))))
        (λ a b e.
          let r = (c.strcmp_lem a b).0 e in
          hash_memory-bytes (λ i. memory (a + i)) (λ i. memory (b + i)) (c.strlen a) 0 r.1
          ∙ ap (λ (n : ℕ). hash_memory (λ i. memory (b + i)) n 0) r.0),
    bytes-IsKeys (λ key. hash_memory (λ i. memory (key + i)) user 0) (λ a b. c.memcmp_zero a b user)
        (λ a b e. (c.memcmp_lem b a user).1 (λ i lt. sym ((c.memcmp_lem a b user).0 e i lt)))
        (λ a b d e1 e2.
          (c.memcmp_lem a d user).1
            (λ i lt. (c.memcmp_lem a b user).0 e1 i lt ∙ (c.memcmp_lem b d user).0 e2 i lt))
        (λ a b e.
          hash_memory-bytes (λ i. memory (a + i)) (λ i. memory (b + i)) user 0
            ((c.memcmp_lem a b user).0 e)),
  )
