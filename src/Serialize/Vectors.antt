-- ===== src/Serialize/Vectors.antt =====
-- Strings and vectors come back, whatever the elements are: chunks of 64 are read as they were
-- written.
use uclib.Base.{
  ℕ, zero, suc, ◌-◌, ◌%◌, ◌^◌, ◌≤◌, ◌<◌, min, ◌≡◌, refl, sym, ◌∙◌, ap, Bool-cases, inl, inr, List,
  [], ◌++◌, append_assoc, some, none, arith, ltb, leb, ◌==◌, if◌then◌else◌, length, length_zero,
  length-take, length-drop, take, drop, take-all, take-append-drop,
}
use uclib.Serialize.{
  Reader, serialize_integer, unserialize_integer, serialize_likely_small_unsigned_integer,
  unserialize_likely_small_unsigned_integer, serialize_cstring, unserialize_cstring,
  serialize_chunks, unserialize_chunks, serialize_vector, unserialize_vector,
}
use uclib.Serialize.Integers.{
  bind_lem, get-append, unserialize_integer-serialize, likely_small-serialize,
}

take-min {ℓ} : {A : Type ℓ} (n : ℕ) (xs : List A) → take (min n (length xs)) xs ≡ take n xs
take-min n xs = elim (Bool-cases (leb n (length xs))) [
  | inl le ↦ let e : min n (length xs) ≡ n = ground (arith, le) in rw e refl
  | inr more ↦
      let e : min n (length xs) ≡ length xs = ground (arith, more) in
      rw e (take-all (length xs) xs (omega arith) ∙ sym (take-all n xs (ground (arith, more))))
]

-- A string comes back, and the NUL behind it is not written.
pub unserialize_cstring-serialize :
    (s rest : List ℕ)
    → length s < 2 ^ 32
    → unserialize_cstring (serialize_cstring s ++ rest) ≡ some (s, rest)
unfolding unserialize_cstring serialize_cstring
unserialize_cstring-serialize s rest h =
    let n = length s in
    let low : n % 2 ^ 32 ≡ n = omega (arith, h) in
    let written = serialize_likely_small_unsigned_integer n in
    rw (low, take-all n s (omega arith), append_assoc written s rest)
      (bind_lem unserialize_likely_small_unsigned_integer _ (written ++ (s ++ rest)) (s ++ rest) n
          (likely_small-serialize n (s ++ rest) (omega (arith, h)))
        ∙ rw low (elim (Bool-cases (ltb 0 n)) [
          | inl some_bytes ↦ rw some_bytes (get-append n s rest refl)
          | inr none_left ↦
              let nil : s ≡ [] = length_zero s (ground (arith, none_left)) in
              rw (none_left, nil) refl
        ]))

module _ {ℓ} {A : Type ℓ} (f : List A → List ℕ) (g : ℕ → Reader (List A))
    (back : (xs : List A) (rest : List ℕ)
      → length xs ≤ 64
      → g (length xs) (f xs ++ rest) ≡ some (xs, rest)) where
  one_chunk :
      (p : List A) (rest : List ℕ)
      → let n = min 64 (length p) in g n (f (take n p) ++ rest) ≡ some (take n p, rest)
  one_chunk p rest =
      let n = min 64 (length p) in
      let l : length (take n p) ≡ n = length-take n p (omega arith) in
      ap (λ (t : ℕ). g t (f (take n p) ++ rest)) (sym l) ∙ back (take n p) rest (omega (arith, l))

  unserialize_chunks-serialize :
      (fuel : ℕ) (p : List A) (rest : List ℕ)
      → length p ≤ fuel
      → unserialize_chunks g fuel (length p) (serialize_chunks f fuel p ++ rest) ≡ some (p, rest)
  unfolding unserialize_chunks serialize_chunks
  unserialize_chunks-serialize zero p rest h = let nil : p ≡ [] = length_zero p h in rw nil refl
  unserialize_chunks-serialize (suc fuel) p rest h = elim (Bool-cases (length p == 0)) [
    | inl done ↦ let nil : p ≡ [] = length_zero p (ground (arith, done)) in rw (done, nil) refl
    | inr more ↦
        let n = min 64 (length p) in
        let left : length p - n ≡ length (drop 64 p) = omega (arith, length-drop 64 p) in
        let cut : take n p ++ drop 64 p ≡ p =
          ap (λ (t : List A). t ++ drop 64 p) (take-min 64 p) ∙ take-append-drop 64 p in
        let later = serialize_chunks f fuel (drop 64 p) in
        let ih =
          unserialize_chunks-serialize fuel (drop 64 p) rest
            (ground (arith, length-drop 64 p, more)) in
        rw (more, append_assoc (f (take n p)) later rest)
          (bind_lem (g n) _ (f (take n p) ++ (later ++ rest)) (later ++ rest) (take n p)
              (one_chunk p (later ++ rest))
            ∙ (bind_lem (unserialize_chunks g fuel (length p - n)) _ (later ++ rest) rest
                  (drop 64 p)
                  (ap (λ (t : ℕ). unserialize_chunks g fuel t (later ++ rest)) left ∙ ih)
                ∙ ap (λ (t : List A). some (t, rest)) cut))
  ]

  -- A vector of less than 2 ^ 32 elements comes back from the bytes of its chunks, and what is
  -- behind them is left, for any functions of the elements that read up to 64 of them back; a
  -- vector that is longer than `max_length` is refused.
  pub unserialize_vector-serialize :
      (xs : List A) (max_length : ℕ) (rest : List ℕ)
      → length xs < 2 ^ 32
      → unserialize_vector g max_length (serialize_vector f xs ++ rest)
        ≡ (if ltb max_length (length xs) then none else some (xs, rest))
  unfolding unserialize_vector serialize_vector
  unserialize_vector-serialize xs max_length rest h =
      let n = length xs in
      let count = serialize_integer n 4 in
      let chunks = serialize_chunks f n xs in
      rw (append_assoc count chunks rest) (
        bind_lem (unserialize_integer 4) _ (count ++ (chunks ++ rest)) (chunks ++ rest) n
          (unserialize_integer-serialize 4 n (chunks ++ rest) (omega (arith, h)))
        ∙ elim (Bool-cases (ltb max_length n)) [
          | inl long ↦ rw long refl
          | inr short ↦ rw short (unserialize_chunks-serialize n xs rest (omega arith))
        ])
