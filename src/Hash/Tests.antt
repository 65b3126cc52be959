-- ===== src/Hash/Tests.antt =====
-- Hash tables of uclib/hash.c at small inputs, with the theorems at them.
use uclib.Base.{
  ℕ, zero, suc, ◌+◌, ◌<◌, ◌≡◌, refl, inl, inr, Bool, true, false, ◌&&◌, Bool-cases, List, [], ◌∷◌,
  arith, ◌==◌, ==_refl, ==_iff, leb, if◌then◌else◌, length, none, some,
}
use uclib.Word.{min_log2, leading_one}
use uclib.Hash.{
  Flags, mix64, mix_step, key_func_none, key_equal, Keys, Table, empty, direct, indirect, behind,
  get_indirect, set_indirect, unset_indirect, found_pair, unset_found, lookup_direct, lookup_bucket,
  new_elts, index, lookup, value_of, hash_get, max_log2, int_shl, capacity, create, hash_create2,
  entries, bucket_pairs, hash_foreach_pair, set_pairs, resize_with, set3_with, hash_set3,
  hash_resize, hash_dup, hash_unset, hash_elts,
}
use uclib.Hash.Pairs.{IsKeys, find, IsDistinct}
use uclib.Hash.Tables.{IsTable}
use uclib.Hash.Growth.{Same}
use uclib.Hash.Capacity.{create-IsTable}
use uclib.Hash.Fuel.{set3_result, hash_set3-fuel}
use uclib.Hash.Dictionary.{
  Call, get, put, unset, elts, resize, value, number, done, run, table_step, dictionary_step, n_put,
}
use uclib.Hash.Dictionary.Runs.{run-dictionary}
use uclib.Hash.Dictionary.Steps.{hash_resize-Same}
use uclib.Hash.Next.{start, is_start, next_loop, visit_bucket, visit_pairs, hash_next, walked, walk}
use uclib.Hash.Memory.{
  load, masks_little_endian, zap64, block, blocks, last_words, add_length, hash_memory, CLibrary,
  key_func_pointer_uword, key_func_pointer_u32, key_func_string, mem_key,
}
use uclib.Hash.Memory.Bytes.{hash_memory-bytes}
use uclib.Hash.Memory.Functions.{key_functions-IsKeys}

-- Keys whose sum is their last digit, so that 3 and 13 meet in one bucket; equal if they are the
-- same number.
abbrev digits : Keys
digits = record { key_sum = λ k. k; key_equal1 = λ x y. false }

digits-IsKeys : IsKeys digits
unfolding key_equal
digits-IsKeys = record {
  equal_sym = λ a b e. ground (arith, e);
  equal_trans = λ a b c e1 e2. ground (arith, e1, e2);
  equal_sum = λ a b e. ground (arith, e);
}

-- 3, 67 and 131 meet in one bucket of 64.
abbrev calls : List (Call ℕ)
calls =
    put 3 30
    ∷ put 67 31
    ∷ put 131 32
    ∷ get 67
    ∷ unset 3
    ∷ get 131
    ∷ resize 128
    ∷ put 67 33
    ∷ get 3
    ∷ elts
    ∷ []

runs_calls :
    (run table_step (hash_create2 0 digits) calls).1
    ≡ value none
      ∷ value none
      ∷ value none
      ∷ value (some 31)
      ∷ value (some 30)
      ∷ value (some 32)
      ∷ done
      ∷ value (some 31)
      ∷ value none
      ∷ number 2
      ∷ []
unfolding run table_step hash_create2 create capacity int_shl max_log2 min_log2 leading_one
    hash_set3 set3_with lookup index lookup_bucket lookup_direct set_indirect get_indirect
    unset_found unset_indirect behind found_pair new_elts value_of hash_get hash_unset hash_resize
    resize_with set_pairs hash_foreach_pair bucket_pairs entries hash_elts key_equal hash_dup
runs_calls = refl

-- What is left in the bucket of three pairs after the first is deleted.
moved :
    entries {V = ℕ} (unset_indirect ((3, 30) ∷ (67, 31) ∷ (131, 32) ∷ []) 0)
    ≡ (131, 32) ∷ (67, 31) ∷ []
unfolding entries unset_indirect
moved = refl

run-dictionary_example :
    let v = run table_step (hash_create2 0 digits) calls in
    let d = run (dictionary_step digits) [] calls in
    (v.1 ≡ d.1)
    × (hash_elts v.0 ≡ length d.0)
    × ((j : ℕ) → find digits (hash_foreach_pair v.0) j ≡ find digits d.0 j)
    × (length (hash_foreach_pair v.0) ≡ length d.0)
    × IsDistinct digits (hash_foreach_pair v.0)
unfolding n_put
run-dictionary_example =
    run-dictionary digits-IsKeys 0 calls (omega arith) (omega arith) (omega arith)

abbrev no_flags : Flags
no_flags = record { no_auto_grow = false; no_auto_shrink = false; hash_next_in_progress = false }

abbrev created : Table ℕ
created = create 10 no_flags digits

created-IsTable : IsTable created
created-IsTable = create-IsTable ℕ 10 (omega arith) no_flags digits digits-IsKeys

hash_resize-Same_example : Same created (hash_resize created 100)
unfolding create
hash_resize-Same_example =
    hash_resize-Same created 100 created-IsTable (omega arith) (omega arith) (omega arith)

hash_set3-fuel_example : set3_result (suc (8 + 32)) created 3 30 ≡ some (hash_set3 created 3 30).0
unfolding create
hash_set3-fuel_example = hash_set3-fuel 8 created 3 30 created-IsTable (omega arith)

abbrev small : Table ℕ
small = record {
  elts = 3;
  flags = no_flags;
  keys = digits;
  buckets = empty ∷ indirect ((1, 10) ∷ (3, 30) ∷ []) ∷ empty ∷ direct (2, 20) ∷ [];
}

walk-small : walk 9 small start ≡ ((1, 10) ∷ (3, 30) ∷ (2, 20) ∷ [], small, start)
unfolding walk walked hash_next next_loop visit_bucket visit_pairs is_start
walk-small = refl

-- Two memories that differ from the fourth byte on.
abbrev memory : ℕ → ℕ
memory i = if leb i 2 then i + 65 else 7

abbrev other_memory : ℕ → ℕ
other_memory i = if leb i 2 then i + 65 else 9

hash_memory-bytes_example : hash_memory memory 3 0 ≡ hash_memory other_memory 3 0
hash_memory-bytes_example = hash_memory-bytes memory other_memory 3 0 (λ i lt. ground (arith, lt))

same_sums : hash_memory memory 3 0 ≡ hash_memory other_memory 3 0
unfolding hash_memory mix64 mix_step last_words blocks block add_length load zap64
    masks_little_endian
same_sums = refl

-- A memory with one string of one byte, and a C library for it.
abbrev one_string : ℕ → ℕ
one_string i = if i == 5 then 65 else 0

abbrev same_bytes : ℕ → ℕ → ℕ → Bool
same_bytes a b zero = true
same_bytes a b (suc n) = one_string (a + n) == one_string (b + n) && same_bytes a b n

and_left : (x y : Bool) → (x && y) ≡ true → x ≡ true
and_left true y e = refl
and_left false y e = absurd (cc)

and_right : (x y : Bool) → (x && y) ≡ true → y ≡ true
and_right true y e = e
and_right false y e = absurd (cc)

same_bytes_sound :
    (a b n : ℕ)
    → same_bytes a b n ≡ true
    → (i : ℕ) → i < n
    → one_string (a + i) ≡ one_string (b + i)
same_bytes_sound a b zero e i lt = absurd (omega arith)
same_bytes_sound a b (suc n) e i lt = elim (Bool-cases (i == n)) [
  | inl last ↦ let at : i ≡ n = ground (arith, last) in rw at ((==_iff _ _).0 (and_left _ _ e))
  | inr before ↦ same_bytes_sound a b n (and_right _ _ e) i (ground (arith, before, lt))
]

same_bytes_complete :
    (a b n : ℕ)
    → ((i : ℕ) → i < n → one_string (a + i) ≡ one_string (b + i))
    → same_bytes a b n ≡ true
same_bytes_complete a b zero h = refl
same_bytes_complete a b (suc n) h =
    rw
      (
        h n (omega arith),
        ==_refl (one_string (b + n)),
        same_bytes_complete a b n (λ i lt. h i (omega arith)),
      )
      refl

abbrev one_string_strlen : ℕ → ℕ
one_string_strlen a = if a == 5 then 1 else 0

strcmp_sound :
    (a b : ℕ)
    → (one_string_strlen a == one_string_strlen b) ≡ true
    → (one_string_strlen a ≡ one_string_strlen b)
      × ((i : ℕ) → i < one_string_strlen a → one_string (a + i) ≡ one_string (b + i))
strcmp_sound a b e = (ground (arith, e), λ i lt. ground (arith, e, lt))

abbrev library : CLibrary one_string
library = record {
  strlen = one_string_strlen;
  strcmp_zero = λ a b. one_string_strlen a == one_string_strlen b;
  memcmp_zero = same_bytes;
  strcmp_lem = λ a b. (strcmp_sound a b, λ h. (==_iff _ _).1 h.0);
  memcmp_lem = λ a b n. (same_bytes_sound a b n, same_bytes_complete a b n);
}

key_functions-IsKeys_example :
    IsKeys key_func_none
    × IsKeys (key_func_pointer_uword one_string)
    × IsKeys (key_func_pointer_u32 one_string)
    × IsKeys (key_func_string one_string library)
    × IsKeys (mem_key one_string library 3)
key_functions-IsKeys_example = key_functions-IsKeys one_string library 3
