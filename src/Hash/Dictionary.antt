-- ===== src/Hash/Dictionary.antt =====
-- The promise of the hash tables of uclib/hash.c: a dictionary, as a list of pairs.
mod Changes
pub mod Steps
pub mod Runs
use uclib.Base.{ℕ, suc, ◌≤◌, ◌^◌, List, [], ◌∷◌, length, if◌then◌else◌, Option, none, some}
use uclib.Hash.{
  Keys, key_equal, Pair, Table, hash_get, hash_set3, hash_unset, hash_elts, hash_resize, hash_dup,
}
use uclib.Hash.Pairs.{find}

module _ {ℓ} (V : Type ℓ) where
  -- Calls of `hash_get`, `hash_set3`, `hash_unset3`, `hash_elts`, `hash_resize` and `hash_dup`, the
  -- last with the copy in the place of the table from then on.
  pub data Call : Type ℓ where
    get : ℕ → Call
    put : ℕ → V → Call
    unset : ℕ → Call
    elts : Call
    resize : ℕ → Call
    dup : Call

  -- What a call returns: a value or NULL, a number, or nothing.
  pub data Reply : Type ℓ where
    value : Option V → Reply
    number : ℕ → Reply
    done : Reply

module _ {ℓ} {V : Type ℓ} where
  -- The dictionary with a value under a key.
  unfoldable pub put_pair : Keys → ℕ → V → List (Pair V) → List (Pair V)
  put_pair h key x [] = (key, x) ∷ []
  put_pair h key x ((k, y) ∷ d) =
      let rest = (k, y) ∷ put_pair h key x d in if key_equal h k key then (k, x) ∷ d else rest

  unfoldable pub remove_key : Keys → ℕ → List (Pair V) → List (Pair V)
  remove_key h key [] = []
  remove_key h key ((k, y) ∷ d) =
      let rest = (k, y) ∷ remove_key h key d in if key_equal h k key then d else rest

  unfoldable pub dictionary_step : Keys → Call V → List (Pair V) → List (Pair V) × Reply V
  dictionary_step h (get key) d = (d, value (find h d key))
  dictionary_step h (put key x) d = (put_pair h key x d, value (find h d key))
  dictionary_step h (unset key) d = (remove_key h key d, value (find h d key))
  dictionary_step h elts d = (d, number (length d))
  dictionary_step h (resize n) d = (d, done)
  dictionary_step h dup d = (d, done)

  unfoldable pub table_step : Call V → Table V → Table V × Reply V
  table_step (get key) v = (v, value (hash_get v key))
  table_step (put key x) v = let r = hash_set3 v key x in (r.0, value r.1)
  table_step (unset key) v = let r = hash_unset v key in (r.0, value r.1)
  table_step elts v = (v, number (hash_elts v))
  table_step (resize n) v = (hash_resize v n, done)
  table_step dup v = (hash_dup v, done)

  -- The calls in their order, with what they return.
  unfoldable pub run {κ} :
      {S : Type κ} → (Call V → S → S × Reply V) → S → List (Call V) → S × List (Reply V)
  run step s [] = (s, [])
  run step s (call ∷ calls) =
      let r = step call s in let rest = run step r.0 calls in (rest.0, r.1 ∷ rest.1)

  -- The number of pairs that the calls may add.
  unfoldable pub n_put : List (Call V) → ℕ
  n_put [] = 0
  n_put (put key x ∷ calls) = suc (n_put calls)
  n_put (get key ∷ calls) = n_put calls
  n_put (unset key ∷ calls) = n_put calls
  n_put (elts ∷ calls) = n_put calls
  n_put (resize n ∷ calls) = n_put calls
  n_put (dup ∷ calls) = n_put calls

  -- Sizes that are asked for are neither 0 nor more than 2 ^ 30.
  abbrev pub IsSized : Call V → Type 0
  IsSized (resize n) = (1 ≤ n) × (n ≤ 2 ^ 30)
  IsSized (get key) = Unit
  IsSized (put key x) = Unit
  IsSized (unset key) = Unit
  IsSized elts = Unit
  IsSized dup = Unit

  abbrev pub AllSized : List (Call V) → Type 0
  AllSized [] = Unit
  AllSized (call ∷ calls) = IsSized call × AllSized calls
