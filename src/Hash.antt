-- ===== src/Hash.antt =====
-- Hash tables: uclib/hash.c and uclib/hash.h. A table is a vector of buckets behind a header. A
-- bucket is a direct pair if its bit of `is_user` is set; otherwise it is empty, where its pointer
-- is NULL, or points to a vector of pairs. A NULL table has no buckets. The numbers of pairs and of
-- buckets are written without wrap-around, since 2 ^ 60 of them do not fit into memory.
mod Pairs
mod Removal
mod Searches
mod Buckets
mod Places
mod Tables
mod Capacity
mod Growth
mod Fuel
pub mod Dictionary
pub mod Next
pub mod Memory
mod Tests
use uclib.Base.{
  ℕ, zero, suc, ◌+◌, ◌-◌, ◌*◌, ◌/◌, ◌^◌, max, bit_and, bit_xor, Bool, true, false, not, ◌&&◌, ◌||◌,
  List, [], ◌∷◌, ◌++◌, ltb, leb, ◌==◌, if◌then◌else◌, length, get_or, set, take, replicate, Option,
  none, some,
}
use uclib.Word.{add, sub, shl, shr, min_log2, uword_mod}

-- The variables of hash_mix64.
pub record Mix : Type 0 where
  pub a : ℕ
  pub b : ℕ
  pub c : ℕ

-- hash_mix_step
unfoldable pub mix_step : ℕ → ℕ → ℕ → Mix → Mix
mix_step s0 s1 s2 m =
    let a = bit_xor (sub m.a (add m.b m.c)) (shr m.c s0) in
    let b = bit_xor (sub m.b (add m.c a)) (shl a s1) in
    let c = bit_xor (sub m.c (add a b)) (shr b s2) in record { a = a; b = b; c = c }

-- hash_mix64
unfoldable pub mix64 : Mix → Mix
unfolding mix_step
mix64 m = mix_step 12 18 22 (mix_step 35 49 11 (mix_step 38 23 5 (mix_step 43 9 8 m)))

abbrev pub golden : ℕ
golden = 0x9e3779b97f4a7c13

unfoldable pub hash_uword : ℕ → ℕ
unfolding mix64
hash_uword x = (mix64 (record { a = add golden x; b = golden; c = 0 })).c

-- The functions of the header on keys, the equality of keys that are not the same word.
pub record Keys : Type 0 where
  pub key_sum : ℕ → ℕ
  pub key_equal1 : ℕ → ℕ → Bool

-- KEY_FUNC_NONE
unfoldable pub key_func_none : Keys
unfolding hash_uword
key_func_none = record { key_sum = hash_uword; key_equal1 = λ x y. false }

unfoldable pub key_equal : Keys → ℕ → ℕ → Bool
key_equal h key1 key2 = key1 == key2 || h.key_equal1 key1 key2

-- HASH_FLAG_NO_AUTO_GROW, HASH_FLAG_NO_AUTO_SHRINK and HASH_FLAG_HASH_NEXT_IN_PROGRESS
pub record Flags : Type 0 where
  pub no_auto_grow : Bool
  pub no_auto_shrink : Bool
  pub hash_next_in_progress : Bool

module _ {ℓ} (V : Type ℓ) where
  -- hash_pair_t
  abbrev pub Pair : Type ℓ
  Pair = ℕ × V

  pub data Bucket : Type ℓ where
    empty : Bucket
    direct : Pair → Bucket
    indirect : List Pair → Bucket

  pub record Table : Type ℓ where
    pub elts : ℕ
    pub flags : Flags
    pub keys : Keys
    pub buckets : List Bucket

  -- enum lookup_opcode, with the value that SET writes.
  pub data Opcode : Type ℓ where
    get : Opcode
    put : V → Opcode
    unset : Opcode

module _ {ℓ} {V : Type ℓ} where
  -- A pointer to a pair, as its place and what it holds, from the next pair's point of view.
  unfoldable pub behind : Option (ℕ × Pair V) → Option (ℕ × Pair V)
  behind none = none
  behind (some (q, p)) = some (suc q, p)

  unfoldable pub get_indirect : Keys → List (Pair V) → ℕ → Option (ℕ × Pair V)
  get_indirect h [] key = none
  get_indirect h (p ∷ ps) key =
      let rest = behind (get_indirect h ps key) in if key_equal h p.0 key then some (0, p) else rest

  -- What SET does with the pair that was found, or with none: the bucket, and what was found.
  unfoldable pub set_indirect :
      List (Pair V) → ℕ → V → Option (ℕ × Pair V) → Bucket V × Option (Pair V)
  set_indirect ps key x none = (indirect (ps ++ (key, x) ∷ []), none)
  set_indirect ps key x (some (q, p)) = (indirect (set ps q (p.0, x)), some p)

  -- The last pair goes to the place of the deleted one; one pair that is left becomes direct.
  unfoldable pub unset_indirect : List (Pair V) → ℕ → Bucket V
  unset_indirect [] q = empty
  unset_indirect (r ∷ ps) q =
      let len = length (r ∷ ps) in
      let e = get_or (r ∷ ps) (len - 1) r in
      if leb len 2
      then (if len == 2 then direct (if q == 0 then get_or (r ∷ ps) 1 r else r) else empty)
      else indirect (take (len - 1) (if ltb q (len - 1) then set (r ∷ ps) q e else r ∷ ps))

  unfoldable pub found_pair : Option (ℕ × Pair V) → Option (Pair V)
  found_pair none = none
  found_pair (some (q, p)) = some p

  unfoldable pub unset_found : List (Pair V) → Option (ℕ × Pair V) → Bucket V × Option (Pair V)
  unset_found ps none = (indirect ps, none)
  unset_found ps (some (q, p)) = (unset_indirect ps q, some p)

  -- A direct pair for each operation.
  unfoldable pub lookup_direct : Keys → ℕ → Opcode V → Pair V → Bucket V × Option (Pair V)
  lookup_direct h key get p = (direct p, if key_equal h p.0 key then some p else none)
  lookup_direct h key (put x) p =
      if key_equal h p.0 key
      then (direct (p.0, x), some p)
      else (indirect (p ∷ (key, x) ∷ []), none)
  lookup_direct h key unset p = if key_equal h p.0 key then (empty, some p) else (direct p, none)

  -- The bucket after an operation, and the pair with an equal key before it.
  unfoldable pub lookup_bucket : Keys → ℕ → Opcode V → Bucket V → Bucket V × Option (Pair V)
  lookup_bucket h key op (direct p) = lookup_direct h key op p
  lookup_bucket h key (put x) empty = (direct (key, x), none)
  lookup_bucket h key get empty = (empty, none)
  lookup_bucket h key unset empty = (empty, none)
  lookup_bucket h key (put x) (indirect ps) = set_indirect ps key x (get_indirect h ps key)
  lookup_bucket h key get (indirect ps) = (indirect ps, found_pair (get_indirect h ps key))
  lookup_bucket h key unset (indirect ps) = unset_found ps (get_indirect h ps key)

  -- The number of elements after an operation.
  unfoldable pub new_elts : Opcode V → Option (Pair V) → ℕ → ℕ
  new_elts get old n = n
  new_elts (put x) none n = n + 1
  new_elts (put x) (some p) n = n
  new_elts unset none n = n
  new_elts unset (some p) n = n - 1

  unfoldable pub hash_capacity : Table V → ℕ
  hash_capacity v = length v.buckets

  unfoldable pub index : Table V → ℕ → ℕ
  index v key = bit_and (v.keys.key_sum key) (length v.buckets - 1)

  -- `lookup` on a table that is not NULL.
  unfoldable pub lookup : Table V → ℕ → Opcode V → Table V × Option (Pair V)
  lookup v key op =
      let i = index v key in
      let (b, old) = lookup_bucket v.keys key op (get_or v.buckets i empty) in
      (record v { elts = new_elts op old v.elts; buckets = set v.buckets i b }, old)

  unfoldable pub value_of : Option (Pair V) → Option V
  value_of none = none
  value_of (some p) = some p.1

  -- The value of a key, without a search in an empty table.
  unfoldable pub hash_get : Table V → ℕ → Option V
  hash_get v key = if v.elts == 0 then none else value_of (lookup v key get).1

abbrev pub set3_fuel : ℕ
set3_fuel = 32

-- max_log2, and `1 << k` of an `int`, which C defines below 31.
unfoldable pub max_log2 : ℕ → ℕ
max_log2 x = let l = min_log2 x in if ltb (shl 1 l) x then l + 1 else l

unfoldable pub int_shl : ℕ → ℕ
int_shl k = if ltb k 31 then 2 ^ k else 0

-- The number of buckets for a number of elements: at least that of the bits of a word.
unfoldable pub capacity : ℕ → ℕ
capacity elts = int_shl (max_log2 (max elts 64))

module _ {ℓ} {V : Type ℓ} where
  -- _hash_create with the header of the user: its flags and its functions on keys.
  unfoldable pub create : ℕ → Flags → Keys → Table V
  create elts flags keys = record {
    elts = 0;
    flags = flags;
    keys = keys;
    buckets = replicate (capacity elts) empty;
  }

  -- hash_create2: a header of zeroes but for the functions on keys.
  unfoldable pub hash_create2 : ℕ → Keys → Table V
  hash_create2 elts keys =
      create elts
        (record { no_auto_grow = false; no_auto_shrink = false; hash_next_in_progress = false })
        keys

  unfoldable pub null : Table V
  null = record {
    elts = 0;
    flags = record { no_auto_grow = false; no_auto_shrink = false; hash_next_in_progress = false };
    keys = key_func_none;
    buckets = [];
  }

  -- The pairs of a bucket, and those that hash_foreach_pair visits, in its order.
  unfoldable pub entries : Bucket V → List (Pair V)
  entries empty = []
  entries (direct p) = p ∷ []
  entries (indirect ps) = ps

  unfoldable pub bucket_pairs : List (Bucket V) → List (Pair V)
  bucket_pairs [] = []
  bucket_pairs (b ∷ bs) = entries b ++ bucket_pairs bs

  unfoldable pub hash_foreach_pair : Table V → List (Pair V)
  hash_foreach_pair v = bucket_pairs v.buckets

  -- The loop of hash_resize_internal, given `_hash_set3`.
  unfoldable pub set_pairs : (Table V → ℕ → V → Table V) → Table V → List (Pair V) → Table V
  set_pairs set3 new [] = new
  set_pairs set3 new (p ∷ ps) = set_pairs set3 (set3 new p.0 p.1) ps

  -- hash_resize_internal of a table that is not NULL; a size of 0 leaves a NULL table.
  unfoldable pub resize_with : (Table V → ℕ → V → Table V) → Table V → ℕ → Table V
  resize_with set3 old new_size =
      if ltb 0 new_size
      then set_pairs set3 (create new_size old.flags old.keys) (hash_foreach_pair old)
      else null

  -- _hash_set3 on a table that is not NULL. The fuel bounds how often growing tables nest; without
  -- any, a table does not grow. Hash/Fuel.antt has the recursion that has no result then.
  unfoldable pub set3_with : ℕ → Table V → ℕ → V → Table V
  set3_with zero v key x = (lookup v key (put x)).0
  set3_with (suc fuel) v key x =
      let w = (lookup v key (put x)).0 in
      let grown = resize_with (set3_with fuel) w (2 * length w.buckets) in
      if not w.flags.no_auto_grow && ltb (3 * length w.buckets) (4 * (w.elts + 1)) then grown else w

  -- The table, and the old value.
  unfoldable pub hash_set3 : Table V → ℕ → V → Table V × Option V
  hash_set3 v key x =
      let w = if length v.buckets == 0 then hash_create2 0 key_func_none else v in
      (set3_with set3_fuel w key x, value_of (lookup w key (put x)).1)

  unfoldable pub hash_resize : Table V → ℕ → Table V
  hash_resize v new_size = resize_with (set3_with set3_fuel) v new_size

  -- hash_dup: the table itself stays as it is.
  unfoldable pub hash_dup : Table V → Table V
  hash_dup v = hash_resize v (length v.buckets)

  -- _hash_unset: the table, and the old value.
  unfoldable pub hash_unset : Table V → ℕ → Table V × Option V
  hash_unset v key =
      let r = lookup v key unset in
      let w = r.0 in
      let shrunk = hash_resize w (length w.buckets / 2) in
      if length v.buckets == 0 then (v, none) else (
        if not w.flags.no_auto_shrink
              && (ltb 32 w.elts && ltb (4 * (w.elts + 1)) (length w.buckets))
            then shrunk
            else w,
        value_of r.1,
      )

  unfoldable pub hash_elts : Table V → ℕ
  hash_elts v = v.elts
