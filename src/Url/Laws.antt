-- ===== src/Url/Laws.antt =====
-- What the parser accepts, what it does with the two bytes behind the scheme, and the inputs on
-- which it reads beyond the end of its string.
use uclib.Base.{
  All, ℕ, ◌≡◌, ◌≢◌, ◌⊎◌, ◌↔◌, inl, inr, refl, ap, Bool, true, not, ◌&&◌, ◌||◌, [], ◌∷◌, ◌++◌,
  Option, none, some, leb, ◌==◌, Bool-cases, arith,
}
use uclib.Url.{
  Bytes, Url, Error, Result, ok, err, fault, ◌>>=◌, split_colon, scheme_byte, scheme_bytes,
  match_slashes, user_password_specified, span_until, password_loop, colon_or_at, after_user,
  user_password, authority, at_end, with_scheme, url_parse_components,
}

abbrev pub is_scheme_byte : ℕ → Bool
is_scheme_byte c = (leb b'a' c && leb c b'z') || c == b'+' || c == b'-' || c == b'.'

abbrev pub not_colon : ℕ → Bool
not_colon c = not (c == b':')

scheme_byte-range : (c : ℕ) {d : ℕ} → scheme_byte c ≡ ok d → is_scheme_byte d ≡ true
unfolding scheme_byte
scheme_byte-range c h = ground arith

pub bind_ok_parts {ℓ κ} :
    {A : Type ℓ} {B : Type κ} (first_part : Result A) (next : A → Result B) {result : B}
    → (first_part >>= next) ≡ ok result
    → (value : A) × (first_part ≡ ok value) × (next value ≡ ok result)
bind_ok_parts (ok value) next h = (value, refl, h)
bind_ok_parts (err e) next h = cc
bind_ok_parts fault next h = cc

scheme_bytes-All : (v : Bytes) {s : Bytes} → scheme_bytes v ≡ ok s → All is_scheme_byte s
unfolding scheme_bytes
scheme_bytes-All [] {s} h = let e : [] ≡ s = cc in rw (← e) tt
scheme_bytes-All (c ∷ v) {s} h =
    let (d, hd, k) = bind_ok_parts (scheme_byte c) _ h in
    let (r, hr, last) = bind_ok_parts (scheme_bytes v) _ k in
    let e : d ∷ r ≡ s = cc in rw (← e) (scheme_byte-range c hd, scheme_bytes-All v hr)

pub split_colon-append : (v w : Bytes) → All not_colon v → split_colon (v ++ b':' ∷ w) ≡ some (v, w)
unfolding split_colon
split_colon-append [] w h = ground arith
split_colon-append (c ∷ v) w h = ground (arith, split_colon-append v w h.1)

-- Behind the colon, the byte after a slash is skipped without being looked at: with a slash or any
-- other byte in its place the parser does the same.
second_slash_ignored :
    (v : Bytes) (b : ℕ) (rest : Bytes)
    → All not_colon v
    → url_parse_components (v ++ b':' ∷ b'/' ∷ b ∷ rest)
      ≡ url_parse_components (v ++ b':' ∷ b'/' ∷ b'/' ∷ rest)
unfolding url_parse_components
second_slash_ignored v b rest h =
    rw (split_colon-append v (b'/' ∷ b ∷ rest) h, split_colon-append v (b'/' ∷ b'/' ∷ rest) h)
      (unfold with_scheme match_slashes in refl)

-- The '@' that was seen is still ahead where the user loop stops.
span-specified :
    (u : Bytes)
    → user_password_specified u ≡ true
    → user_password_specified (span_until colon_or_at u).1 ≡ true
unfolding user_password_specified span_until
span-specified [] h = h
span-specified (c ∷ u) h = ground (arith, span-specified u)

password_loop-stops :
    (u : Bytes)
    → user_password_specified u ≡ true
    → (p y : Bytes) × (password_loop u ≡ ok (p, b'@' ∷ y))
unfolding user_password_specified password_loop
password_loop-stops [] h = cc
password_loop-stops (c ∷ u) h = elim (Bool-cases (c == b'@')) [
  | inl stop ↦ let e : c ≡ b'@' = ground arith in rw e ([], u, refl)
  | inr more ↦ let (p, y, eq) = password_loop-stops u (ground arith) in (c ∷ p, y, rw (more, eq))
]

after_user_total :
    (user w : Bytes)
    → user_password_specified w ≡ true
    → (r : Bytes × Bytes × Bytes) × (after_user user w ≡ ok r)
unfolding after_user user_password_specified
after_user_total user [] h = cc
after_user_total user (c ∷ x) h = elim (Bool-cases (c == b':')) [
  | inl colon ↦
      let (p, y, eq) = password_loop-stops x (ground arith) in ((user, p, y), rw (colon, eq))
  | inr other ↦ ((user, [], x), rw other)
]

user_password_total : (u : Bytes) → (r : Bytes × Bytes × Bytes) × (user_password u ≡ ok r)
unfolding user_password
user_password_total u = elim (Bool-cases (user_password_specified u)) [
  | inl yes_user ↦ rw yes_user (
      after_user_total (span_until colon_or_at u).0 (span_until colon_or_at u).1
        (span-specified u yes_user))
  | inr no_user ↦ (([], [], u), rw no_user)
]

at_end-ne-fault : (u : Bytes) (url : Url) → at_end u url ≢ fault
unfolding at_end
at_end-ne-fault [] url h = cc
at_end-ne-fault (c ∷ u) url h = cc

authority-ne-fault : (scheme u : Bytes) → authority scheme u ≢ fault
unfolding authority
authority-ne-fault scheme u = let (r, eq) = user_password_total u in rw eq (at_end-ne-fault _ _)

scheme_byte-ne-fault : (c : ℕ) → scheme_byte c ≢ fault
unfolding scheme_byte
scheme_byte-ne-fault c h = ground arith

Result-cases {ℓ} :
    {A : Type ℓ} (m : Result A)
    → ((a : A) × (m ≡ ok a)) ⊎ (((e : Error) × (m ≡ err e)) ⊎ (m ≡ fault))
Result-cases (ok a) = inl (a, refl)
Result-cases (err e) = inr (inl (e, refl))
Result-cases fault = inr (inr refl)

scheme_bytes-ne-fault : (v : Bytes) → scheme_bytes v ≢ fault
unfolding scheme_bytes
scheme_bytes-ne-fault [] = λ h. cc
scheme_bytes-ne-fault (c ∷ v) = elim (Result-cases (scheme_byte c)) [
  | inl (d, e) ↦ rw e (elim (Result-cases (scheme_bytes v)) [
    | inl (r, f) ↦ rw f (λ h. cc)
    | inr (inl (x, f)) ↦ rw f (λ h. cc)
    | inr (inr f) ↦ absurd (scheme_bytes-ne-fault v f)
  ])
  | inr (inl (x, e)) ↦ rw e (λ h. cc)
  | inr (inr e) ↦ absurd (scheme_byte-ne-fault c e)
]

-- What stands behind the colon is empty, or a lone slash.
abbrev pub IsTooShort : Bytes → Type 0
IsTooShort w = (w ≡ []) ⊎ (w ≡ b'/' ∷ [])

match_slashes_fault : (w : Bytes) → (match_slashes w ≡ fault) ↔ IsTooShort w
unfolding match_slashes
match_slashes_fault [] = (λ h. inl refl, λ h. refl)
match_slashes_fault (a ∷ []) = (λ h. inr (ground arith), λ h. ground arith)
match_slashes_fault (a ∷ b ∷ u) = (λ h. ground arith, λ h. ground arith)

with_scheme_fault :
    (o : Option (Bytes × Bytes))
    → with_scheme o ≡ fault
    → (v w scheme : Bytes) × (o ≡ some (v, w)) × (scheme_bytes v ≡ ok scheme) × IsTooShort w
unfolding with_scheme
with_scheme_fault none = λ h. cc
with_scheme_fault (some (v, w)) = elim (Result-cases (scheme_bytes v)) [
  | inl (scheme, e) ↦ rw e (elim (Result-cases (match_slashes w)) [
    | inl (u, f) ↦ rw f (λ h. absurd (authority-ne-fault scheme u h))
    | inr (inl (x, f)) ↦ rw f (λ h. cc)
    | inr (inr f) ↦ λ h. (v, w, scheme, refl, e, (match_slashes_fault w).0 f)
  ])
  | inr (inl (x, e)) ↦ rw e (λ h. cc)
  | inr (inr e) ↦ absurd (scheme_bytes-ne-fault v e)
]

-- The parser reads beyond the end of its string exactly when a scheme that it accepts and a colon
-- are followed by nothing, or by a single slash and nothing else.
pub url_parse-fault_iff :
    (s : Bytes)
    → (url_parse_components s ≡ fault) ↔ (
        (v w scheme : Bytes) × (split_colon s ≡ some (v, w))
        × (scheme_bytes v ≡ ok scheme)
        × IsTooShort w)
unfolding url_parse_components
url_parse-fault_iff s = (
  with_scheme_fault (split_colon s),
  λ h. rw (h.3, with_scheme, h.4, (match_slashes_fault h.1).1 h.5),
)

at_end_same : (y : Bytes) (a b : Url) → at_end y a ≡ ok b → a ≡ b
unfolding at_end
at_end_same [] a b h = cc
at_end_same (c ∷ y) a b h = cc

authority-scheme :
    (scheme u : Bytes) {url : Url} → authority scheme u ≡ ok url → scheme ≡ url.scheme
unfolding authority
authority-scheme scheme u h =
    let (r, _, k) = bind_ok_parts (user_password u) _ h in
    ap (λ (x : Url). x.scheme) (at_end_same _ _ _ k)

with_scheme-All :
    (o : Option (Bytes × Bytes)) {url : Url}
    → with_scheme o ≡ ok url
    → All is_scheme_byte url.scheme
unfolding with_scheme
with_scheme-All none h = cc
with_scheme-All (some (v, w)) h =
    let (scheme, e, k) = bind_ok_parts (scheme_bytes v) _ h in
    let (u, _, last) = bind_ok_parts (match_slashes w) _ k in
    rw (← authority-scheme scheme u last) (scheme_bytes-All v e)

-- Every byte of an accepted scheme is a small letter, a plus, a minus or a dot.
scheme-All :
    (s : Bytes) {url : Url} → url_parse_components s ≡ ok url → All is_scheme_byte url.scheme
unfolding url_parse_components
scheme-All s = with_scheme-All (split_colon s)
