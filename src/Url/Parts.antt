-- ===== src/Url/Parts.antt =====
-- Each part of the parser reads the text of its component and stops behind it.
use uclib.Base.{
  All, ℕ, ◌≡◌, inl, inr, refl, Bool, true, false, ◌&&◌, [], ◌∷◌, ◌++◌, ◌==◌, if◌then◌else◌,
  Bool-cases, arith, ==_refl,
}
use uclib.Url.{
  Bytes, ok, first, scheme_byte, scheme_bytes, span_until, host_part, port_part, marked_part,
  path_part, close_bracket, colon_or_slash, slash, hash_or_question, hash, never,
}
use uclib.Url.Laws.{is_scheme_byte, not_colon}
use uclib.Url.Text.{
  is_nil, host_text, marked, path_text, password_byte, host_byte, address_byte, path_byte,
  query_byte,
}

-- A loop that ends at the end of the text, or on a byte at which it stops.
abbrev pub Stops : (ℕ → Bool) → Bytes → Type 0
Stops stop [] = Unit
Stops stop (c ∷ u) = stop c ≡ true

pub span_lem :
    (stop p : ℕ → Bool) (xs rest : Bytes)
    → ((c : ℕ) → p c ≡ true → stop c ≡ false)
    → All p xs
    → Stops stop rest
    → span_until stop (xs ++ rest) ≡ (xs, rest)
unfolding span_until
span_lem stop p [] [] apart h s = refl
span_lem stop p [] (c ∷ u) apart h s = rw s
span_lem stop p (x ∷ xs) rest apart h s = rw (apart x h.0, span_lem stop p xs rest apart h.1 s)

scheme_byte_keeps :
    (c : ℕ) → is_scheme_byte c ≡ true → (scheme_byte c ≡ ok c) × (not_colon c ≡ true)
unfolding scheme_byte
scheme_byte_keeps c h = ground arith

pub scheme_keeps : (s : Bytes) → All is_scheme_byte s → (scheme_bytes s ≡ ok s) × All not_colon s
unfolding scheme_bytes
scheme_keeps [] h = (refl, tt)
scheme_keeps (c ∷ s) h =
    let k = scheme_byte_keeps c h.0 in let r = scheme_keeps s h.1 in (rw (k.0, r.0), (k.1, r.1))

pub is_nil_lem : (xs : Bytes) → is_nil xs ≡ true → xs ≡ []
unfolding is_nil
is_nil_lem [] h = refl
is_nil_lem (x ∷ xs) h = cc

pub Stops-marked :
    (mark : ℕ) (stop : ℕ → Bool) (xs rest : Bytes)
    → stop mark ≡ true
    → Stops stop rest
    → Stops stop (marked mark xs rest)
unfolding marked is_nil
Stops-marked mark stop [] rest h s = s
Stops-marked mark stop (x ∷ xs) rest h s = h

marked_part-marked :
    (mark : ℕ) (stop p : ℕ → Bool) (xs rest : Bytes)
    → ((c : ℕ) → p c ≡ true → stop c ≡ false)
    → All p xs
    → Stops stop rest
    → (first rest == mark) ≡ false
    → marked_part mark stop (marked mark xs rest) ≡ (xs, rest)
unfolding marked_part marked is_nil
marked_part-marked mark stop p [] rest apart h s other = rw other
marked_part-marked mark stop p (x ∷ xs) rest apart h s other =
    let same : (mark == mark) ≡ true = ==_refl mark in
    rw same (span_lem stop p (x ∷ xs) rest apart h s)

All-never : (xs : Bytes) → All (λ c. true) xs
All-never [] = tt
All-never (x ∷ xs) = (refl, All-never xs)

-- The fragment runs to the end of the text.
fragment_lem : (xs : Bytes) → marked_part b'#' never (marked b'#' xs []) ≡ (xs, [])
fragment_lem xs =
    marked_part-marked b'#' never (λ c. true) xs [] (λ c h. refl) (All-never xs) tt refl

query_lem :
    (query fragment : Bytes)
    → All query_byte query
    → marked_part b'?' hash (marked b'?' query (marked b'#' fragment []))
      ≡ (query, marked b'#' fragment [])
query_lem query fragment h =
    marked_part-marked b'?' hash query_byte query (marked b'#' fragment []) (λ c p. ground arith) h
      (Stops-marked b'#' hash fragment [] refl tt) (first_hash fragment)
  where
    first_hash : (xs : Bytes) → (first (marked b'#' xs []) == b'?') ≡ false
    first_hash [] = unfold marked is_nil in refl
    first_hash (x ∷ xs) = unfold marked is_nil in refl

pub path_part-path_text :
    (path query fragment : Bytes)
    → All path_byte path
    → All query_byte query
    → path_part (path_text path query fragment) ≡ (path, query, fragment, [])
unfolding path_part path_text
path_part-path_text path query fragment hp hq =
    elim (Bool-cases (is_nil path && is_nil query && is_nil fragment)) [
      | inl none_there ↦ rw (
        none_there,
        is_nil_lem path (ground arith),
        is_nil_lem query (ground arith),
        is_nil_lem fragment (ground arith),
      )
      | inr there ↦ rw (
        there,
        span_lem hash_or_question path_byte path (marked b'?' query (marked b'#' fragment []))
            (λ c p. ground arith) hp
            (Stops-marked b'?' hash_or_question query _ refl
              (Stops-marked b'#' hash_or_question fragment [] refl tt)),
        query_lem query fragment hq,
        fragment_lem fragment,
      )
    ]

pub Stops-path_text : (path query fragment : Bytes) → Stops slash (path_text path query fragment)
unfolding path_text
Stops-path_text path query fragment =
    elim (Bool-cases (is_nil path && is_nil query && is_nil fragment)) [
      | inl none_there ↦ rw none_there tt
      | inr there ↦ rw there refl
    ]

not_mark : (rest : Bytes) → Stops slash rest → (first rest == b':') ≡ false
not_mark [] s = refl
not_mark (c ∷ u) s = ground arith

pub port_part-marked :
    (port rest : Bytes)
    → All password_byte port
    → Stops slash rest
    → port_part (marked b':' port rest) ≡ (port, rest)
unfolding port_part
port_part-marked port rest h s =
    marked_part-marked b':' slash password_byte port rest (λ c p. ground arith) h s
      (not_mark rest s)

-- The text behind the host begins with a colon or a slash, if there is any.
abbrev pub HostOk : Bytes → Type 0
HostOk host = if first host == b'[' then All address_byte host else All host_byte host

pub host_part-host_text :
    (host rest : Bytes)
    → HostOk host
    → Stops colon_or_slash rest
    → host_part (host_text host rest) ≡ (host, rest)
unfolding host_part host_text
host_part-host_text [] [] h s = refl
host_part-host_text [] (c ∷ u) h s =
    let plain : (c == b'[') ≡ false = ground arith in
    rw (plain, span_lem colon_or_slash host_byte [] (c ∷ u) (λ c p. ground arith) tt s)
host_part-host_text (x ∷ xs) rest h s = elim (Bool-cases (x == b'[')) [
  | inl bracket ↦ rw (
    bracket,
    bracket,
    span_lem close_bracket address_byte (x ∷ xs) (b']' ∷ rest) (λ c p. ground arith)
        (rw bracket at h) refl,
  )
  | inr name ↦ rw (
    name,
    name,
    span_lem colon_or_slash host_byte (x ∷ xs) rest (λ c p. ground arith) (rw name at h) s,
  )
]
