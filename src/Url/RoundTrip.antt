-- ===== src/Url/RoundTrip.antt =====
-- Parsing the text of a URL gives its components back.
use uclib.Base.{
  All, ℕ, ◌≡◌, inl, inr, refl, Bool, true, false, ◌&&◌, [], ◌∷◌, ◌++◌, ◌==◌, Bool-cases, arith,
}
use uclib.Url.{
  Bytes, Url, ok, first, match_slashes, user_password_specified, password_loop, skip_one,
  colon_or_at, after_user, user_password, authority, with_scheme, url_parse_components,
  colon_or_slash, slash,
}
use uclib.Url.Laws.{split_colon-append}
use uclib.Url.Text.{
  is_nil, user_text, host_text, marked, path_text, url_text, user_byte, password_byte, host_byte,
  address_byte, IsUrl,
}
use uclib.Url.Parts.{
  Stops, HostOk, span_lem, scheme_keeps, is_nil_lem, Stops-marked, path_part-path_text,
  Stops-path_text, port_part-marked, host_part-host_text,
}

not_at :
    (p : ℕ → Bool) (xs rest : Bytes)
    → ((c : ℕ) → p c ≡ true → (c == b'@') ≡ false)
    → All p xs
    → user_password_specified rest ≡ false
    → user_password_specified (xs ++ rest) ≡ false
unfolding user_password_specified
not_at p [] rest apart h s = s
not_at p (x ∷ xs) rest apart h s = ground (arith, apart x h.0, not_at p xs rest apart h.1 s)

at_ahead :
    (p : ℕ → Bool) (xs rest : Bytes)
    → ((c : ℕ) → p c ≡ true → (c == b'/') ≡ false)
    → All p xs
    → user_password_specified rest ≡ true
    → user_password_specified (xs ++ rest) ≡ true
unfolding user_password_specified
at_ahead p [] rest apart h s = s
at_ahead p (x ∷ xs) rest apart h s = ground (arith, apart x h.0, at_ahead p xs rest apart h.1 s)

password_loop-text :
    (xs rest : Bytes)
    → All password_byte xs
    → password_loop (xs ++ b'@' ∷ rest) ≡ ok (xs, b'@' ∷ rest)
unfolding password_loop
password_loop-text [] rest h = refl
password_loop-text (x ∷ xs) rest h = rw (password_loop-text xs rest h.1) (ground arith)

and_false : (b : Bool) → (b && false) ≡ false
and_false b = ground arith

user_password-user_text :
    (user password rest : Bytes)
    → All user_byte user
    → All password_byte password
    → user_password_specified rest ≡ false
    → user_password (user_text user password rest) ≡ ok (user, password, rest)
unfolding user_password user_text
user_password-user_text user password rest hu hp hr = elim (Bool-cases (is_nil password)) [
  | inl bare ↦ elim (Bool-cases (is_nil user)) [
    | inl nobody ↦ rw (bare, nobody, hr, is_nil_lem user nobody, is_nil_lem password bare)
    | inr named ↦
        rw
          (
            bare,
            named,
            at_ahead user_byte user (b'@' ∷ rest) (λ c p. ground arith) hu refl,
            span_lem colon_or_at user_byte user (b'@' ∷ rest) (λ c p. ground arith) hu refl,
            is_nil_lem password bare,
          )
          (unfold after_user skip_one in refl)
  ]
  | inr secret ↦
      let tail = password ++ b'@' ∷ rest in
      let ahead = at_ahead password_byte password (b'@' ∷ rest) (λ c p. ground arith) hp refl in
      rw
        (
          secret,
          and_false (is_nil user),
          at_ahead user_byte user (b':' ∷ tail) (λ c p. ground arith) hu (ground (arith, ahead)),
          span_lem colon_or_at user_byte user (b':' ∷ tail) (λ c p. ground arith) hu refl,
        )
        (unfold after_user skip_one in rw (password_loop-text password rest hp))
]

no_user_in_path :
    (path query fragment : Bytes) → user_password_specified (path_text path query fragment) ≡ false
unfolding path_text user_password_specified
no_user_in_path path query fragment =
    elim (Bool-cases (is_nil path && is_nil query && is_nil fragment)) [
      | inl none_there ↦ rw none_there
      | inr there ↦ rw there
    ]

no_user_in_port :
    (port rest : Bytes)
    → All password_byte port
    → user_password_specified rest ≡ false
    → user_password_specified (marked b':' port rest) ≡ false
unfolding marked is_nil user_password_specified
no_user_in_port [] rest hp hr = hr
no_user_in_port (c ∷ port) rest hp hr =
    not_at password_byte (c ∷ port) rest (λ c p. ground arith) hp hr

-- Where no user is named, no '@' stands before the path.
no_user_in_host :
    (host rest : Bytes)
    → HostOk host
    → user_password_specified rest ≡ false
    → user_password_specified (host_text host rest) ≡ false
unfolding host_text
no_user_in_host host rest hh hr = elim (Bool-cases (first host == b'[')) [
  | inl bracket ↦ rw bracket (
      not_at address_byte host (b']' ∷ rest) (λ c p. ground arith) (rw bracket at hh)
        (unfold user_password_specified in hr))
  | inr name ↦ rw name (not_at host_byte host rest (λ c p. ground arith) (rw name at hh) hr)
]

Stops-port :
    (port path query fragment : Bytes)
    → Stops colon_or_slash (marked b':' port (path_text path query fragment))
Stops-port port path query fragment =
    Stops-marked b':' colon_or_slash port _ refl
      (either (path_text path query fragment) (Stops-path_text path query fragment))
  where
    either : (u : Bytes) → Stops slash u → Stops colon_or_slash u
    either [] s = tt
    either (c ∷ u) s = ground arith

-- A URL whose components have bytes that belong there is parsed from its text as it was.
pub url_parse-url_text : (u : Url) → IsUrl u → url_parse_components (url_text u) ≡ ok u
unfolding url_parse_components url_text
url_parse-url_text u h =
    let path = path_text u.path u.query u.fragment in
    let port = marked b':' u.port path in
    let host = host_text u.host port in
    let scheme = scheme_keeps u.scheme h.scheme_bytes_ok in
    let no_user =
      no_user_in_host u.host port h.host_bytes_ok
        (no_user_in_port u.port path h.port_bytes_ok (no_user_in_path u.path u.query u.fragment)) in
    rw (
      split_colon-append u.scheme (b'/' ∷ b'/' ∷ user_text u.user u.password host) scheme.1,
      with_scheme,
      scheme.0,
      match_slashes,
      authority,
      user_password-user_text u.user u.password host h.user_bytes_ok h.password_bytes_ok no_user,
      host_part-host_text u.host port h.host_bytes_ok (Stops-port u.port u.path u.query u.fragment),
      port_part-marked u.port path h.port_bytes_ok (Stops-path_text u.path u.query u.fragment),
      path_part-path_text u.path u.query u.fragment h.path_bytes_ok h.query_bytes_ok,
    )
