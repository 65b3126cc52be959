-- ===== src/Url.antt =====
-- The URL parser: uclib/url.c. The string is the list of its bytes before the terminating NUL, so
-- that reading `u[0]` at the end gives 0; `fault` is a read or a step beyond the NUL, which C leaves
-- undefined. A component that is a NULL vector is the empty list.
pub mod Laws
pub mod Text
mod Parts
pub mod RoundTrip
mod Tests
use uclib.Base.{
  ℕ, zero, suc, ◌+◌, ◌-◌, Bool, true, false, not, ◌&&◌, ◌||◌, List, [], ◌∷◌, ◌++◌, Option, none,
  some, leb, ◌==◌, if◌then◌else◌,
}

abbrev pub Bytes : Type 0
Bytes = List ℕ

-- url_t: the vectors of the enum's components, by name.
pub record Url : Type 0 where
  pub scheme : Bytes
  pub user : Bytes
  pub password : Bytes
  pub host : Bytes
  pub port : Bytes
  pub path : Bytes
  pub query : Bytes
  pub fragment : Bytes

-- What memset and url_free leave.
abbrev pub empty_url : Url
empty_url = record {
  scheme = [];
  user = [];
  password = [];
  host = [];
  port = [];
  path = [];
  query = [];
  fragment = [];
}

-- The four calls of clib_error_return, with the arguments of their messages.
pub data Error : Type 0 where
  scheme_required : Error
  illegal_character : ℕ → Error
  expected_slashes : ℕ → ℕ → Error
  invalid_end : Bytes → Error

pub data Result {ℓ} (A : Type ℓ) : Type ℓ where
  ok : A → Result A
  err : Error → Result A
  fault : Result A

infixl 5 ◌>>=◌
abbrev pub ◌>>=◌ {ℓ κ} : {A : Type ℓ} {B : Type κ} → Result A → (A → Result B) → Result B
ok a >>= f = f a
err e >>= f = err e
fault >>= f = fault

-- u[0]
abbrev pub first : Bytes → ℕ
first [] = 0
first (c ∷ u) = c

-- strchr (u, ':'): what stands before the colon, and behind it.
pub split_colon : Bytes → Option (Bytes × Bytes)
split_colon [] = none
split_colon (c ∷ u) =
    let rest = split_colon u in
    if c == b':' then some ([], u) else elim rest [ none ↦ none | some (v, w) ↦ some (c ∷ v, w) ]

-- One byte of the scheme, in lower case.
pub scheme_byte : ℕ → Result ℕ
scheme_byte c =
    if leb b'A' c && leb c b'Z'
    then ok (b'a' + (c - b'A'))
    else if leb b'a' c && leb c b'z'
    then ok c
    else if c == b'+' || c == b'-' || c == b'.'
    then ok c
    else err (illegal_character c)

pub scheme_bytes : Bytes → Result Bytes
unfolding scheme_byte
scheme_bytes [] = ok []
scheme_bytes (c ∷ v) = do d ← scheme_byte c; rest ← scheme_bytes v; ok (d ∷ rest)

-- u += 2, where both bytes are there.
skip_two : Bytes → Result Bytes
skip_two [] = fault
skip_two (a ∷ []) = fault
skip_two (a ∷ b ∷ u) = ok u

-- The test for the two slashes; u[1] is read only when u[0] is not a slash.
match_slashes : Bytes → Result Bytes
unfolding skip_two
match_slashes [] = fault
match_slashes (a ∷ u) =
    if not (a == b'/') && not (first u == b'1')
    then err (expected_slashes a (first u))
    else skip_two (a ∷ u)

-- Is there an '@' before the first '/'?
pub user_password_specified : Bytes → Bool
user_password_specified [] = false
user_password_specified (c ∷ v) =
    if c == b'@' then true else if c == b'/' then false else user_password_specified v

-- for (; u[0] != 0 && ! stop; u++) vec_add1 (...): the bytes added, and where the loop ends.
pub span_until : (ℕ → Bool) → Bytes → Bytes × Bytes
span_until stop [] = ([], [])
span_until stop (c ∷ u) =
    let rest = span_until stop u in if stop c then ([], c ∷ u) else (c ∷ rest.0, rest.1)

-- The password loop, which looks for '@' alone.
password_loop : Bytes → Result (Bytes × Bytes)
password_loop [] = fault
password_loop (c ∷ u) =
    let rest = password_loop u in
    if c == b'@' then ok ([], c ∷ u) else do (p, w) ← rest; ok (c ∷ p, w)

-- Skip '@'.
skip_one : Bytes → Result Bytes
skip_one [] = fault
skip_one (c ∷ u) = ok u

-- What stands behind a byte that was tested.
abbrev behind : Bytes → Bytes
behind [] = []
behind (c ∷ u) = u

abbrev pub colon_or_at : ℕ → Bool
colon_or_at c = c == b':' || c == b'@'

-- The password, if a colon follows the user, and the '@'.
after_user : Bytes → Bytes → Result (Bytes × Bytes × Bytes)
unfolding password_loop skip_one
after_user user w =
    if first w == b':'
    then (do (password, x) ← password_loop (behind w); y ← skip_one x; ok (user, password, y))
    else do y ← skip_one w; ok (user, [], y)

-- The user and the password, and where the host begins.
pub user_password : Bytes → Result (Bytes × Bytes × Bytes)
unfolding span_until after_user user_password_specified
user_password u =
    if user_password_specified u
    then (let r = span_until colon_or_at u in after_user r.0 r.1)
    else ok ([], [], u)

abbrev pub close_bracket : ℕ → Bool
close_bracket c = c == b']'

abbrev pub colon_or_slash : ℕ → Bool
colon_or_slash c = c == b':' || c == b'/'

-- The host; of an address in brackets the opening one stays, and the closing one is skipped.
pub host_part : Bytes → Bytes × Bytes
unfolding span_until
host_part u =
    if first u == b'['
    then (let (h, w) = span_until close_bracket u in (h, behind w))
    else span_until colon_or_slash u

abbrev pub slash : ℕ → Bool
slash c = c == b'/'

-- A part that begins with the byte `mark`; nothing where the string goes on otherwise.
pub marked_part : ℕ → (ℕ → Bool) → Bytes → Bytes × Bytes
unfolding span_until
marked_part mark stop u = if first u == mark then span_until stop (behind u) else ([], u)

pub port_part : Bytes → Bytes × Bytes
unfolding marked_part
port_part = marked_part b':' slash

abbrev pub hash_or_question : ℕ → Bool
hash_or_question c = c == b'#' || c == b'?'

abbrev pub hash : ℕ → Bool
hash c = c == b'#'

abbrev pub never : ℕ → Bool
never c = false

-- The path, the query, the fragment, and what is left.
pub path_part : Bytes → Bytes × Bytes × Bytes × Bytes
unfolding marked_part span_until
path_part u =
    if first u == b'/'
    then (let (path, w) = span_until hash_or_question (behind u) in
        let (query, x) = marked_part b'?' hash w in
        let (fragment, y) = marked_part b'#' never x in (path, query, fragment, y))
    else ([], [], [], u)

at_end : Bytes → Url → Result Url
at_end [] url = ok url
at_end (c ∷ u) url = err (invalid_end (c ∷ u))

-- Everything behind the slashes.
pub authority : Bytes → Bytes → Result Url
unfolding user_password host_part port_part path_part at_end
authority scheme u = do
  (user, password, v) ← user_password u
  let (host, w) = host_part v
  let (port, x) = port_part w
  let (path, query, fragment, y) = path_part x
  at_end y (record {
    scheme = scheme;
    user = user;
    password = password;
    host = host;
    port = port;
    path = path;
    query = query;
    fragment = fragment;
  })

with_scheme : Option (Bytes × Bytes) → Result Url
unfolding scheme_bytes match_slashes authority
with_scheme none = err scheme_required
with_scheme (some (v, w)) = do scheme ← scheme_bytes v; u ← match_slashes w; authority scheme u

pub url_parse_components : Bytes → Result Url
unfolding split_colon with_scheme
url_parse_components s = with_scheme (split_colon s)

-- The url_t that the caller is left with: `url_free` empties it after an error.
pub url_after : Result Url → Option Url
url_after (ok url) = some url
url_after (err e) = some empty_url
url_after fault = none
