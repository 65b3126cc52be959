-- ===== src/Url/Tests.antt =====
-- Runs of the parser, and its theorems at such texts.
use Prim.Native.Char.{code}
use Prim.Native.String.{String}
use uclib.Base.{◌≡◌, ◌↔◌, refl, [], ◌∷◌, some, arith}
use uclib.Url.{
  Bytes, Url, ok, err, fault, expected_slashes, illegal_character, scheme_required, invalid_end,
  split_colon, scheme_bytes, url_parse_components,
}
use uclib.Url.Laws.{IsTooShort, url_parse-fault_iff}
use uclib.Url.Text.{url_text, IsUrl}
use uclib.Url.RoundTrip.{url_parse-url_text}

abbrev codes : String → Bytes
codes String.[] = []
codes (String.◌∷◌ c s) = code c ∷ codes s

abbrev sample : Url
sample = record {
  scheme = codes "http";
  user = codes "me";
  password = codes "pw";
  host = codes "a.b";
  port = codes "80";
  path = codes "p/q";
  query = codes "x=1";
  fragment = codes "top";
}

abbrev sample_text : Bytes
sample_text = codes "http://me:pw@a.b:80/p/q?x=1#top"

parse-sample : url_parse_components sample_text ≡ ok sample
unfolding url_parse_components
parse-sample = refl

text-sample : url_text sample ≡ sample_text
unfolding url_text
text-sample = refl

errors :
    (url_parse_components (codes "nothing") ≡ err scheme_required)
    × (url_parse_components (codes "h2:x") ≡ err (illegal_character b'2'))
    × (url_parse_components (codes "http:xy") ≡ err (expected_slashes b'x' b'y'))
    × (url_parse_components (codes "h://[::1]z") ≡ err (invalid_end (codes "z")))
    × (url_parse_components (codes "http:/") ≡ fault)
unfolding url_parse_components
errors = (refl, refl, refl, refl, refl)

sample-IsUrl : IsUrl sample
sample-IsUrl = ground arith

url_parse-url_text_example : url_parse_components (url_text sample) ≡ ok sample
url_parse-url_text_example = url_parse-url_text sample sample-IsUrl

url_parse-fault_iff_example : (url_parse_components (codes "http:/") ≡ fault) ↔ (
    (v w scheme : Bytes) × (split_colon (codes "http:/") ≡ some (v, w))
    × (scheme_bytes v ≡ ok scheme)
    × IsTooShort w)
url_parse-fault_iff_example = url_parse-fault_iff (codes "http:/")
