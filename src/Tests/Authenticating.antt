-- ===== src/Tests/Authenticating.antt =====
-- Examples of authentication.
use kd.Base.{
  ◌%◌, ◌≡◌, ◌≢◌, refl, ◌⊎◌, Bool, true, false, none, some, [], ◌∷◌, ◌++◌, arith, Text, lit, length,
  ◌==◌, if◌then◌else◌, ok, str_eq, starts_with, ltb, ◌&&◌,
}
use kd.Auth.Base64.{encode, decode}
use kd.Auth.Base64.RoundTrip.{AreBytes, decode-encode}
use kd.Auth.Token.{AuthOptions, authenticate, normalize, check_claims, of_user}
use kd.Auth.Token.Sound.{IsLegacy, IsSigned, authenticate_sound}
use kd.Auth.Token.Issued.{bearer, issued_answer, unaligned_refused}
use kd.Tests.Encoding.{toy_json, string, object}

abbrev strict : AuthOptions
strict = record {
  jwt_secret = lit "secret";
  jwt_issuer = [];
  jwt_audience = [];
  allow_legacy_token = false;
}

-- a stand-in for HMAC: the key before the text
abbrev mac : Text → Text → Text
mac key text = key ++ text

decode-encode_example :
    decode (encode (lit "abc")) ≡ (if length (lit "abc") % 3 == 0 then some (lit "abc") else none)
unfolding lit
decode-encode_example = decode-encode (lit "abc") (omega arith, (omega arith, (omega arith, tt)))

abbrev header : Text
header = object ((lit "alg", string (lit "HS256")) ∷ (lit "kd", string []) ∷ [])

abbrev claims : Text
claims = object ((lit "sub", string (lit "bo")) ∷ (lit "kd", string []) ∷ [])

abbrev are_bytes : Text → Bool
are_bytes [] = true
are_bytes (c ∷ t) = ltb c 256 && are_bytes t

AreBytes-of : (t : Text) → are_bytes t ≡ true → AreBytes t
AreBytes-of [] h = tt
AreBytes-of (c ∷ t) h = (ground arith, AreBytes-of t (ground arith))

issued_answer_example :
    authenticate toy_json mac strict 0 (bearer mac strict.jwt_secret header claims)
    ≡ check_claims toy_json strict 0 claims
unfolding lit str_eq
issued_answer_example =
    issued_answer toy_json mac strict 0 header claims header claims refl refl
      (AreBytes-of header refl, refl, refl, refl) refl (AreBytes-of claims refl, refl, refl, refl)

unaligned_refused_example :
    authenticate toy_json mac strict 0 (bearer mac strict.jwt_secret header (lit "ab")) ≡ ok none
unfolding lit
unaligned_refused_example =
    unaligned_refused toy_json mac strict 0 header (lit "ab") refl refl
      (omega arith, (omega arith, tt)) (ground arith)

abbrev lax : AuthOptions
lax = record strict { allow_legacy_token = true }

authenticate_sound_example :
    (lit "user:bo" ≢ [])
    × (IsLegacy toy_json mac lax (normalize (lit "user:bo")) (of_user (lit "bo"))
        ⊎ IsSigned toy_json mac lax 0 (normalize (lit "user:bo")) (of_user (lit "bo")))
unfolding authenticate str_eq starts_with lit normalize
authenticate_sound_example =
    authenticate_sound toy_json mac lax 0 (lit "user:bo") (of_user (lit "bo")) refl
