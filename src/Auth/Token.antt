-- ===== src/Auth/Token.antt =====
-- AuthMiddleware of gateways/access_gateway/auth/auth_middleware.cpp. `hmac key data` is OpenSSL's
-- HMAC with EVP_sha256, `now` is `std::time(nullptr)`. An exception of the JSON library leaves
-- `Authenticate`; log lines are left out.
pub mod Split
pub mod Sound
pub mod Issued
use kd.Base.{
  ℕ, suc, ◌+◌, ◌-◌, Bool, true, false, not, ◌&&◌, ◌||◌, List, [], ◌∷◌, ◌++◌, Option, none, some,
  Text, lit, str_eq, is_empty, starts_with, take, drop, ◌==◌, if◌then◌else◌, ℤ, pos, leb_ℤ, Result,
  ok, raised, ◌>>=◌, stoll, length, find_char,
}
use kd.Json.{JsonApi}
use kd.Context.{RequestContext, no_context}
use kd.Auth.Base64.{encode, decode}

pub record AuthOptions : Type 0 where
  pub jwt_secret : Text
  pub jwt_issuer : Text
  pub jwt_audience : Text
  pub allow_legacy_token : Bool

abbrev pub shift : ℕ → Option ℕ → Option ℕ
shift from none = none
shift from (some i) = some (from + i)

-- s.find(ch, from)
abbrev find_from : ℕ → Text → ℕ → Option ℕ
find_from ch s from = shift from (find_char ch (drop from s))

-- The parts of a token with exactly two dots, from the results of the three searches.
pub record Parts : Type 0 where
  pub header : Text
  pub payload : Text
  pub signature : Text
  pub signing_input : Text

abbrev pub split_parts : Text → ℕ → ℕ → Option ℕ → Option Parts
split_parts s first_dot second_dot (some third_dot) = none
split_parts s first_dot second_dot none = some (record {
  header = take first_dot s;
  payload = take (second_dot - first_dot - 1) (drop (first_dot + 1) s);
  signature = drop (second_dot + 1) s;
  signing_input = take second_dot s;
})

abbrev pub split_third : Text → ℕ → Option ℕ → Option Parts
split_third s first_dot none = none
split_third s first_dot (some second_dot) =
    split_parts s first_dot second_dot (find_from b'.' s (second_dot + 1))

abbrev pub split_second : Text → Option ℕ → Option Parts
split_second s none = none
split_second s (some first_dot) = split_third s first_dot (find_from b'.' s (first_dot + 1))

unfoldable pub split_token : Text → Option Parts
split_token s = split_second s (find_char b'.' s)

-- `if (normalized.rfind("Bearer ", 0) == 0) normalized = normalized.substr(7);`
unfoldable pub normalize : Text → Text
normalize token = if starts_with token (lit "Bearer ") then drop 7 token else token

-- ConstantTimeEqual; CRYPTO_memcmp compares the bytes
unfoldable pub constant_time_equal : Text → Text → Bool
constant_time_equal lhs rhs = if length lhs == length rhs then str_eq lhs rhs else false

abbrev pub of_user : Text → RequestContext
of_user id = record no_context { user_id = id }

-- `exp.has_value() && now >= *exp`
abbrev pub expired : ℕ → Option ℤ → Bool
expired now none = false
expired now (some exp) = leb_ℤ exp (pos now)

module _ (api : JsonApi) where
  open api use {Json, parse, find, is_object, is_string, is_array, is_number_integer}
  open api use {get_string, get_int64, value_string, elements}

  unfoldable pub decode_jwt_json_part : Text → Option Json
  decode_jwt_json_part part = elim (decode part) [
    | none ↦ none
    | some decoded ↦ elim (parse decoded) [
      | none ↦ none
      | some json ↦ if is_object json then some json else none
    ]
  ]

  -- `item.is_string() && item.get<std::string>() == expected`
  abbrev string_is : Json → Text → Result Bool
  string_is item expected =
      if is_string item then (get_string item >>= λ s. ok (str_eq s expected)) else ok false

  unfoldable any_string_is : List Json → Text → Result Bool
  any_string_is [] expected = ok false
  any_string_is (item ∷ rest) expected =
      let later = any_string_is rest expected in
      string_is item expected >>= λ found. if found then ok true else later

  unfoldable pub match_audience : Json → Text → Result Bool
  unfolding any_string_is
  match_audience claims expected = elim (find claims (lit "aud")) [
    | none ↦ ok false
    | some aud ↦
        if is_string aud
        then (get_string aud >>= λ s. ok (str_eq s expected))
        else if is_array aud
        then any_string_is (elements aud) expected
        else ok false
  ]

  -- `catch (...) { return std::nullopt; }`
  abbrev catch_all : Result ℤ → Option ℤ
  catch_all (ok z) = some z
  catch_all (raised what) = none

  unfoldable pub parse_numeric_claim : Json → Text → Result (Option ℤ)
  parse_numeric_claim claims key = elim (find claims key) [
    | none ↦ ok none
    | some it ↦
        if is_number_integer it
        then (get_int64 it >>= λ z. ok (some z))
        else if is_string it
        then (get_string it >>= λ s. ok (catch_all (stoll s)))
        else ok none
  ]

  -- One of the two tests of ExtractUserId: a member that is a string and not empty.
  abbrev non_empty_string : Json → Text → Result (Option Text)
  non_empty_string claims key = elim (find claims key) [
    | none ↦ ok none
    | some it ↦
        if is_string it
        then (get_string it >>= λ s. ok (if is_empty s then none else some s))
        else ok none
  ]

  unfoldable pub extract_user_id : Json → Result (Option Text)
  extract_user_id claims = non_empty_string claims (lit "sub") >>= λ sub. elim sub [
    | some id ↦ ok (some id)
    | none ↦ non_empty_string claims (lit "user_id")
  ]

  abbrev pub issuer_matches : AuthOptions → Json → Result Bool
  issuer_matches options claims =
      if is_empty options.jwt_issuer
      then ok true
      else (value_string claims (lit "iss") [] >>= λ iss. ok (str_eq iss options.jwt_issuer))

  abbrev pub audience_matches : AuthOptions → Json → Result Bool
  audience_matches options claims =
      if is_empty options.jwt_audience then ok true else match_audience claims options.jwt_audience

  abbrev pub context_of : Option Text → Option RequestContext
  context_of none = none
  context_of (some id) = some (of_user id)

  -- The checks after the signature, from the last to the first: subject, audience, issuer, expiry.
  unfoldable pub check_subject : Json → Result (Option RequestContext)
  check_subject claims = extract_user_id claims >>= λ user. ok (context_of user)

  unfoldable pub check_audience : AuthOptions → Json → Result (Option RequestContext)
  check_audience options claims =
      audience_matches options claims >>= λ meant. if meant then check_subject claims else ok none

  unfoldable pub check_issuer : AuthOptions → Json → Result (Option RequestContext)
  check_issuer options claims = issuer_matches options claims >>= λ issued.
      if issued then check_audience options claims else ok none

  unfoldable pub check_claims : AuthOptions → ℕ → Json → Result (Option RequestContext)
  check_claims options now claims = parse_numeric_claim claims (lit "exp") >>= λ exp.
      if expired now exp then ok none else check_issuer options claims

  module _ (hmac : Text → Text → Text) where
    unfoldable pub check_signature : AuthOptions → ℕ → Parts → Json → Result (Option RequestContext)
    check_signature options now parts claims =
        if constant_time_equal parts.signature
          (encode (hmac options.jwt_secret parts.signing_input))
        then check_claims options now claims
        else ok none

    abbrev pub check_alg :
        AuthOptions → ℕ → Parts → Option Json → Option Json → Result (Option RequestContext)
    check_alg options now parts none claims = ok none
    check_alg options now parts (some header) none = ok none
    check_alg options now parts (some header) (some claims) =
        value_string header (lit "alg") [] >>= λ alg.
        if str_eq alg (lit "HS256") then check_signature options now parts claims else ok none

    -- What follows the split of the token into its parts.
    unfoldable pub check_jwt : AuthOptions → ℕ → Option Parts → Result (Option RequestContext)
    check_jwt options now none = ok none
    check_jwt options now (some parts) =
        if is_empty options.jwt_secret
        then ok none
        else check_alg options now parts (decode_jwt_json_part parts.header)
            (decode_jwt_json_part parts.payload)

    unfoldable pub authenticate : AuthOptions → ℕ → Text → Result (Option RequestContext)
    authenticate options now token =
        let normalized = normalize token in
        if is_empty token
        then ok none
        else if options.allow_legacy_token && str_eq normalized (lit "dev-token")
        then ok (some (of_user (lit "dev-user")))
        else if options.allow_legacy_token && starts_with normalized (lit "user:")
        then ok (some (of_user (drop 5 normalized)))
        else check_jwt options now (split_token normalized)
