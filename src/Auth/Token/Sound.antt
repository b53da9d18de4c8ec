-- ===== src/Auth/Token/Sound.antt =====
-- What an accepted token has proved.
use kd.Base.{
  ℕ, ◌≡◌, ◌≢◌, refl, ◌⊎◌, inl, inr, Bool, true, false, ◌&&◌, ◌∷◌, [], Option, none, some, Text, lit,
  str_eq, eq_of_str_eq, is_empty, starts_with, drop, arith, if◌then◌else◌, ℤ, Result, ok,
  >>=-Passed, Bool-cases,
}
use mathlib.Core.Bool.{and-eq-true_iff}
use kd.Json.{JsonApi}
use kd.Context.{RequestContext}
use kd.Auth.Base64.{encode}
use kd.Auth.Token.{
  AuthOptions, Parts, split_token, normalize, constant_time_equal, of_user, decode_jwt_json_part,
  match_audience, parse_numeric_claim, extract_user_id, expired, check_claims, check_subject,
  check_audience, check_issuer, issuer_matches, audience_matches, context_of, check_signature,
  check_alg, check_jwt, authenticate,
}
use kd.Auth.Token.Split.{IsSplit, split_token-IsSplit}

constant_time_equal→eq : (s t : Text) → constant_time_equal s t ≡ true → s ≡ t
unfolding constant_time_equal
constant_time_equal→eq s t h = eq_of_str_eq s t (ground arith)

is_empty-false : (t : Text) → t ≢ [] → is_empty t ≡ false
is_empty-false [] n = absurd (n refl)
is_empty-false (c ∷ t) n = refl

-- A guard that returns `std::nullopt` was passed.
module _ {ctx : RequestContext} (b : Bool) (rest : Result (Option RequestContext)) where
  passed : (if b then ok none else rest) ≡ ok (some ctx) → (b ≡ false) × (rest ≡ ok (some ctx))
  passed e = ground arith

  held : (if b then rest else ok none) ≡ ok (some ctx) → (b ≡ true) × (rest ≡ ok (some ctx))
  held e = ground arith

module _ (api : JsonApi) where
  -- The claims of a token that is accepted at time `now` for `ctx`.
  pub record ClaimsHold (options : AuthOptions) (now : ℕ) (claims : api.Json) (ctx : RequestContext)
      : Type 0 where
    pub exp : Option ℤ
    pub exp_claim : parse_numeric_claim api claims (lit "exp") ≡ ok exp
    pub alive : expired now exp ≡ false
    pub issuer :
        options.jwt_issuer ≢ [] → api.value_string claims (lit "iss") [] ≡ ok options.jwt_issuer
    pub audience :
        options.jwt_audience ≢ [] → match_audience api claims options.jwt_audience ≡ ok true
    pub subject : extract_user_id api claims ≡ ok (some ctx.user_id)
    pub context : ctx ≡ of_user ctx.user_id

  eq_of_issuer :
      (options : AuthOptions) (claims : api.Json)
      → issuer_matches api options claims ≡ ok true
      → options.jwt_issuer ≢ []
      → api.value_string claims (lit "iss") [] ≡ ok options.jwt_issuer
  eq_of_issuer options claims e n =
      let filled : is_empty options.jwt_issuer ≡ false = is_empty-false options.jwt_issuer n in
      let (iss, e1, e2) =
        >>=-Passed (λ iss. ok (str_eq iss options.jwt_issuer)) _
          (api.value_string claims (lit "iss") []) (rw filled at e) in
      let same : iss ≡ options.jwt_issuer = eq_of_str_eq iss options.jwt_issuer (cc e2) in
      rw same at e1

  eq_of_audience :
      (options : AuthOptions) (claims : api.Json)
      → audience_matches api options claims ≡ ok true
      → options.jwt_audience ≢ []
      → match_audience api claims options.jwt_audience ≡ ok true
  eq_of_audience options claims e n =
      let filled : is_empty options.jwt_audience ≡ false = is_empty-false options.jwt_audience n in
      rw filled at e

  context_of_sound :
      (user : Option Text) (ctx : RequestContext)
      → context_of api user ≡ some ctx
      → (user ≡ some ctx.user_id) × (ctx ≡ of_user ctx.user_id)
  context_of_sound none ctx e = absurd (ground arith)
  context_of_sound (some id) ctx e = let same : of_user id ≡ ctx = cc in rw (← same) (refl, refl)

  check_claims_sound :
      (options : AuthOptions) (now : ℕ) (claims : api.Json) (ctx : RequestContext)
      → check_claims api options now claims ≡ ok (some ctx)
      → ClaimsHold options now claims ctx
  unfolding check_claims check_issuer check_audience check_subject
  check_claims_sound options now claims ctx e =
      let (exp, exp_claim, e1) =
        >>=-Passed (λ exp. if expired now exp then ok none else check_issuer api options claims) _
          (parse_numeric_claim api claims (lit "exp")) e in
      let (alive, e2) = passed (expired now exp) _ e1 in
      let (issued, e3, e4) =
        >>=-Passed (λ issued. if issued then check_audience api options claims else ok none) _
          (issuer_matches api options claims) e2 in
      let (issued_true, e5) = held issued (check_audience api options claims) e4 in
      let (meant, e6, e7) =
        >>=-Passed (λ meant. if meant then check_subject api claims else ok none) _
          (audience_matches api options claims) e5 in
      let (meant_true, e8) = held meant (check_subject api claims) e7 in
      let (user, e9, e10) =
        >>=-Passed (λ user. ok (context_of api user)) _ (extract_user_id api claims) e8 in
      let (named, context) = context_of_sound user ctx (cc e10) in
      record {
        exp = exp;
        exp_claim = exp_claim;
        alive = alive;
        issuer = eq_of_issuer options claims (rw issued_true at e3);
        audience = eq_of_audience options claims (rw meant_true at e6);
        subject = rw named at e9;
        context = context;
      }

module _ (api : JsonApi) (hmac : Text → Text → Text) where
  -- A token of three dotless pieces whose signature is the encoded MAC of the first two under the
  -- configured secret, whose header names HS256, and whose claims hold.
  pub record IsSigned (options : AuthOptions) (now : ℕ) (token : Text) (ctx : RequestContext)
      : Type 0 where
    pub parts : Parts
    pub split : IsSplit token parts
    pub secret : options.jwt_secret ≢ []
    pub header : api.Json
    pub header_part : decode_jwt_json_part api parts.header ≡ some header
    pub alg : api.value_string header (lit "alg") [] ≡ ok (lit "HS256")
    pub claims : api.Json
    pub claims_part : decode_jwt_json_part api parts.payload ≡ some claims
    pub signature : parts.signature ≡ encode (hmac options.jwt_secret parts.signing_input)
    pub valid : ClaimsHold api options now claims ctx

  -- The two forms of token that are taken on trust if the options allow it.
  abbrev pub IsLegacy : AuthOptions → Text → RequestContext → Type 0
  IsLegacy options token ctx =
      (options.allow_legacy_token ≡ true)
      × (((token ≡ lit "dev-token") × (ctx ≡ of_user (lit "dev-user")))
          ⊎ ((starts_with token (lit "user:") ≡ true) × (ctx ≡ of_user (drop 5 token))))

  check_alg_sound :
      (options : AuthOptions) (now : ℕ) (parts : Parts) (header claims : Option api.Json)
      (ctx : RequestContext) (token : Text)
      → IsSplit token parts
      → options.jwt_secret ≢ []
      → decode_jwt_json_part api parts.header ≡ header
      → decode_jwt_json_part api parts.payload ≡ claims
      → check_alg api hmac options now parts header claims ≡ ok (some ctx)
      → IsSigned options now token ctx
  unfolding check_signature
  check_alg_sound options now parts none claims ctx token sp n h c e = absurd (ground arith)
  check_alg_sound options now parts (some header) none ctx token sp n h c e = absurd (ground arith)
  check_alg_sound options now parts (some header) (some claims) ctx token sp n h c e =
      let (alg, e1, e2) =
        >>=-Passed
          (λ alg.
            if str_eq alg (lit "HS256")
            then check_signature api hmac options now parts claims
            else ok none)
          _ (api.value_string header (lit "alg") []) e in
      let (is_hs256, e3) =
        held (str_eq alg (lit "HS256")) (check_signature api hmac options now parts claims) e2 in
      let mac = encode (hmac options.jwt_secret parts.signing_input) in
      let (same, e4) =
        held (constant_time_equal parts.signature mac) (check_claims api options now claims) e3 in
      record {
        parts = parts;
        split = sp;
        secret = n;
        header = header;
        header_part = h;
        alg = rw (eq_of_str_eq alg (lit "HS256") is_hs256) at e1;
        claims = claims;
        claims_part = c;
        signature = constant_time_equal→eq parts.signature mac same;
        valid = check_claims_sound api options now claims ctx e4;
      }

  ne_nil_of_is_empty : (t : Text) → is_empty t ≡ false → t ≢ []
  ne_nil_of_is_empty t e = λ h. ground arith

  check_jwt_sound :
      (options : AuthOptions) (now : ℕ) (found : Option Parts) (ctx : RequestContext) (token : Text)
      → split_token token ≡ found
      → check_jwt api hmac options now found ≡ ok (some ctx)
      → IsSigned options now token ctx
  unfolding check_jwt
  check_jwt_sound options now none ctx token sp e = absurd (ground arith)
  check_jwt_sound options now (some parts) ctx token sp e =
      let rest =
        check_alg api hmac options now parts (decode_jwt_json_part api parts.header)
          (decode_jwt_json_part api parts.payload) in
      let (filled, e1) = passed (is_empty options.jwt_secret) rest e in
      check_alg_sound options now parts (decode_jwt_json_part api parts.header)
        (decode_jwt_json_part api parts.payload) ctx token (split_token-IsSplit token parts sp)
        (ne_nil_of_is_empty options.jwt_secret filled) refl refl e1

  some_ok :
      {c : RequestContext} (ctx : RequestContext)
      → ◌≡◌ {A = Result (Option RequestContext)} (ok (some c)) (ok (some ctx))
      → ctx ≡ c
  some_ok ctx e = cc e

  -- A token that is accepted is not empty and, without its `Bearer ` prefix, is either one of the
  -- legacy forms while those are allowed, or carries a valid signature, algorithm, and claims.
  pub authenticate_sound :
      (options : AuthOptions) (now : ℕ) (token : Text) (ctx : RequestContext)
      → authenticate api hmac options now token ≡ ok (some ctx)
      → (token ≢ [])
        × (IsLegacy options (normalize token) ctx ⊎ IsSigned options now (normalize token) ctx)
  unfolding authenticate
  authenticate_sound options now token ctx e =
      let t = normalize token in
      let jwt = check_jwt api hmac options now (split_token t) in
      let user = starts_with t (lit "user:") in
      let by_user =
        if options.allow_legacy_token && user then ok (some (of_user (drop 5 t))) else jwt in
      let by_dev =
        if options.allow_legacy_token && str_eq t (lit "dev-token")
        then ok (some (of_user (lit "dev-user")))
        else by_user in
      let (filled, e1) = passed (is_empty token) by_dev e in
      (
        ne_nil_of_is_empty token filled,
        elim (Bool-cases (options.allow_legacy_token && str_eq t (lit "dev-token"))) [
          | inl dev ↦
              let (allowed, same) = (and-eq-true_iff _ _).0 dev in
              inl (allowed, inl (eq_of_str_eq t (lit "dev-token") same, some_ok ctx (rw dev at e1)))
          | inr other ↦
              let e2 : by_user ≡ ok (some ctx) = rw other at e1 in
              elim (Bool-cases (options.allow_legacy_token && user)) [
                | inl legacy ↦
                    let (allowed, starts) = (and-eq-true_iff _ _).0 legacy in
                    inl (allowed, inr (starts, some_ok ctx (rw legacy at e2)))
                | inr strict ↦
                    inr (check_jwt_sound options now (split_token t) ctx t refl (rw strict at e2))
              ]
        ],
      )
