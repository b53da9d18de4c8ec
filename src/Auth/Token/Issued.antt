-- ===== src/Auth/Token/Issued.antt =====
-- Tokens that an issuer signs as RFC 7515 has it: encoded header, payload and MAC.
use kd.Base.{
  ℕ, ◌/◌, ◌%◌, ◌^◌, ◌≡◌, ◌≢◌, refl, true, false, ◌++◌, ◌∷◌, [], Option, none, some, Text, lit,
  str_eq_refl, is_empty, starts_with, length, arith, ◌==◌, ok,
}
use kd.Json.{JsonApi}
use kd.Auth.Base64.{encode, decode, triple}
use kd.Auth.Base64.Table.{table_char-ne-dot}
use kd.Auth.Base64.RoundTrip.{AreBytes, decode-encode}
use kd.Auth.Token.{
  AuthOptions, Parts, normalize, constant_time_equal, decode_jwt_json_part, check_claims,
  check_signature, check_alg, check_jwt, authenticate,
}
use kd.Auth.Token.Split.{Lacks, split_token-join}

-- Nothing that the encoder writes is a dot.
encode-Lacks : (xs : Text) → Lacks b'.' (encode xs)
unfolding encode
encode-Lacks [] = tt
encode-Lacks (a ∷ []) =
    let t = triple a 0 0 in
    (
      table_char-ne-dot (t / 2 ^ 18 % 64) (omega arith),
      (table_char-ne-dot (t / 2 ^ 12 % 64) (omega arith), tt),
    )
encode-Lacks (a ∷ b ∷ []) =
    let t = triple a b 0 in
    (
      table_char-ne-dot (t / 2 ^ 18 % 64) (omega arith),
      (
        table_char-ne-dot (t / 2 ^ 12 % 64) (omega arith),
        (table_char-ne-dot (t / 2 ^ 6 % 64) (omega arith), tt),
      ),
    )
encode-Lacks (a ∷ b ∷ c ∷ rest) =
    let t = triple a b c in
    (
      table_char-ne-dot (t / 2 ^ 18 % 64) (omega arith),
      (
        table_char-ne-dot (t / 2 ^ 12 % 64) (omega arith),
        (
          table_char-ne-dot (t / 2 ^ 6 % 64) (omega arith),
          (table_char-ne-dot (t % 64) (omega arith), encode-Lacks rest),
        ),
      ),
    )

-- header.payload
abbrev pub signing_input : Text → Text → Text
signing_input header payload = encode header ++ b'.' ∷ encode payload

-- `Bearer header.payload.mac`
abbrev pub bearer : (Text → Text → Text) → Text → Text → Text → Text
bearer hmac secret header payload =
    lit "Bearer "
    ++ (encode header
        ++ b'.' ∷ (encode payload ++ b'.' ∷ encode (hmac secret (signing_input header payload))))

normalize_bearer : (t : Text) → normalize (lit "Bearer " ++ t) ≡ t
unfolding normalize starts_with lit
normalize_bearer t = refl

bearer_filled : (t : Text) → is_empty (lit "Bearer " ++ t) ≡ false
unfolding lit
bearer_filled t = refl

constant_time_equal_refl : (t : Text) → constant_time_equal t t ≡ true
unfolding constant_time_equal
constant_time_equal_refl t = ground (arith, str_eq_refl t)

module _ (api : JsonApi) (hmac : Text → Text → Text) (options : AuthOptions) (now : ℕ) (h p : Text)
    (strict : options.allow_legacy_token ≡ false)
    (secret : is_empty options.jwt_secret ≡ false) where
  issued_parts : Parts
  issued_parts = record {
    header = encode h;
    payload = encode p;
    signature = encode (hmac options.jwt_secret (signing_input h p));
    signing_input = signing_input h p;
  }

  -- The token reaches the check of its algorithm with the parts that were signed.
  authenticate_issued :
      authenticate api hmac options now (bearer hmac options.jwt_secret h p)
      ≡ check_alg api hmac options now issued_parts
          (decode_jwt_json_part api (encode h))
          (decode_jwt_json_part api (encode p))
  unfolding authenticate check_jwt issued_parts
  authenticate_issued = rw (
    normalize_bearer (
        encode h
        ++ b'.' ∷ (encode p ++ b'.' ∷ encode (hmac options.jwt_secret (signing_input h p)))),
    bearer_filled (
        encode h
        ++ b'.' ∷ (encode p ++ b'.' ∷ encode (hmac options.jwt_secret (signing_input h p)))),
    strict,
    split_token-join (encode h) (encode p) (encode (hmac options.jwt_secret (signing_input h p)))
        (encode-Lacks h) (encode-Lacks p)
        (encode-Lacks (hmac options.jwt_secret (signing_input h p))),
    secret,
  )

part_aligned :
    (api : JsonApi) (t : Text) (j : api.Json)
    → AreBytes t
    → length t % 3 ≡ 0
    → api.parse t ≡ some j
    → api.is_object j ≡ true
    → decode_jwt_json_part api (encode t) ≡ some j
unfolding decode_jwt_json_part
part_aligned api t j b l e o =
    let aligned : (length t % 3 == 0) ≡ true = ground arith in
    let decoded : decode (encode t) ≡ some t = rw (decode-encode t b) (rw aligned) in
    rw (decoded, decode_jwt_json_part, e, o)

part_unaligned :
    (api : JsonApi) (t : Text)
    → AreBytes t
    → length t % 3 ≢ 0
    → decode_jwt_json_part api (encode t) ≡ none
unfolding decode_jwt_json_part
part_unaligned api t b l =
    let odd : (length t % 3 == 0) ≡ false = ground arith in
    let decoded : decode (encode t) ≡ none = rw (decode-encode t b) (rw odd) in
    rw (decoded, decode_jwt_json_part)

-- With legacy tokens off and a secret set, a signed HS256 token whose header and payload are JSON
-- objects with a number of bytes divisible by 3 gets exactly the answer of the claim checks.
pub issued_answer :
    (api : JsonApi) (hmac : Text → Text → Text) (options : AuthOptions) (now : ℕ) (h p : Text)
    (header claims : api.Json)
    → options.allow_legacy_token ≡ false
    → is_empty options.jwt_secret ≡ false
    → AreBytes h × (length h % 3 ≡ 0) × (api.parse h ≡ some header) × (api.is_object header ≡ true)
    → api.value_string header (lit "alg") [] ≡ ok (lit "HS256")
    → AreBytes p × (length p % 3 ≡ 0) × (api.parse p ≡ some claims) × (api.is_object claims ≡ true)
    → authenticate api hmac options now (bearer hmac options.jwt_secret h p)
      ≡ check_claims api options now claims
unfolding check_signature issued_parts
issued_answer api hmac options now h p header claims strict secret (hb, hl, he, ho) alg
      (pb, pl, pe, po) =
    rw (
      authenticate_issued api hmac options now h p strict secret,
      part_aligned api h header hb hl he ho,
      part_aligned api p claims pb pl pe po,
      alg,
      str_eq_refl (lit "HS256"),
      constant_time_equal_refl (encode (hmac options.jwt_secret (signing_input h p))),
    )

-- With legacy tokens off and a secret set, a token signed with that secret is refused whatever its
-- claims are, once the number of bytes of its payload is not divisible by 3.
pub unaligned_refused :
    (api : JsonApi) (hmac : Text → Text → Text) (options : AuthOptions) (now : ℕ) (h p : Text)
    → options.allow_legacy_token ≡ false
    → is_empty options.jwt_secret ≡ false
    → AreBytes p
    → length p % 3 ≢ 0
    → authenticate api hmac options now (bearer hmac options.jwt_secret h p) ≡ ok none
unaligned_refused api hmac options now h p strict secret b l =
    rw (authenticate_issued api hmac options now h p strict secret, part_unaligned api p b l)
      (no_claims (decode_jwt_json_part api (encode h)))
  where
    no_claims :
        (header : Option api.Json)
        → check_alg api hmac options now
            (issued_parts api hmac options now h p strict secret)
            header
            none
          ≡ ok none
    no_claims none = refl
    no_claims (some header) = refl
