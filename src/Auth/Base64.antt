-- ===== src/Auth/Base64.antt =====
-- Base64UrlEncode, DecodeBase64UrlChar and Base64UrlDecode of
-- gateways/access_gateway/auth/auth_middleware.cpp. Texts are lists of bytes. The parts that `|`
-- joins occupy different bits, so it is written as a sum; `x >> k` is `x / 2 ^ k`.
pub mod Table
pub mod RoundTrip
pub mod Strictness
use kd.Base.{
  ℕ, zero, suc, ◌+◌, ◌*◌, ◌-◌, ◌/◌, ◌%◌, ◌^◌, Bool, ◌&&◌, ◌||◌, List, [], ◌∷◌, ◌++◌, Option, none,
  some, Text, lit, length, take, leb, ◌==◌, if◌then◌else◌, ℤ, pos, negsuc, ltb_ℤ,
}

abbrev get_or : Text → ℕ → ℕ → ℕ
get_or [] i d = d
get_or (x ∷ xs) zero d = x
get_or (x ∷ xs) (suc i) d = get_or xs i d

-- kTable[i]
unfoldable pub table_char : ℕ → ℕ
unfolding lit
table_char i = get_or (lit "ABCDEFGHIJKLMNOPQRSTUVWXYZabcdefghijklmnopqrstuvwxyz0123456789-_") i 0

abbrev pub triple : ℕ → ℕ → ℕ → ℕ
triple octet_a octet_b octet_c = octet_a * 2 ^ 16 + octet_b * 2 ^ 8 + octet_c

-- The four characters of one round of the encoder.
abbrev quad : ℕ → Text
quad t =
    table_char (t / 2 ^ 18 % 64)
    ∷ table_char (t / 2 ^ 12 % 64)
    ∷ table_char (t / 2 ^ 6 % 64)
    ∷ table_char (t % 64)
    ∷ []

-- A last round with one or two octets takes 0 for the others and writes two or three characters.
unfoldable pub encode : Text → Text
encode [] = []
encode (a ∷ []) = take 2 (quad (triple a 0 0))
encode (a ∷ b ∷ []) = take 3 (quad (triple a b 0))
encode (a ∷ b ∷ c ∷ rest) = quad (triple a b c) ++ encode rest

unfoldable pub decode_char : ℕ → ℤ
decode_char ch =
    if leb b'A' ch && leb ch b'Z'
    then pos (ch - b'A')
    else if leb b'a' ch && leb ch b'z'
    then pos (ch - b'a' + 26)
    else if leb b'0' ch && leb ch b'9'
    then pos (ch - b'0' + 52)
    else if ch == b'-' || ch == b'+'
    then pos 62
    else if ch == b'_' || ch == b'/'
    then pos 63
    else negsuc 0

-- -2 for the padding character
abbrev decode_or_pad : ℕ → ℤ
decode_or_pad ch = if ch == b'=' then negsuc 1 else decode_char ch

abbrev pub or_zero : ℤ → ℕ
or_zero (pos n) = n
or_zero (negsuc n) = 0

-- The octets that one round of the decoder writes.
abbrev octets : ℕ → ℕ → ℕ → Text
octets t third fourth =
    (t / 2 ^ 16 % 256)
    ∷ ((if third == b'=' then [] else t / 2 ^ 8 % 256 ∷ [])
        ++ (if fourth == b'=' then [] else t % 256 ∷ []))

-- One round: `none` for `return std::nullopt`.
unfoldable pub decode_quad : ℕ → ℕ → ℕ → ℕ → Option Text
decode_quad p q r s =
    let a = decode_char p in
    let b = decode_char q in
    let c = decode_or_pad r in
    let d = decode_or_pad s in
    if ltb_ℤ a (pos 0) || ltb_ℤ b (pos 0) || ltb_ℤ c (negsuc 0) || ltb_ℤ d (negsuc 0)
    then none
    else some (octets (or_zero a * 2 ^ 18 + or_zero b * 2 ^ 12 + or_zero c * 2 ^ 6 + or_zero d) r s)

abbrev pub append_result : Option Text → Option Text → Option Text
append_result none rest = none
append_result (some out) none = none
append_result (some out) (some more) = some (out ++ more)

-- The loop over groups of four; the padding leaves no shorter group.
unfoldable pub decode_groups : Text → Option Text
decode_groups [] = some []
decode_groups (p ∷ q ∷ r ∷ s ∷ rest) = append_result (decode_quad p q r s) (decode_groups rest)
decode_groups _ = none

-- `while (b64.size() % 4 != 0) b64.push_back('=')`: three rounds are enough.
unfoldable pub pad : ℕ → Text → Text
pad zero s = s
pad (suc fuel) s = let more = pad fuel (s ++ b'=' ∷ []) in if length s % 4 == 0 then s else more

unfoldable pub decode : Text → Option Text
unfolding decode_groups decode_quad decode_char pad
decode input = decode_groups (pad 3 input)
