-- ===== src/Auth/Base64/RoundTrip.antt =====
-- Decoding what was encoded.
use kd.Base.{
  ℕ, zero, suc, ◌+◌, ◌*◌, ◌/◌, ◌%◌, ◌^◌, ◌<◌, ◌≡◌, refl, [], ◌∷◌, ◌++◌, Option, none, some, Text,
  arith, length, ◌==◌, if◌then◌else◌, All,
}
use kd.Auth.Base64.{
  table_char, triple, encode, decode_quad, append_result, decode_groups, pad, decode,
}
use kd.Auth.Base64.Table.{decode_char-table_char, table_char-ne-pad}

abbrev pub AreBytes : Text → Type 0
AreBytes = All (λ x. x < 256)

decode_quad_table :
    (i j k l : ℕ)
    → i < 64
    → j < 64
    → k < 64
    → l < 64
    → decode_quad (table_char i) (table_char j) (table_char k) (table_char l)
      ≡ some (
          let t = i * 2 ^ 18 + j * 2 ^ 12 + k * 2 ^ 6 + l in
          t / 2 ^ 16 % 256 ∷ t / 2 ^ 8 % 256 ∷ t % 256 ∷ [])
unfolding decode_quad
decode_quad_table i j k l hi hj hk hl =
    rw
      (
        table_char-ne-pad k hk,
        table_char-ne-pad l hl,
        decode_char-table_char i hi,
        decode_char-table_char j hj,
        decode_char-table_char k hk,
        decode_char-table_char l hl,
      )
      (ground arith)

recombine :
    (t : ℕ)
    → t < 2 ^ 24
    → t / 2 ^ 18 % 64 * 2 ^ 18 + t / 2 ^ 12 % 64 * 2 ^ 12 + t / 2 ^ 6 % 64 * 2 ^ 6 + t % 64 ≡ t
recombine t h = omega arith

split_triple :
    (a b c : ℕ)
    → a < 256
    → b < 256
    → c < 256
    → (triple a b c < 2 ^ 24)
      × (triple a b c / 2 ^ 16 % 256 ≡ a)
      × (triple a b c / 2 ^ 8 % 256 ≡ b)
      × (triple a b c % 256 ≡ c)
split_triple a b c ha hb hc = omega arith

-- A full round is undone.
decode_quad-quad :
    (a b c : ℕ)
    → a < 256
    → b < 256
    → c < 256
    → let t = triple a b c in
      decode_quad
        (table_char (t / 2 ^ 18 % 64))
        (table_char (t / 2 ^ 12 % 64))
        (table_char (t / 2 ^ 6 % 64))
        (table_char (t % 64))
      ≡ some (a ∷ b ∷ c ∷ [])
decode_quad-quad a b c ha hb hc =
    let t = triple a b c in
    rw
      (decode_quad_table (t / 2 ^ 18 % 64) (t / 2 ^ 12 % 64) (t / 2 ^ 6 % 64) (t % 64) (omega arith)
        (omega arith) (omega arith) (omega arith))
      (let (h, ea, eb, ec) = split_triple a b c ha hb hc in rw (recombine t h, ea, eb, ec))

pad_quad :
    (fuel p q r s : ℕ) (xs : Text) → pad fuel (p ∷ q ∷ r ∷ s ∷ xs) ≡ p ∷ q ∷ r ∷ s ∷ pad fuel xs
unfolding pad
pad_quad zero p q r s xs = refl
pad_quad (suc fuel) p q r s xs = ground (arith, pad_quad fuel p q r s (xs ++ b'=' ∷ []))

-- A padded group is refused.
decode_quad_padded :
    (i j r : ℕ) → i < 64 → j < 64 → decode_quad (table_char i) (table_char j) r b'=' ≡ none
unfolding decode_quad
decode_quad_padded i j r hi hj =
    rw (decode_char-table_char i hi, decode_char-table_char j hj) (ground arith)

join_rest :
    (a b c : ℕ) (rest : Text) {d : Option Text}
    → d ≡ (if length rest % 3 == 0 then some rest else none)
    → append_result (some (a ∷ b ∷ c ∷ [])) d
      ≡ (if length (a ∷ b ∷ c ∷ rest) % 3 == 0 then some (a ∷ b ∷ c ∷ rest) else none)
join_rest a b c rest e = rw e (ground arith)

-- Decoding an encoded text of bytes gives the text back exactly if its length is a multiple of 3; at any
-- other length the decoder refuses what the encoder wrote.
pub decode-encode :
    (xs : Text) → AreBytes xs → decode (encode xs) ≡ (if length xs % 3 == 0 then some xs else none)
unfolding decode decode_groups pad encode
decode-encode [] h = refl
decode-encode (a ∷ []) h = rw (
    decode_quad_padded (triple a 0 0 / 2 ^ 18 % 64) (triple a 0 0 / 2 ^ 12 % 64) b'=' (omega arith)
      (omega arith))
decode-encode (a ∷ b ∷ []) h = rw (
    decode_quad_padded (triple a b 0 / 2 ^ 18 % 64) (triple a b 0 / 2 ^ 12 % 64)
      (table_char (triple a b 0 / 2 ^ 6 % 64)) (omega arith) (omega arith))
decode-encode (a ∷ b ∷ c ∷ rest) (ha, (hb, (hc, h))) =
    rw
      (pad_quad 3 (table_char (triple a b c / 2 ^ 18 % 64))
        (table_char (triple a b c / 2 ^ 12 % 64)) (table_char (triple a b c / 2 ^ 6 % 64))
        (table_char (triple a b c % 64)) (encode rest))
      (rw (decode_quad-quad a b c ha hb hc) (join_rest a b c rest (decode-encode rest h)))
