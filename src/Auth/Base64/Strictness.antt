-- ===== src/Auth/Base64/Strictness.antt =====
-- Which texts the decoder takes.
use kd.Base.{ℕ, ◌≡◌, ◌≢◌, refl, false, none, arith, ◌==◌, pos, negsuc}
use kd.Auth.Base64.{decode_char, decode_quad}

decode_char_first : decode_char b'A' ≡ pos 0
unfolding decode_char
decode_char_first = refl

decode_char_pad : decode_char b'=' ≡ negsuc 0
unfolding decode_char
decode_char_pad = refl

-- In the third and the fourth place of a group a byte outside the alphabet, other than the padding
-- character, is not refused: it is read as `A`.
invalid_read_as_zero :
    (p q r s : ℕ)
    → decode_char r ≡ negsuc 0
    → r ≢ b'='
    → (decode_quad p q r s ≡ decode_quad p q b'A' s)
      × (s ≢ b'=' → decode_quad p q s r ≡ decode_quad p q s b'A')
unfolding decode_quad
invalid_read_as_zero p q r s h n =
    let e : (r == b'=') ≡ false = ground arith in
    (
      rw (e, h, decode_char_first) (ground arith),
      λ m.
          let d : (s == b'=') ≡ false = ground arith in
          rw (e, d, h, decode_char_first) (ground arith),
    )

-- A group with the padding character in any place is refused, whatever else it holds.
padding_refused :
    (p q r s : ℕ)
    → (decode_quad b'=' q r s ≡ none)
      × (decode_quad p b'=' r s ≡ none)
      × (decode_quad p q b'=' s ≡ none)
      × (decode_quad p q r b'=' ≡ none)
unfolding decode_quad
padding_refused p q r s =
    (rw decode_char_pad refl, rw decode_char_pad (ground arith), ground arith, ground arith)
