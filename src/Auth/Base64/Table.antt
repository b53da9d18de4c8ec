-- ===== src/Auth/Base64/Table.antt =====
-- The table of the encoder against the ranges of the decoder.
use kd.Base.{
  ℕ, zero, suc, ◌<◌, ◌≡◌, refl, Bool, true, ◌||◌, arith, not, ◌==◌, ◌≢◌, ℤ, pos, negsuc, false,
}
use kd.Auth.Base64.{table_char, decode_char}

-- Whether the test `p` fails at a number under the bound.
fails_under : (p : ℕ → Bool) (bound : ℕ) → Bool
fails_under p zero = false
fails_under p (suc i) = fails_under p i || not (p i)

holds_under : (p : ℕ → Bool) (bound i : ℕ) → i < bound → fails_under p bound ≡ false → p i ≡ true
unfolding fails_under
holds_under p zero i under no_failure = elim under [ ]
holds_under p (suc bound) i under no_failure = ground (arith, holds_under p bound i)

abbrev is_pos : ℤ → ℕ → Bool
is_pos (pos n) m = n == m
is_pos (negsuc n) m = false

pos_of_is_pos : (z : ℤ) (m : ℕ) → is_pos z m ≡ true → z ≡ pos m
pos_of_is_pos (pos n) m h = ground arith
pos_of_is_pos (negsuc n) m h = cc

inverse_table : fails_under (λ i. is_pos (decode_char (table_char i)) i) 64 ≡ false
unfolding fails_under decode_char table_char
inverse_table = refl

pub decode_char-table_char : (i : ℕ) → i < 64 → decode_char (table_char i) ≡ pos i
decode_char-table_char i h =
    pos_of_is_pos _ i
      (holds_under (λ i. is_pos (decode_char (table_char i)) i) 64 i h inverse_table)

no_pad_table : fails_under (λ i. not (table_char i == b'=')) 64 ≡ false
unfolding fails_under table_char
no_pad_table = refl

pub table_char-ne-pad : (i : ℕ) → i < 64 → (table_char i == b'=') ≡ false
table_char-ne-pad i h =
    ground (arith, holds_under (λ i. not (table_char i == b'=')) 64 i h no_pad_table)

no_dot_table : fails_under (λ i. not (table_char i == b'.')) 64 ≡ false
unfolding fails_under table_char
no_dot_table = refl

pub table_char-ne-dot : (i : ℕ) → i < 64 → table_char i ≢ b'.'
table_char-ne-dot i h =
    λ e. ground (arith, holds_under (λ i. not (table_char i == b'.')) 64 i h no_dot_table)
