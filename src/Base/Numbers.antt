-- ===== src/Base/Numbers.antt =====
-- std::to_string, std::stoll and std::stoi. Both parsers skip white space, take a sign, and read
-- digits up to the first other byte; `what()` is the function's name, as libstdc++ has it.
use Prim.Native.Nat.{ℕ, zero, suc, ◌+◌, ◌*◌, ◌-◌, ◌/◌, ◌%◌, ◌^◌, ◌≤◌, ◌<◌}
use mathlib.Core.Path.{◌≡◌, refl, ◌∙◌, ap}
use mathlib.Core.Bool.{Bool, true, false, ◌&&◌, ◌||◌}
use mathlib.Core.Logic.{inl, inr}
use mathlib.Core.Option.{Option, none, some}
use mathlib.Core.List.{[], ◌∷◌}
use native.Mathlib.Omega.{arith}
use kd.Base.Tests.{leb, ltb, ◌==◌, if◌then◌else◌, Bool-cases}
use kd.Base.Bytes.{Text, lit}
use kd.Base.Results.{Result, ok, raised}
use kd.Base.Int.{ℤ, pos, negsuc, FitsInt, FitsInt64, leb_ℤ}

-- The digits of `n` before `acc`; a number has fewer digits than the fuel `n + 1`.
unfoldable digits : ℕ → ℕ → Text → Text
digits zero n acc = acc
digits (suc fuel) n acc =
    let more = digits fuel (n / 10) ((n % 10 + b'0') ∷ acc) in
    if ltb n 10 then (n + b'0') ∷ acc else more

unfoldable pub show : ℕ → Text
unfolding digits
show n = digits (suc n) n []

unfoldable pub to_string : ℤ → Text
unfolding show
to_string (pos n) = show n
to_string (negsuc n) = b'-' ∷ show (suc n)

abbrev is_digit : ℕ → Bool
is_digit c = leb b'0' c && leb c b'9'

abbrev is_space : ℕ → Bool
is_space c = c == 32 || leb 9 c && leb c 13

skip_spaces : Text → Text
skip_spaces [] = []
skip_spaces (c ∷ s) = if is_space c then skip_spaces s else c ∷ s

-- `seen` tells whether a digit was read before
read_digits : Bool → ℕ → Text → Option ℕ
read_digits seen acc [] = if seen then some acc else none
read_digits seen acc (c ∷ s) =
    let more = read_digits true (acc * 10 + (c - b'0')) s in
    if is_digit c then more else if seen then some acc else none

abbrev of_magnitude : Bool → Option ℕ → Option ℤ
of_magnitude negative none = none
of_magnitude false (some n) = some (pos n)
of_magnitude true (some zero) = some (pos 0)
of_magnitude true (some (suc n)) = some (negsuc n)

read_signed : Text → Option ℤ
unfolding read_digits
read_signed [] = none
read_signed (c ∷ s) =
    if c == b'-'
    then of_magnitude true (read_digits false 0 s)
    else if c == b'+'
    then of_magnitude false (read_digits false 0 s)
    else of_magnitude false (read_digits false 0 (c ∷ s))

abbrev in_range : ℕ → ℤ → Bool
in_range bound z = leb_ℤ (negsuc (bound - 1)) z && leb_ℤ z (pos (bound - 1))

abbrev checked : ℕ → Text → Option ℤ → Result ℤ
checked bound name none = raised name
checked bound name (some z) = if in_range bound z then ok z else raised name

unfoldable pub stoll : Text → Result ℤ
unfolding skip_spaces read_signed
stoll s = checked (2 ^ 63) (lit "stoll") (read_signed (skip_spaces s))

unfoldable pub stoi : Text → Result ℤ
unfolding skip_spaces read_signed
stoi s = checked (2 ^ 31) (lit "stoi") (read_signed (skip_spaces s))

read_digits-digits :
    (fuel n : ℕ) (acc : Text) (seen : Bool)
    → n < fuel
    → read_digits seen 0 (digits fuel n acc) ≡ read_digits true n acc
unfolding read_digits digits
read_digits-digits zero n acc seen h = elim h [ ]
read_digits-digits (suc fuel) n acc seen h = elim (Bool-cases (ltb n 10)) [
  | inl small ↦ rw small (ground arith)
  | inr large ↦
      rw large (
        read_digits-digits fuel (n / 10) ((n % 10 + b'0') ∷ acc) seen (ground arith) ∙ ground arith)
]

read_digits-show : (n : ℕ) → read_digits false 0 (show n) ≡ some n
unfolding show
read_digits-show n =
    read_digits-digits (suc n) n [] false (omega arith) ∙ (unfold read_digits in refl)

digits_head :
    (fuel n : ℕ) (acc : Text)
    → n < fuel
    → (d : ℕ) × (ds : Text) × (digits fuel n acc ≡ d ∷ ds) × (b'0' ≤ d) × (d ≤ b'9')
unfolding digits
digits_head zero n acc h = elim h [ ]
digits_head (suc fuel) n acc h = elim (Bool-cases (ltb n 10)) [
  | inl small ↦ rw small (n + b'0', acc, refl, omega arith, ground arith)
  | inr large ↦ rw large (digits_head fuel (n / 10) ((n % 10 + b'0') ∷ acc) (ground arith))
]

read_positive :
    (d : ℕ) (ds : Text) {n : ℕ}
    → b'0' ≤ d
    → d ≤ b'9'
    → read_digits false 0 (d ∷ ds) ≡ some n
    → read_signed (skip_spaces (d ∷ ds)) ≡ some (pos n)
unfolding read_signed skip_spaces
read_positive d ds h k e =
    let space : is_space d ≡ false = ground arith in
    let minus : (d == b'-') ≡ false = ground arith in
    let plus : (d == b'+') ≡ false = ground arith in
    rw (space, minus, plus) (ap (of_magnitude false) e)

show_head : (n : ℕ) → (d : ℕ) × (ds : Text) × (show n ≡ d ∷ ds) × (b'0' ≤ d) × (d ≤ b'9')
unfolding show
show_head n = digits_head (suc n) n [] (omega arith)

read-show : (n : ℕ) → read_signed (skip_spaces (show n)) ≡ some (pos n)
read-show n =
    let (d, ds, same, h, k) = show_head n in
    rw same (read_positive d ds h k (rw same at (read_digits-show n)))

-- Reading back what `std::to_string` printed.
read-to_string : (z : ℤ) → read_signed (skip_spaces (to_string z)) ≡ some z
unfolding to_string
read-to_string (pos n) = read-show n
read-to_string (negsuc n) =
    unfold read_signed skip_spaces in ap (of_magnitude true) (read_digits-show (suc n))

pub stoll-to_string : (z : ℤ) → FitsInt64 z → stoll (to_string z) ≡ ok z
unfolding stoll
stoll-to_string z h = rw (read-to_string z) (ground arith)

pub stoi-to_string : (z : ℤ) → FitsInt z → stoi (to_string z) ≡ ok z
unfolding stoi
stoi-to_string z h = rw (read-to_string z) (ground arith)

to_string_injective : (a b : ℤ) → to_string a ≡ to_string b → a ≡ b
to_string_injective a b e =
    cc (read-to_string a, ap (λ t. read_signed (skip_spaces t)) e, read-to_string b)

pub show_injective : (a b : ℕ) → show a ≡ show b → a ≡ b
show_injective a b e = cc (to_string_injective (pos a) (pos b) (unfold to_string in e))
