-- ===== src/Number.antt =====
-- Integers, and the standard library's conversions between numbers and texts: `std::to_string`,
-- `std::stol`, `std::stoi` and `std::stoul`, for 32-bit `int` and 64-bit `long`.
use Prim.Native.Nat.{◌*◌, ◌/◌, ◌%◌, ◌^◌}
use Prim.Native.Char.{code}
use tkmcollector.Prelude.{
  ℕ, zero, suc, ◌+◌, ◌-◌, String, ◌<>◌, Bool, true, false, List, [], ◌∷◌, ◌&&◌, ◌||◌, if◌then◌else◌,
  nat_eq, leb, ◌≡◌, refl,
}
use tkmcollector.Outcome.{Outcome, ok, throws, invalid_argument, out_of_range}

-- `negsuc n` is -(n + 1).
pub data ℤ : Type 0 where
  pos : ℕ → ℤ
  negsuc : ℕ → ℤ

abbrev pub minus_one : ℤ
minus_one = negsuc 0

abbrev pub is_minus_one : ℤ → Bool
is_minus_one (negsuc zero) = true
is_minus_one _ = false

digit_text : ℕ → String
digit_text zero = "0"
digit_text (suc zero) = "1"
digit_text (suc (suc zero)) = "2"
digit_text (suc (suc (suc zero))) = "3"
digit_text (suc (suc (suc (suc zero)))) = "4"
digit_text (suc (suc (suc (suc (suc zero))))) = "5"
digit_text (suc (suc (suc (suc (suc (suc zero)))))) = "6"
digit_text (suc (suc (suc (suc (suc (suc (suc zero))))))) = "7"
digit_text (suc (suc (suc (suc (suc (suc (suc (suc zero)))))))) = "8"
digit_text _ = "9"

-- The fuel is at least the number of digits.
digits_text : ℕ → ℕ → String
digits_text zero n = ""
digits_text (suc fuel) n =
    let more = digits_text fuel (n / 10) <> digit_text (n % 10) in
    if leb n 9 then digit_text n else more

unfoldable pub to_string : ℕ → String
unfolding digits_text digit_text
to_string n = digits_text (suc n) n

unfoldable pub int_to_string : ℤ → String
unfolding to_string
int_to_string (pos n) = to_string n
int_to_string (negsuc n) = "-" <> to_string (suc n)

-- The code points of a text.
abbrev pub codes : String → List ℕ
codes String.[] = []
codes (String.◌∷◌ c s) = code c ∷ codes s

is_space : ℕ → Bool
is_space c = nat_eq c 32 || (leb 9 c && leb c 13)

is_digit : ℕ → Bool
is_digit c = leb b'0' c && leb c b'9'

skip_spaces : List ℕ → List ℕ
skip_spaces [] = []
skip_spaces (c ∷ cs) = let rest = skip_spaces cs in if is_space c then rest else c ∷ cs

-- The value of the leading digits after `n`.
read_digits : ℕ → List ℕ → ℕ
read_digits n [] = n
read_digits n (c ∷ cs) =
    let rest = read_digits (n * 10 + (c - b'0')) cs in if is_digit c then rest else n

-- A number's sign and size; what stands behind its digits is not read.
read_unsigned : Bool → List ℕ → Outcome (Bool × ℕ)
read_unsigned negative [] = throws invalid_argument
read_unsigned negative (c ∷ cs) =
    if is_digit c then ok (negative, read_digits 0 (c ∷ cs)) else throws invalid_argument

read_signed : List ℕ → Outcome (Bool × ℕ)
read_signed [] = throws invalid_argument
read_signed (c ∷ cs) =
    if nat_eq c b'-'
    then read_unsigned true cs
    else if nat_eq c b'+'
    then read_unsigned false cs
    else read_unsigned false (c ∷ cs)

unfoldable pub read_number : String → Outcome (Bool × ℕ)
unfolding is_space is_digit skip_spaces read_digits read_unsigned read_signed
read_number s = read_signed (skip_spaces (codes s))

negate : ℕ → ℤ
negate zero = pos 0
negate (suc n) = negsuc n

-- A signed type whose least value is -half.
signed : ℕ → Outcome (Bool × ℕ) → Outcome ℤ
signed half (ok (true, n)) = if leb n half then ok (negate n) else throws out_of_range
signed half (ok (false, n)) = if leb (suc n) half then ok (pos n) else throws out_of_range
signed half (throws x) = throws x
signed half Outcome.null_pointer = Outcome.null_pointer

unfoldable pub stol : String → Outcome ℤ
unfolding read_number signed negate
stol s = signed (2 ^ 63) (read_number s)

unfoldable pub stoi : String → Outcome ℤ
unfolding read_number signed negate
stoi s = signed (2 ^ 31) (read_number s)

-- A minus sign negates in the unsigned type.
unsigned : Outcome (Bool × ℕ) → Outcome ℕ
unsigned (ok (negative, n)) =
    if leb n (2 ^ 64 - 1)
    then if negative then ok ((2 ^ 64 - n) % 2 ^ 64) else ok n
    else throws out_of_range
unsigned (throws x) = throws x
unsigned Outcome.null_pointer = Outcome.null_pointer

unfoldable pub stoul : String → Outcome ℕ
unfolding read_number unsigned
stoul s = unsigned (read_number s)

-- `static_cast<int>` of a long.
unfoldable pub to_int32 : ℤ → ℤ
to_int32 z = wrap (elim z [ pos n ↦ n % 2 ^ 32 | negsuc n ↦ 2 ^ 32 - 1 - n % 2 ^ 32 ])
  where
    wrap : ℕ → ℤ
    wrap n = if leb (suc n) (2 ^ 31) then pos n else negsuc (2 ^ 32 - 1 - n)

-- `static_cast<uint16_t>` of an int.
unfoldable pub to_uint16 : ℤ → ℕ
to_uint16 (pos n) = n % 2 ^ 16
to_uint16 (negsuc n) = 2 ^ 16 - 1 - n % 2 ^ 16

-- `static_cast<uint64_t>` of a long.
unfoldable pub to_uint64 : ℤ → ℕ
to_uint64 (pos n) = n % 2 ^ 64
to_uint64 (negsuc n) = 2 ^ 64 - 1 - n % 2 ^ 64

to_string_test : to_string 4096 ≡ "4096"
unfolding to_string
to_string_test = refl

stol_tests :
    (stol " -12x" ≡ ok (negsuc 11))
    × (stol "x" ≡ throws invalid_argument)
    × (to_int32 (pos 4294967295) ≡ minus_one)
    × (to_uint16 (negsuc 0) ≡ 65535)
unfolding stol to_int32 to_uint16
stol_tests = (refl, refl, refl, refl)
