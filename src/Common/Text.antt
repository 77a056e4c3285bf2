-- ===== src/Common/Text.antt =====
-- Texts, and those of numbers: `substr`, `std::to_string` and `std::stoull` of the C++ library. A text
-- of the development is a `std::string`: each of its characters stands for one byte.
pub mod Laws
pub mod Integer
use Prim.Native.Char.{code}
use Prim.Native.String.{◌++◌}
use mile_explorer.Common.{
  ℕ, zero, suc, ◌+◌, ◌-◌, ◌*◌, ◌/◌, ◌%◌, ◌^◌, String, Bool, true, false, ◌&&◌, ◌||◌, Option, none,
  some, List, [], ◌∷◌, ltb, leb, ◌==◌, if◌then◌else◌,
}
use mile_explorer.Common.Exec.{Result, ok, throw, std_error}

abbrev pub digit : ℕ → String
digit d =
    if d == 0
    then "0"
    else if d == 1
    then "1"
    else if d == 2
    then "2"
    else if d == 3
    then "3"
    else if d == 4
    then "4"
    else if d == 5
    then "5"
    else if d == 6
    then "6"
    else if d == 7
    then "7"
    else if d == 8
    then "8"
    else "9"

print_digits : ℕ → ℕ → String
print_digits zero n = ""
print_digits (suc fuel) n =
    let rest = print_digits fuel (n / 10) in if ltb n 10 then digit n else rest ++ digit (n % 10)

-- A number has fewer digits than its successor counts.
unfoldable pub to_string : ℕ → String
unfolding print_digits
to_string n = print_digits (suc n) n

abbrev pub codes : String → List ℕ
codes String.[] = []
codes (String.◌∷◌ c s) = code c ∷ codes s

-- `s.substr(0, n)`
unfoldable pub substr : String → ℕ → String
substr s zero = ""
substr String.[] (suc n) = ""
substr (String.◌∷◌ c s) (suc n) = String.◌∷◌ c (substr s n)

is_digit : ℕ → Bool
is_digit c = leb b'0' c && leb c b'9'

is_space : ℕ → Bool
is_space c = c == 32 || leb 9 c && leb c 13

-- The digits at the front, if there is one.
read_digits : ℕ → List ℕ → ℕ
unfolding is_digit
read_digits n [] = n
read_digits n (c ∷ cs) =
    let rest = read_digits (n * 10 + (c - b'0')) cs in if is_digit c then rest else n

read_number : List ℕ → Option ℕ
unfolding is_digit read_digits
read_number [] = none
read_number (c ∷ cs) = if is_digit c then some (read_digits 0 (c ∷ cs)) else none

-- A minus sign negates modulo 2^64.
abbrev as_uint64 : Bool → Option ℕ → Result ℕ
as_uint64 negative none = throw (std_error "stoull")
as_uint64 negative (some n) =
    if leb (2 ^ 64) n
    then throw (std_error "stoull")
    else ok (if negative then (2 ^ 64 - n) % 2 ^ 64 else n)

read_signed : List ℕ → Result ℕ
unfolding read_number
read_signed [] = throw (std_error "stoull")
read_signed (c ∷ cs) =
    if c == b'-'
    then as_uint64 true (read_number cs)
    else if c == b'+'
    then as_uint64 false (read_number cs)
    else as_uint64 false (read_number (c ∷ cs))

skip_spaces : List ℕ → List ℕ
unfolding is_space
skip_spaces [] = []
skip_spaces (c ∷ cs) = let rest = skip_spaces cs in if is_space c then rest else c ∷ cs

unfoldable pub stoull : String → Result ℕ
unfolding skip_spaces read_signed
stoull s = read_signed (skip_spaces (codes s))
