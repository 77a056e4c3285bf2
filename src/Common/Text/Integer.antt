-- ===== src/Common/Text/Integer.antt =====
-- `std::stoi` of the C++ library, and the casts of its result.
use mile_explorer.Common.{
  ℕ, ◌-◌, ◌%◌, ◌^◌, String, Bool, true, false, Option, none, some, List, [], ◌∷◌, ltb, leb, ◌==◌,
  if◌then◌else◌,
}
use mile_explorer.Common.Exec.{Result, ok, throw, std_error}
use mile_explorer.Common.Int.{ℤ, pos, negsuc}
use mile_explorer.Common.Text.{codes, read_number, skip_spaces}

-- A 32-bit number.
abbrev as_int : Bool → Option ℕ → Result ℤ
as_int negative none = throw (std_error "stoi")
as_int true (some n) =
    if ltb (2 ^ 31) n
    then throw (std_error "stoi")
    else ok (if n == 0 then pos 0 else negsuc (n - 1))
as_int false (some n) = if leb (2 ^ 31) n then throw (std_error "stoi") else ok (pos n)

read_int : List ℕ → Result ℤ
unfolding read_number
read_int [] = throw (std_error "stoi")
read_int (c ∷ cs) =
    if c == b'-'
    then as_int true (read_number cs)
    else if c == b'+'
    then as_int false (read_number cs)
    else as_int false (read_number (c ∷ cs))

unfoldable pub stoi : String → Result ℤ
unfolding skip_spaces read_int
stoi s = read_int (skip_spaces (codes s))

-- `(unsigned short)`
abbrev pub to_ushort : ℤ → ℕ
to_ushort (pos n) = n % 2 ^ 16
to_ushort (negsuc n) = 2 ^ 16 - 1 - n % 2 ^ 16

-- A 64-bit number that is read as signed.
abbrev pub to_time : ℕ → ℤ
to_time n = if ltb n (2 ^ 63) then pos n else negsuc (2 ^ 64 - 1 - n)
