-- ===== src/Common/Float.antt =====
-- The floating-point numbers of C++ as an interface: `float`, `double` and `long double` are one type,
-- and what is known of it is what the code calls.
use mile_explorer.Common.{ℕ, zero, suc, ◌+◌, ◌*◌, ◌/◌, ◌%◌, ◌^◌, ltb, if◌then◌else◌, String}
use mile_explorer.Common.Exec.{Result}

pub record FloatLib (F : Type 0) : Type 0 where
  pub zero : F
  pub add : F → F → F
  pub stof : String → Result F
  pub stold : String → Result F

-- The nearest multiple of a step, the even one of two.
round_to : ℕ → ℕ → ℕ
round_to step n =
    let q = n / step in
    let twice = 2 * (n % step) in
    if ltb twice step
    then q * step
    else if ltb step twice
    then (q + 1) * step
    else (q + q % 2) * step

nearest : ℕ → ℕ → ℕ → ℕ
unfolding round_to
nearest zero step n = round_to step n
nearest (suc more) step n =
    let wider = nearest more (2 * step) n in
    if ltb n (2 ^ 53 * step) then round_to step n else wider

-- The `double` that is nearest to a number below 2^64.
unfoldable pub as_double : ℕ → ℕ
unfolding nearest
as_double n = nearest 11 1 n
