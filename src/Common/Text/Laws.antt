-- ===== src/Common/Text/Laws.antt =====
-- `std::stoull` reads back what `std::to_string` prints.
use Prim.Native.Char.{code}
use Prim.Native.String.{◌++◌}
use mathlib.Core.List.{◌++◌ as ◌+++◌}
use text.Mathlib.TextLemmas.{nil-append, cons-append}
use mile_explorer.Common.{
  ℕ, zero, suc, ◌+◌, ◌-◌, ◌*◌, ◌/◌, ◌%◌, ◌^◌, ◌<◌, ◌≤◌, String, ◌≡◌, refl, ap, ◌∙◌, sym, true,
  false, List, [], ◌∷◌, arith, inl, inr, ltb, Bool-cases, subst,
}
use mile_explorer.Common.Lists.{All}
use mile_explorer.Common.Exec.{ok}
use mile_explorer.Common.Text.{
  digit, print_digits, to_string, codes, is_digit, is_space, read_digits, read_number, read_signed,
  skip_spaces, stoull,
}

codes-append : (s t : String) → codes (s ++ t) ≡ codes s +++ codes t
codes-append String.[] t = ap codes (nil-append t)
codes-append (String.◌∷◌ c s) t =
    ap codes (cons-append c s t) ∙ ap (λ (cs : List ℕ). code c ∷ cs) (codes-append s t)

codes-digit : (d : ℕ) → d < 10 → codes (digit d) ≡ (48 + d) ∷ []
codes-digit zero h = refl
codes-digit (suc zero) h = refl
codes-digit (suc (suc zero)) h = refl
codes-digit (suc (suc (suc zero))) h = refl
codes-digit (suc (suc (suc (suc zero)))) h = refl
codes-digit (suc (suc (suc (suc (suc zero))))) h = refl
codes-digit (suc (suc (suc (suc (suc (suc zero)))))) h = refl
codes-digit (suc (suc (suc (suc (suc (suc (suc zero))))))) h = refl
codes-digit (suc (suc (suc (suc (suc (suc (suc (suc zero)))))))) h = refl
codes-digit (suc (suc (suc (suc (suc (suc (suc (suc (suc zero))))))))) h = refl
codes-digit (suc (suc (suc (suc (suc (suc (suc (suc (suc (suc d)))))))))) h = absurd (ground arith)

abbrev IsDigit : ℕ → Type 0
IsDigit c = (48 ≤ c) × (c ≤ 57)

read-append_digit :
    (acc d : ℕ) (cs : List ℕ)
    → d < 10
    → All IsDigit cs
    → read_digits acc (cs +++ (48 + d) ∷ []) ≡ read_digits acc cs * 10 + d
unfolding read_digits is_digit
read-append_digit acc d [] h all = ground arith
read-append_digit acc d (c ∷ cs) h (this, all) =
    ground (arith, read-append_digit (acc * 10 + (c - 48)) d cs h all)

All-append-IsDigit :
    (d : ℕ) (cs : List ℕ) → d < 10 → All IsDigit cs → All IsDigit (cs +++ (48 + d) ∷ [])
All-append-IsDigit d [] h all = ((omega arith, omega arith), tt)
All-append-IsDigit d (c ∷ cs) h (this, all) = (this, All-append-IsDigit d cs h all)

-- The characters of a printed number: at least one digit, and what the digits read as.
record Prints (n : ℕ) (cs : List ℕ) : Type 0 where
  first : ℕ
  rest : List ℕ
  shape : cs ≡ first ∷ rest
  digits : All IsDigit (first ∷ rest)
  value : read_digits 0 (first ∷ rest) ≡ n

Prints-digit : (n : ℕ) → n < 10 → Prints n (codes (digit n))
unfolding read_digits is_digit
Prints-digit n h = record {
  first = 48 + n;
  rest = [];
  shape = codes-digit n h;
  digits = ((omega arith, omega arith), tt);
  value = ground arith;
}

Prints-append :
    (q r : ℕ) (s : String)
    → r < 10
    → Prints q (codes s)
    → Prints (q * 10 + r) (codes (s ++ digit r))
Prints-append q r s h p = record {
  first = p.first;
  rest = p.rest +++ (48 + r) ∷ [];
  shape = ground (arith, codes-append s (digit r), codes-digit r h);
  digits = All-append-IsDigit r (p.first ∷ p.rest) h p.digits;
  value = read-append_digit 0 r (p.first ∷ p.rest) h p.digits ∙ ap (λ v. v * 10 + r) p.value;
}

Prints-print_digits : (fuel n : ℕ) → n < fuel → Prints n (codes (print_digits fuel n))
unfolding print_digits
Prints-print_digits zero n h = absurd (omega arith)
Prints-print_digits (suc fuel) n h =
    let short : ltb n 10 ≡ true → print_digits (suc fuel) n ≡ digit n = λ e. rw e in
    let long : ltb n 10 ≡ false
        → print_digits (suc fuel) n ≡ print_digits fuel (n / 10) ++ digit (n % 10) =
      λ e. rw e in
    elim (Bool-cases (ltb n 10)) [
      | inl e ↦
          subst (λ (t : String). Prints n (codes t)) (sym (short e)) (Prints-digit n (ground arith))
      | inr e ↦
          subst (λ (m : ℕ). Prints m (codes (print_digits (suc fuel) n))) (omega arith)
            (subst (λ (t : String). Prints (n / 10 * 10 + n % 10) (codes t)) (sym (long e))
              (Prints-append (n / 10) (n % 10) (print_digits fuel (n / 10)) (omega arith)
                (Prints-print_digits fuel (n / 10) (ground arith))))
    ]

-- `std::stoull` reads the text that `std::to_string` makes of a 64-bit number back.
pub stoull-to_string : (n : ℕ) → n < 2 ^ 64 → stoull (to_string n) ≡ ok n
unfolding stoull to_string skip_spaces is_space read_signed read_number is_digit
stoull-to_string n h =
    let p = Prints-print_digits (suc n) n (omega arith) in
    ground (arith, p.shape, p.value, p.digits)
