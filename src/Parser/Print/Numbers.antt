-- ===== src/Parser/Print/Numbers.antt =====
-- Decimal digits are one word, which `classify` of src/lexer.c reads as their number.
use database_in_c.Prelude.{
  ℕ, zero, suc, ◌+◌, ◌-◌, ◌*◌, ◌/◌, ◌%◌, ◌≤◌, ◌<◌, ◌≡◌, refl, true, [], ◌∷◌, ◌++◌, none, arith,
  length, length-append, All, ltb, Bool-cases, inl, inr,
}
use database_in_c.Chars.{
  digits_loop, digits, Bytes, decimal, strtol, long_max, is_digit, is_alnum, to_lower,
  eq_ignoring_case,
}
use database_in_c.Lexer.{token_integer, is_word, is_digits, keyword, classify}
use database_in_c.Lexer.Spell.{word_type, IsWord}

decimal-append :
    (acc : ℕ) (s : Bytes) (c : ℕ) → decimal acc (s ++ c ∷ []) ≡ decimal acc s * 10 + (c - b'0')
unfolding decimal
decimal-append acc [] c = refl
decimal-append acc (d ∷ s) c = decimal-append (acc * 10 + (d - b'0')) s c

decimal-digits_loop : (fuel n : ℕ) → n < fuel → decimal 0 (digits_loop fuel n) ≡ n
unfolding decimal digits_loop
decimal-digits_loop zero n h = absurd (omega arith)
decimal-digits_loop (suc fuel) n h = elim (Bool-cases (ltb n 10)) [
  | inl small ↦ rw small (omega arith)
  | inr large ↦
      rw
        (
          large,
          decimal-append 0 (digits_loop fuel (n / 10)) (b'0' + n % 10),
          decimal-digits_loop fuel (n / 10) (ground arith),
        )
        (omega arith)
]

pub strtol-digits : (n : ℕ) → n ≤ long_max → strtol (digits n) ≡ n
unfolding strtol
strtol-digits n h = rw (decimal-digits_loop (suc n) n (omega arith), strtol) (ground arith)

-- Nothing but digits, and at least one.
abbrev AreDigits : Bytes → Type 0
AreDigits s = All (λ c. is_digit c ≡ true) s

AreDigits-append : (s : Bytes) (c : ℕ) → AreDigits s → is_digit c ≡ true → AreDigits (s ++ c ∷ [])
AreDigits-append [] c h d = (d, tt)
AreDigits-append (x ∷ s) c h d = (h.0, AreDigits-append s c h.1 d)

digit-IsDigit : (n : ℕ) → n < 10 → is_digit (b'0' + n) ≡ true
unfolding is_digit
digit-IsDigit n h = ground arith

digits_loop-AreDigits : (fuel n : ℕ) → AreDigits (digits_loop fuel n)
unfolding digits_loop
digits_loop-AreDigits zero n = tt
digits_loop-AreDigits (suc fuel) n = elim (Bool-cases (ltb n 10)) [
  | inl small ↦ rw small (digit-IsDigit n (ground arith), tt)
  | inr large ↦ rw large (
      AreDigits-append (digits_loop fuel (n / 10)) (b'0' + n % 10)
        (digits_loop-AreDigits fuel (n / 10)) (digit-IsDigit (n % 10) (omega arith)))
]

length-digits : (n : ℕ) → 0 < length (digits n)
unfolding digits_loop
length-digits n = ground (arith, length-append {0} (digits_loop n (n / 10)) ((b'0' + n % 10) ∷ []))

AreDigits-is_digits : (s : Bytes) → AreDigits s → is_digits s ≡ true
unfolding is_digits
AreDigits-is_digits [] h = refl
AreDigits-is_digits (c ∷ s) h = rw (h.0) (AreDigits-is_digits s h.1)

AreDigits-words : (s : Bytes) → AreDigits s → All (λ c. is_word c ≡ true) s
unfolding is_alnum
AreDigits-words [] h = tt
AreDigits-words (c ∷ s) h = (rw (h.0) refl, AreDigits-words s h.1)

keyword-digit : (c : ℕ) (s : Bytes) → is_digit c ≡ true → keyword (c ∷ s) ≡ none
unfolding keyword eq_ignoring_case to_lower is_digit
keyword-digit c s h = ground arith

number_lem : (s : Bytes) → AreDigits s → 0 < length s → IsWord s × (word_type s ≡ token_integer)
unfolding word_type classify
number_lem [] h l = absurd (omega arith)
number_lem (c ∷ s) h l = (
  AreDigits-words (c ∷ s) h,
  rw (word_type, classify, keyword-digit c s h.0, AreDigits-is_digits (c ∷ s) h) refl,
)

pub digits-number : (n : ℕ) → IsWord (digits n) × (word_type (digits n) ≡ token_integer)
digits-number n = number_lem (digits n) (digits_loop-AreDigits (suc n) n) (length-digits n)
