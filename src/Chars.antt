-- ===== src/Chars.antt =====
-- The C library's character tests and number formats that src/lexer.c, src/btree.c and src/table.c use, in the "C"
-- locale, and the bounded, case-blind comparison that the program writes as
-- `length == strlen(s) && strncasecmp(t, s, length) == 0`.
use Prim.Native.Char.{code}
use Prim.Native.String.{String}
use database_in_c.Prelude.{
  ℕ, ◌+◌, ◌-◌, ◌*◌, ◌^◌, Bool, true, false, ◌&&◌, ◌||◌, List, [], ◌∷◌, leb, ◌==◌, if◌then◌else◌,
  zero, suc, ◌/◌, ◌%◌, ◌++◌, ltb, ℤ, pos, negsuc,
}

-- The bytes of a C string, without the NUL that ends it.
abbrev pub Bytes : Type 0
Bytes = List ℕ

abbrev pub codes : String → Bytes
codes String.[] = []
codes (String.◌∷◌ c s) = code c ∷ codes s

unfoldable pub is_digit : ℕ → Bool
is_digit c = leb b'0' c && leb c b'9'

unfoldable pub is_alnum : ℕ → Bool
unfolding is_digit
is_alnum c = is_digit c || (leb b'A' c && leb c b'Z') || (leb b'a' c && leb c b'z')

unfoldable pub to_lower : ℕ → ℕ
to_lower c = if leb b'A' c && leb c b'Z' then c + 32 else c

unfoldable pub eq_ignoring_case : Bytes → Bytes → Bool
unfolding to_lower
eq_ignoring_case [] [] = true
eq_ignoring_case (a ∷ s) (b ∷ t) = to_lower a == to_lower b && eq_ignoring_case s t
eq_ignoring_case _ _ = false

abbrev pub long_max : ℕ
long_max = 2 ^ 63 - 1

-- `strtol(s, NULL, 10)` on a string of digits: the decimal number, or LONG_MAX past the range.
unfoldable pub decimal : ℕ → Bytes → ℕ
decimal acc [] = acc
decimal acc (c ∷ s) = decimal (acc * 10 + (c - b'0')) s

unfoldable pub strtol : Bytes → ℕ
unfolding decimal
strtol s = if leb (decimal 0 s) long_max then decimal 0 s else long_max

-- What `%d` prints of a number that is not negative, with fuel for more digits than it has.
unfoldable pub digits_loop : ℕ → ℕ → Bytes
digits_loop zero n = []
digits_loop (suc fuel) n =
    let front = digits_loop fuel (n / 10) in
    if ltb n 10 then (b'0' + n) ∷ [] else front ++ (b'0' + n % 10) ∷ []

abbrev pub digits : ℕ → Bytes
digits n = digits_loop (suc n) n

-- What `%lld` prints.
abbrev pub signed_digits : ℤ → Bytes
signed_digits (pos n) = digits n
signed_digits (negsuc n) = b'-' ∷ digits (suc n)
