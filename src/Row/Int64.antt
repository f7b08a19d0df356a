-- ===== src/Row/Int64.antt =====
-- The byte encoding of an `int64_t` is faithful.
use database_in_c.Prelude.{
  ℕ, zero, suc, ◌+◌, ◌*◌, ◌/◌, ◌%◌, ◌^◌, ◌<◌, ◌≡◌, refl, ap, [], ◌∷◌, arith, length, ℤ, pos, negsuc,
  All,
}
use database_in_c.Chars.{Bytes}
use database_in_c.Row.{to_bytes, of_bytes, pattern_of, int64_of}

pub length-to_bytes : (n w : ℕ) → length (to_bytes n w) ≡ n
unfolding to_bytes
length-to_bytes zero w = refl
length-to_bytes (suc n) w = ap suc (length-to_bytes n (w / 256))

-- The range of an `int64_t`.
abbrev pub IsInt64 : ℤ → Type 0
IsInt64 (pos n) = n < 2 ^ 63
IsInt64 (negsuc n) = n < 2 ^ 63

pub int64_of-pattern_of : (z : ℤ) → IsInt64 z → int64_of (pattern_of z) ≡ z
unfolding pattern_of int64_of
int64_of-pattern_of (pos n) h = ground arith
int64_of-pattern_of (negsuc n) h = ground arith

pub pattern_of-lt : (z : ℤ) → pattern_of z < 2 ^ 64
unfolding pattern_of
pattern_of-lt (pos n) = omega arith
pattern_of-lt (negsuc n) = omega arith

abbrev pub IsBytes : Bytes → Type 0
IsBytes s = All (λ b. b < 256) s

pub of_bytes-to_bytes_8 : (w : ℕ) → w < 2 ^ 64 → of_bytes (to_bytes 8 w) ≡ w
unfolding of_bytes to_bytes
of_bytes-to_bytes_8 w h = omega arith

-- Bytes are the low bytes of the number that they stand for.
pub to_bytes-of_bytes : (s : Bytes) → IsBytes s → to_bytes (length s) (of_bytes s) ≡ s
unfolding of_bytes to_bytes
to_bytes-of_bytes [] h = refl
to_bytes-of_bytes (b ∷ s) (hb, h) =
    let low : (b + 256 * of_bytes s) % 256 ≡ b = omega arith in
    let high : (b + 256 * of_bytes s) / 256 ≡ of_bytes s = omega arith in
    rw (low, high, to_bytes-of_bytes s h)
