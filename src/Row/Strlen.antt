-- ===== src/Row/Strlen.antt =====
-- `strlen` on a text without a NUL and what stands behind it.
use database_in_c.Prelude.{
  ℕ, zero, suc, ◌+◌, ◌≡◌, ◌≢◌, refl, false, [], ◌∷◌, ◌++◌, arith, length, replicate, drop, All,
  ◌==◌, sym, zero-add,
}
use database_in_c.Chars.{Bytes}
use database_in_c.Row.{strlen}

pub strlen-replicate : (n : ℕ) → strlen (replicate n 0) ≡ 0
unfolding strlen
strlen-replicate zero = refl
strlen-replicate (suc n) = refl

pub strlen-drop-replicate : (k n : ℕ) → strlen (drop k (replicate n 0)) ≡ 0
strlen-drop-replicate zero n = strlen-replicate n
strlen-drop-replicate (suc k) zero = strlen-replicate 0
strlen-drop-replicate (suc k) (suc n) = strlen-drop-replicate k n

pub strlen-append : (s t : Bytes) → All (λ c. c ≢ 0) s → strlen (s ++ t) ≡ length s + strlen t
unfolding strlen
strlen-append [] t h = sym (zero-add (strlen t))
strlen-append (c ∷ s) t (h, hs) =
    let test : (c == 0) ≡ false = ground arith in rw test (omega (arith, strlen-append s t hs))
