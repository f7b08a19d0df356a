-- ===== src/Prelude/Arrays.antt =====
-- Arrays as functions of the index: point writes, block moves, and the list of a range.
use Prim.Native.Nat.{ℕ, zero, suc, ◌+◌, ◌-◌, ◌<◌, ◌≤◌}
use mathlib.Core.Path.{◌≡◌, refl, ap, ap₂, subst₂}
use mathlib.Core.Logic.{◌⊎◌, inl, inr}
use mathlib.Core.Bool.{◌&&◌}
use mathlib.Core.List.{List, [], ◌∷◌, ◌++◌}
use native.Mathlib.Omega.{arith}
use native.Mathlib.Decide.{dec_lt}
use native.Mathlib.Nat.{add-zero}
use native.Mathlib.Nat.{zero-add}
use database_in_c.Prelude.Tests.{ltb, leb, ◌==◌, if◌then◌else◌}
use database_in_c.Prelude.Lists.{length}

module _ {ℓ} {A : Type ℓ} where
  -- `a[i] = v`
  abbrev pub update : (ℕ → A) → ℕ → A → ℕ → A
  update a i v j = if j == i then v else a j

  -- `memmove(a + dst, a + src, n * sizeof *a)`: the whole source is read before any write
  abbrev pub memmove : (ℕ → A) → ℕ → ℕ → ℕ → ℕ → A
  memmove a dst src n j = if leb dst j && ltb j (dst + n) then a (src + (j - dst)) else a j

  -- a[from .. from + n)
  abbrev pub range : (ℕ → A) → ℕ → ℕ → List A
  range a from zero = []
  range a from (suc n) = a from ∷ range a (suc from) n

module _ {ℓ} {A : Type ℓ} where
  pub length-range : (a : ℕ → A) (from n : ℕ) → length (range a from n) ≡ n
  length-range a from zero = refl
  length-range a from (suc n) = omega (arith, length-range a (suc from) n)

module _ {ℓ} {A : Type ℓ} where
  -- A range depends on the entries in it alone, wherever they stand.
  pub range-shift :
      (a b : ℕ → A) (i j n : ℕ)
      → ((k : ℕ) → k < n → a (i + k) ≡ b (j + k))
      → range a i n ≡ range b j n
  range-shift a b i j zero h = refl
  range-shift a b i j (suc n) h =
      let first : a i ≡ b j =
        subst₂ (λ x y. a x ≡ b y) (add-zero i) (add-zero j) (h 0 (omega arith)) in
      rw first (
        ap (λ l. b j ∷ l)
          (range-shift a b (suc i) (suc j) n λ k p.
            let e : i + suc k ≡ suc i + k = omega arith in
            let f : j + suc k ≡ suc j + k = omega arith in
            subst₂ (λ x y. a x ≡ b y) e f (h (suc k) (omega arith))))

  pub range-append : (a : ℕ → A) (i m n : ℕ) → range a i (m + n) ≡ range a i m ++ range a (i + m) n
  range-append a i zero n = rw (zero-add, add-zero)
  range-append a i (suc m) n =
      let e : suc m + n ≡ suc (m + n) = omega arith in
      let f : i + suc m ≡ suc i + m = omega arith in
      rw (e, f) (ap (λ l. a i ∷ l) (range-append a (suc i) m n))

  -- The move and the write of an insertion into an array, as lists.
  pub range-insert :
      (a : ℕ → A) (c n : ℕ) (v : A)
      → c ≤ n
      → range (update (memmove a (c + 1) c (n - c)) c v) 0 (n + 1)
        ≡ range a 0 c ++ v ∷ range a c (n - c)
  range-insert a c n v h =
      let b = update (memmove a (c + 1) c (n - c)) c v in
      let e : n + 1 ≡ c + suc (n - c) = omega arith in
      rw (e, range-append b 0 c (suc (n - c)), zero-add)
        (ap₂ (λ l m. l ++ m) (range-shift b a 0 0 c λ k p. ground arith)
          (ap₂ (λ x l. x ∷ l) (ground arith)
            (range-shift b a (suc c) c (n - c) λ k p. ground arith)))

  -- An entry of the array behind an insertion is the new one, or an old one from the old range.
  pub insert_cases :
      (a : ℕ → A) (c n : ℕ) (v : A) (i : ℕ)
      → c ≤ n
      → (update (memmove a (c + 1) c (n - c)) c v i ≡ v)
        ⊎ ((j : ℕ) × (update (memmove a (c + 1) c (n - c)) c v i ≡ a j) × (i < n + 1 → j < n))
  insert_cases a c n v i h = elim (dec_lt i c) [
    | yes p ↦ inr (i, ground arith, λ _. omega arith)
    | no p ↦ elim (dec_lt n i) [
      | yes q ↦ inr (i, ground arith, λ r. absurd (omega arith))
      | no q ↦ elim (dec_lt c i) [
        | yes r ↦ inr (c + (i - (c + 1)), ground arith, λ _. omega arith)
        | no r ↦ inl (ground arith)
      ]
    ]
  ]
