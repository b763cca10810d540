-- ===== src/Base/Bits.antt =====
-- Bitwise operators on numbers of at most `k` bits.
use switch_os.Base.Tests.{◌==◌, if◌then◌else◌, Bool-cases}
use Prim.Native.Nat.{ℕ, zero, suc, ◌+◌, ◌*◌, ◌/◌, ◌%◌, ◌^◌, ◌<◌}
use mathlib.Core.Path.{◌≡◌, ◌∙◌}
use mathlib.Core.Logic.{inl, inr}
use mathlib.Core.Bool.{◌||◌, ◌&&◌}
use native.Mathlib.Omega.{arith}
use native.Mathlib.Numerals.{unary_clauses}

-- `a | b` of the lowest `k` bits.
unfoldable pub bits_or : ℕ → ℕ → ℕ → ℕ
bits_or zero a b = 0
bits_or (suc k) a b = (if a % 2 == 1 || b % 2 == 1 then 1 else 0) + 2 * bits_or k (a / 2) (b / 2)

-- `a & b` of the lowest `k` bits.
unfoldable pub bits_and : ℕ → ℕ → ℕ → ℕ
bits_and zero a b = 0
bits_and (suc k) a b = (if a % 2 == 1 && b % 2 == 1 then 1 else 0) + 2 * bits_and k (a / 2) (b / 2)

double : (n : ℕ) → 2 ^ suc n ≡ 2 * 2 ^ n
double n = simp unary_clauses (omega arith)

or_step :
    (k a b : ℕ)
    → bits_or k (a / 2) (b / 2) ≡ a / 2 + b / 2
    → a % 2 + b % 2 < 2
    → bits_or (suc k) a b ≡ a + b
unfolding bits_or
or_step k a b e f = elim (Bool-cases (a % 2 == 1)) [
  | inl g ↦ rw (e, g) (ground arith)
  | inr g ↦ elim (Bool-cases (b % 2 == 1)) [
    | inl h ↦ rw (e, g, h) (ground arith)
    | inr h ↦ rw (e, g, h) (ground arith)
  ]
]

or_zero : (k a : ℕ) → a < 2 ^ k → bits_or k a 0 ≡ a
unfolding bits_or
or_zero zero a p = omega arith
or_zero (suc k) a p =
    let p' : a < 2 * 2 ^ k = rw (double k) at p in
    let rest : bits_or k (a / 2) 0 ≡ a / 2 + 0 = or_zero k (a / 2) (omega arith) ∙ omega arith in
    or_step k a 0 rest (omega arith) ∙ omega arith

or_none : (a b : ℕ) → a < 1 → b < 1 → bits_or 0 a b ≡ a + b
unfolding bits_or
or_none a b p q = omega arith

-- The bits of `b` below those of `a` are added.
pub bits_or-add :
    (k n c b : ℕ)
    → 2 ^ n * c < 2 ^ k
    → b < 2 ^ n
    → b < 2 ^ k
    → bits_or k (2 ^ n * c) b ≡ 2 ^ n * c + b
bits_or-add zero n c b p r s = or_none _ _ p s
bits_or-add (suc k) zero c b p r s =
    let b≡0 : b ≡ 0 = omega arith in rw b≡0 (or_zero (suc k) (1 * c) p ∙ omega arith)
bits_or-add (suc k) (suc n) c b p r s =
    let m = 2 ^ n * c in
    let e : 2 ^ suc n * c ≡ 2 * m = rw (double n) (omega arith) in
    let p' : 2 * m < 2 * 2 ^ k = rw (e, double k) at p in
    let r' : b < 2 * 2 ^ n = rw (double n) at r in
    let s' : b < 2 * 2 ^ k = rw (double k) at s in
    let half : 2 * m / 2 ≡ m = omega arith in
    rw e (
      or_step k (2 * m) b
        (rw half
          (bits_or-add k n c (b / 2) (omega (arith, p')) (omega (arith, r')) (omega (arith, s'))))
        (omega arith))
