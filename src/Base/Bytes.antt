-- ===== src/Base/Bytes.antt =====
-- Memories and disks as functions from byte addresses, little-endian words, and block copies.
use switch_os.Base.Tests.{ltb, leb, if◌then◌else◌}
use Prim.Native.Nat.{ℕ, ◌+◌, ◌-◌, ◌*◌, ◌/◌, ◌%◌, ◌^◌, ◌≤◌, ◌<◌}
use mathlib.Core.Path.{◌≡◌, ap, ◌∙◌}
use mathlib.Core.Logic.{◌⊎◌}
use mathlib.Core.Bool.{Bool, true, ◌&&◌}
use native.Mathlib.Omega.{arith}

abbrev pub Bytes : Type 0
Bytes = ℕ → ℕ

-- Byte `k` of a little-endian word.
unfoldable pub byte_of : ℕ → ℕ → ℕ
byte_of v k = v / 256 ^ k % 256

abbrev pub load32 : Bytes → ℕ → ℕ
load32 m a = m a + 2 ^ 8 * m (a + 1) + 2 ^ 16 * m (a + 2) + 2 ^ 24 * m (a + 3)

abbrev pub load64 : Bytes → ℕ → ℕ
load64 m a = load32 m a + 2 ^ 32 * load32 m (a + 4)

abbrev pub in_range : ℕ → ℕ → ℕ → Bool
in_range a n x = leb a x && ltb x (a + n)

-- `memcpy(dst + d, src + s, n)`, in one step.
unfoldable pub blit : Bytes → ℕ → Bytes → ℕ → ℕ → Bytes
blit dst d src s n x = if in_range d n x then src (s + (x - d)) else dst x

-- Address `x` lies outside the `n` bytes at `a`.
abbrev pub Outside : ℕ → ℕ → ℕ → Type 0
Outside a n x = (x < a) ⊎ (a + n ≤ x)

-- No byte of the first range lies in the second.
abbrev pub Apart : ℕ → ℕ → ℕ → ℕ → Type 0
Apart a n b m = (a + n ≤ b) ⊎ (b + m ≤ a)

module _ (dst : Bytes) (d : ℕ) (src : Bytes) (s n : ℕ) where
  pub blit-inside : (x : ℕ) → x < n → blit dst d src s n (d + x) ≡ src (s + x)
  unfolding blit
  blit-inside x h = ground arith

  pub blit-Outside : (x : ℕ) → Outside d n x → blit dst d src s n x ≡ dst x
  unfolding blit
  blit-Outside x h = ground arith

-- Every cell holds a byte.
abbrev pub IsBytes : Bytes → Type 0
IsBytes m = (x : ℕ) → m x < 2 ^ 8

pub byte_of-lt : (v k : ℕ) → byte_of v k < 2 ^ 8
unfolding byte_of
byte_of-lt v k = omega arith

pub load32-lt : (m : Bytes) (a : ℕ) → IsBytes m → load32 m a < 2 ^ 32
load32-lt m a small = omega (arith, small a, small (a + 1), small (a + 2), small (a + 3))

pub load64-lt : (m : Bytes) (a : ℕ) → IsBytes m → load64 m a < 2 ^ 64
load64-lt m a small = omega (arith, load32-lt m a small, load32-lt m (a + 4) small)

pub blit-IsBytes : (m f : Bytes) (a b n : ℕ) → IsBytes m → IsBytes f → IsBytes (blit m a f b n)
unfolding blit
blit-IsBytes m f a b n p q x = ground (arith, p x, q (b + (x - a)))

-- A store of the `n` low bytes of `v` at address `a`.
unfoldable pub store : ℕ → Bytes → ℕ → ℕ → Bytes
store n m a v x = if in_range a n x then byte_of v (x - a) else m x

pub store-inside : (n : ℕ) (m : Bytes) (a v x : ℕ) → x < n → store n m a v (a + x) ≡ byte_of v x
unfolding store
store-inside n m a v x p =
    let e : a + x - a ≡ x = omega arith in
    let q : leb a (a + x) ≡ true = ground arith in
    let r : ltb (a + x) (a + n) ≡ true = ground arith in rw (q, r, e)

pub store-Outside : (n : ℕ) (m : Bytes) (a v x : ℕ) → Outside a n x → store n m a v x ≡ m x
unfolding store
store-Outside n m a v x p = ground arith

-- Eight bytes of a word make it up.
bytes_of_word :
    (v b0 b1 b2 b3 b4 b5 b6 b7 : ℕ)
    → v < 2 ^ 64
    → b0 ≡ byte_of v 0
    → b1 ≡ byte_of v 1
    → b2 ≡ byte_of v 2
    → b3 ≡ byte_of v 3
    → b4 ≡ byte_of v 4
    → b5 ≡ byte_of v 5
    → b6 ≡ byte_of v 6
    → b7 ≡ byte_of v 7
    → b0
        + 2 ^ 8 * b1
        + 2 ^ 16 * b2
        + 2 ^ 24 * b3
        + 2 ^ 32 * (b4 + 2 ^ 8 * b5 + 2 ^ 16 * b6 + 2 ^ 24 * b7)
      ≡ v
unfolding byte_of
bytes_of_word v b0 b1 b2 b3 b4 b5 b6 b7 small e0 e1 e2 e3 e4 e5 e6 e7 =
    omega (arith, e0, e1, e2, e3, e4, e5, e6, e7)

-- Four bytes of a word make it up.
bytes_of_half :
    (v b0 b1 b2 b3 : ℕ)
    → v < 2 ^ 32
    → b0 ≡ byte_of v 0
    → b1 ≡ byte_of v 1
    → b2 ≡ byte_of v 2
    → b3 ≡ byte_of v 3
    → b0 + 2 ^ 8 * b1 + 2 ^ 16 * b2 + 2 ^ 24 * b3 ≡ v
unfolding byte_of
bytes_of_half v b0 b1 b2 b3 small e0 e1 e2 e3 = omega (arith, e0, e1, e2, e3)

-- A 32-bit word that was stored is loaded again.
pub load32-store : (m : Bytes) (a v : ℕ) → v < 2 ^ 32 → load32 (store 4 m a v) a ≡ v
load32-store m a v small =
    bytes_of_half v _ _ _ _ small
      (ap (store 4 m a v) (omega arith) ∙ store-inside 4 m a v 0 (omega arith))
      (store-inside 4 m a v 1 (omega arith)) (store-inside 4 m a v 2 (omega arith))
      (store-inside 4 m a v 3 (omega arith))

-- A 64-bit word that was stored is loaded again.
pub load64-store : (m : Bytes) (a v : ℕ) → v < 2 ^ 64 → load64 (store 8 m a v) a ≡ v
load64-store m a v small =
    bytes_of_word v _ _ _ _ _ _ _ _ small
      (ap (store 8 m a v) (omega arith) ∙ store-inside 8 m a v 0 (omega arith))
      (store-inside 8 m a v 1 (omega arith)) (store-inside 8 m a v 2 (omega arith))
      (store-inside 8 m a v 3 (omega arith)) (store-inside 8 m a v 4 (omega arith))
      (ap (store 8 m a v) (omega arith) ∙ store-inside 8 m a v 5 (omega arith))
      (ap (store 8 m a v) (omega arith) ∙ store-inside 8 m a v 6 (omega arith))
      (ap (store 8 m a v) (omega arith) ∙ store-inside 8 m a v 7 (omega arith))

-- Equal bytes make equal words.
pub load32-same :
    (m m' : Bytes) (a : ℕ) → ((x : ℕ) → a ≤ x → x < a + 4 → m' x ≡ m x) → load32 m' a ≡ load32 m a
load32-same m m' a same =
    words (same a (omega arith) (omega arith)) (same (a + 1) (omega arith) (omega arith))
      (same (a + 2) (omega arith) (omega arith)) (same (a + 3) (omega arith) (omega arith))
  where
    words :
        m' a ≡ m a
        → m' (a + 1) ≡ m (a + 1)
        → m' (a + 2) ≡ m (a + 2)
        → m' (a + 3) ≡ m (a + 3)
        → load32 m' a ≡ load32 m a
    words e0 e1 e2 e3 = rw (e0, e1, e2, e3)

pub load64-same :
    (m m' : Bytes) (a : ℕ) → ((x : ℕ) → a ≤ x → x < a + 8 → m' x ≡ m x) → load64 m' a ≡ load64 m a
load64-same m m' a same =
    words (load32-same m m' a (λ x p q. same x p (omega arith)))
      (load32-same m m' (a + 4) (λ x p q. same x (omega arith) (omega arith)))
  where
    words :
        load32 m' a ≡ load32 m a → load32 m' (a + 4) ≡ load32 m (a + 4) → load64 m' a ≡ load64 m a
    words e f = rw (e, f)
