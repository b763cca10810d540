-- ===== src/Base/Action.antt =====
-- The error protocol of shared/include/error.h: an `err_t` with its out-parameters, over a state
-- that keeps what was written before an error.
use mathlib.Core.Bool.{Bool, true, false}

-- `ok` is `SUCCESS` with the out-parameters, `invalid` is `ERR_INVALID`. `fault` is an access
-- outside its object, and `hang` a loop that outran its fuel.
pub data Result (A : Type 0) : Type 0 where
  ok : A → Result A
  invalid fault hang : Result A

abbrev pub ⊤ : Type 0
⊤ = Unit

abbrev pub Action : Type 0 → Type 0 → Type 0
Action S A = S → Result A × S

module _ {S : Type 0} {A : Type 0} where
  abbrev pub pure : A → Action S A
  pure a s = (ok a, s)

  abbrev pub fail : Result A → Action S A
  fail r s = (r, s)

  abbrev pub gets : (S → A) → Action S A
  gets f s = (ok (f s), s)

abbrev pub modify : {S : Type 0} → (S → S) → Action S ⊤
modify f s = (ok tt, f s)

-- `CHECK(b)`: leave for `cleanup` with `ERR_INVALID`.
abbrev pub check : {S : Type 0} → Bool → Action S ⊤
check true s = (ok tt, s)
check false s = (invalid, s)

-- `CHECK_RETHROW(m)` and what follows it.
abbrev pub and_then : {S A B : Type 0} → Result A × S → (A → Action S B) → Result B × S
and_then (ok a, s) f = f a s
and_then (invalid, s) f = (invalid, s)
and_then (fault, s) f = (fault, s)
and_then (hang, s) f = (hang, s)

infixl 5 ◌>>=◌ ◌>>◌
abbrev pub ◌>>=◌ : {S A B : Type 0} → Action S A → (A → Action S B) → Action S B
◌>>=◌ m f s = and_then (m s) f

abbrev pub ◌>>◌ : {S A B : Type 0} → Action S A → Action S B → Action S B
m >> k = m >>= λ _. k

-- The error that a `cleanup` returns once it has run; its own error is dropped.
abbrev pub after_cleanup : {S A : Type 0} → Result ⊤ × S → Result A × S
after_cleanup (ok a, s) = (invalid, s)
after_cleanup (invalid, s) = (invalid, s)
after_cleanup (fault, s) = (fault, s)
after_cleanup (hang, s) = (hang, s)

abbrev pub recover : {S A : Type 0} → Action S ⊤ → Result A × S → Result A × S
recover cleanup (ok a, s) = (ok a, s)
recover cleanup (invalid, s) = after_cleanup (cleanup s)
recover cleanup (fault, s) = (fault, s)
recover cleanup (hang, s) = (hang, s)

-- `m`, and when it fails the `cleanup` of the function around it.
abbrev pub on_invalid : {S A : Type 0} → Action S ⊤ → Action S A → Action S A
on_invalid cleanup m s = recover cleanup (m s)

-- The result of a step whose error the source drops.
abbrev pub dropped : {S : Type 0} → Result ⊤ × S → Result ⊤ × S
dropped (ok a, s) = (ok tt, s)
dropped (invalid, s) = (ok tt, s)
dropped (fault, s) = (fault, s)
dropped (hang, s) = (hang, s)
