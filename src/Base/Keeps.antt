-- ===== src/Base/Keeps.antt =====
-- Actions that keep a property of the state and end in success or `ERR_INVALID`.
use switch_os.Base.Action.{
  ⊤, Action, Result, ok, invalid, fault, hang, check, ◌>>=◌, and_then, on_invalid, recover,
  after_cleanup,
}
use mathlib.Core.Bool.{Bool, true, false}

module _ {S : Type 0} (P : S → Type 0) where
  abbrev pub KeptBy : {A : Type 0} → Result A × S → Type 0
  KeptBy (ok a, s) = P s
  KeptBy (invalid, s) = P s
  KeptBy (fault, s) = ⊥
  KeptBy (hang, s) = ⊥

  pub record Keeps {A : Type 0} (m : Action S A) : Type 0 where
    pub kept : (s : S) → P s → KeptBy (m s)

  and_then-Keeps :
      {A B : Type 0} (x : Result A × S) (f : A → Action S B)
      → KeptBy x
      → ((a : A) → Keeps (f a))
      → KeptBy (and_then x f)
  and_then-Keeps (ok a, s) f p q = (q a).kept s p
  and_then-Keeps (invalid, s) f p q = p
  and_then-Keeps (fault, s) f p q = p
  and_then-Keeps (hang, s) f p q = p

  pub bind-Keeps :
      {A B : Type 0} {m : Action S A} {f : A → Action S B}
      → Keeps m
      → ((a : A) → Keeps (f a))
      → Keeps (m >>= f)
  bind-Keeps {m = m} {f = f} p q = record { kept = λ s r. and_then-Keeps (m s) f (p.kept s r) q }

  pub check-Keeps : (b : Bool) → Keeps (check b)
  check-Keeps true = record { kept = λ s p. p }
  check-Keeps false = record { kept = λ s p. p }

  after-Keeps : (A : Type 0) (x : Result ⊤ × S) → KeptBy x → KeptBy {A = A} (after_cleanup x)
  after-Keeps A (ok a, s) p = p
  after-Keeps A (invalid, s) p = p
  after-Keeps A (fault, s) p = p
  after-Keeps A (hang, s) p = p

  recover-Keeps :
      {A : Type 0} (cleanup : Action S ⊤) (x : Result A × S)
      → Keeps cleanup
      → KeptBy x
      → KeptBy (recover cleanup x)
  recover-Keeps cleanup (ok a, s) p q = q
  recover-Keeps {A = A} cleanup (invalid, s) p q = after-Keeps A (cleanup s) (p.kept s q)
  recover-Keeps cleanup (fault, s) p q = q
  recover-Keeps cleanup (hang, s) p q = q

  pub on_invalid-Keeps :
      {A : Type 0} {cleanup : Action S ⊤} {m : Action S A}
      → Keeps cleanup
      → Keeps m
      → Keeps (on_invalid cleanup m)
  on_invalid-Keeps {cleanup = cleanup} {m = m} p q = record {
    kept = λ s r. recover-Keeps cleanup (m s) p (q.kept s r);
  }
