-- ===== src/Pci/Search.antt =====
-- Loops of shared/src/pci/pci.c that end at the first hit.
use switch_os.Base.{
  ℕ, zero, suc, ◌+◌, ◌≤◌, ◌<◌, ◌≡◌, refl, sym, ◌∙◌, ◌⊎◌, inl, inr, ◌==◌, Bool-cases, Option, none,
  arith,
}
use switch_os.Base.Action.{Action, Result, ok, invalid, fault, hang, ◌>>=◌}
use switch_os.Base.Io.{Log}
use switch_os.Pci.{found, unless_found}

-- The search found nothing, or the first hit at `j` gave `x`. `None` and `Hit` say what that means.
abbrev pub Searched :
    {A : Type 0}
    → (None : ℕ → Type 0) → (Hit : ℕ → Result A × Log → Type 0) → ℕ
    → ℕ
    → Result (Option A) × Log
    → Type 0
Searched {A = A} None Hit i n r =
    ((log : Log) × (r ≡ (ok none, log)) × ((j : ℕ) → i ≤ j → j < n → None j))
    ⊎ ((j : ℕ) × (x : Result A × Log) × (i ≤ j)
        × (j < n)
        × ((l : ℕ) → i ≤ l → l < j → None l)
        × (r ≡ found x)
        × Hit j x)

-- What holds of `i` and of all that follow holds from `i` on.
pub first_or_later : (P : ℕ → Type 0) (i : ℕ) → P i → (j : ℕ) → i ≤ j → (suc i ≤ j → P j) → P j
first_or_later P i here j p later = elim (Bool-cases (i == j)) [
  | inl e ↦ let i≡j : i ≡ j = ground arith in rw (sym i≡j) here
  | inr e ↦ later (ground arith)
]

module _ {A : Type 0} (loop : ℕ → ℕ → Action Log (Option A)) (body : ℕ → Action Log (Option A))
    (at_end : (i : ℕ) (log : Log) → loop zero i log ≡ (ok none, log))
    (step : (k i : ℕ) (log : Log)
      → loop (suc k) i log ≡ (body i >>= unless_found (loop k (suc i))) log)
    (None : ℕ → Type 0) (Hit : ℕ → Result A × Log → Type 0) (n : ℕ)
    (each : (i : ℕ) (log : Log)
      → i < n
      → ((log' : Log) × (body i log ≡ (ok none, log')) × None i)
        ⊎ ((x : Result A × Log) × (body i log ≡ found x) × Hit i x)) where
  step_none :
      (k i : ℕ) (log log' : Log)
      → body i log ≡ (ok none, log')
      → loop (suc k) i log ≡ loop k (suc i) log'
  step_none k i log log' e = step k i log ∙ rw e refl

  step_found :
      (k i : ℕ) (log : Log) (x : Result A × Log)
      → body i log ≡ found x
      → loop (suc k) i log ≡ found x
  step_found k i log (ok a, l) e = step k i log ∙ rw e refl
  step_found k i log (invalid, l) e = step k i log ∙ rw e refl
  step_found k i log (fault, l) e = step k i log ∙ rw e refl
  step_found k i log (hang, l) e = step k i log ∙ rw e refl

  pub loop-Searched : (k i : ℕ) (log : Log) → i + k ≡ n → Searched None Hit i n (loop k i log)
  loop-Searched zero i log e = inl (log, at_end i log, λ j p q. absurd (omega arith))
  loop-Searched (suc k) i log e = elim (each i log (omega arith)) [
    | inr (x, r, hit) ↦ inr (
      i,
      x,
      omega arith,
      omega arith,
      (λ l p q. absurd (omega arith)),
      step_found k i log x r,
      hit,
    )
    | inl (log', r, none_here) ↦ elim (loop-Searched k (suc i) log' (omega arith)) [
      | inl (log'', r', none_later) ↦ inl (
        log'',
        step_none k i log log' r ∙ r',
        λ j p q. first_or_later None i none_here j p (λ s. none_later j s q),
      )
      | inr (j, x, p, q, none_later, r', hit) ↦ inr (
        j,
        x,
        omega arith,
        q,
        (λ l s t. first_or_later None i none_here l s (λ u. none_later l u t)),
        step_none k i log log' r ∙ r',
        hit,
      )
    ]
  ]
