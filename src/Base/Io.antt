-- ===== src/Base/Io.antt =====
-- shared/include/io.h: port and register access. A write is recorded; what a read returns is up to
-- the hardware, which has seen the writes so far.
use switch_os.Base.Action.{⊤, Action, gets, modify}
use Prim.Native.Nat.{ℕ, ◌%◌, ◌^◌}
use mathlib.Core.List.{List, ◌∷◌}

-- `out8`, ... and `write8`, `write_mb8`, ..., with the width in bits, the port or address, and the
-- value.
pub data Write : Type 0 where
  to_port : ℕ → ℕ → ℕ → Write
  to_memory : ℕ → ℕ → ℕ → Write

-- The hardware's answers to `in8`, ... and to `read8`, ..., after the writes so far, latest first.
pub record Wires : Type 0 where
  pub from_port : ℕ → ℕ → List Write → ℕ
  pub from_memory : ℕ → ℕ → List Write → ℕ

abbrev pub Log : Type 0
Log = List Write

abbrev pub out_port : ℕ → ℕ → ℕ → Action Log ⊤
out_port width port value = modify (λ log. to_port width port (value % 2 ^ width) ∷ log)

abbrev pub write : ℕ → ℕ → ℕ → Action Log ⊤
write width addr value = modify (λ log. to_memory width addr (value % 2 ^ width) ∷ log)

module _ (wires : Wires) where
  abbrev pub in_port : ℕ → ℕ → Action Log ℕ
  in_port width port = gets (λ log. wires.from_port width port log % 2 ^ width)

  abbrev pub read : ℕ → ℕ → Action Log ℕ
  read width addr = gets (λ log. wires.from_memory width addr log % 2 ^ width)
