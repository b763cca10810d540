-- ===== src/Core/Main.antt =====
-- core/core.c: what core does after a wakeup, and the calls of core/acpi.c around it.
pub mod Store
pub mod Switch
mod Tests
use switch_os.Base.{ℕ, Bool, true, false, not, ◌==◌, if◌then◌else◌}
use switch_os.Base.Action.{
  ⊤, Action, Result, ok, invalid, fault, hang, pure, fail, modify, check, ◌>>=◌, ◌>>◌,
}
use switch_os.Core.Header.{CoreHeader, core_action_store, core_action_switch, is_core_header_valid}
use switch_os.Core.Disk.{BlkDriver}
use switch_os.Core.Dump.{
  beside_out, find_original_waking_vector, disk_store_dump, does_disk_contain_dump,
  disk_switch_dump,
}

-- The calls of uACPI. The Boolean is `uacpi_likely_success`.
pub record Acpi : Type 1 where
  pub World : Type 0
  pub state_reset : World → World
  pub initialize : World → Bool × World
  pub namespace_load : World → Bool × World
  pub namespace_initialize : World → Bool × World
  pub finalize_gpe_initialization : World → Bool × World
  pub prepare_for_s3 : World → World
  pub set_waking_vector : ℕ → World → World
  pub enter_s3 : World → World

module _ (a : Acpi) where
  open a use {
    World, state_reset, initialize, namespace_load, namespace_initialize,
    finalize_gpe_initialization, prepare_for_s3, set_waking_vector, enter_s3,
  }

  abbrev pub call : (World → Bool × World) → Action World ⊤
  call f w = let (success, w') = f w in check success w'

  unfoldable pub acpi_setup : Action World ⊤
  acpi_setup = do
    call initialize
    call namespace_load
    call namespace_initialize
    call finalize_gpe_initialization

  unfoldable pub acpi_return_kernel : ℕ → World → World
  acpi_return_kernel waking_vector w = enter_s3 (
      if not (waking_vector == 0)
      then set_waking_vector waking_vector (prepare_for_s3 w)
      else prepare_for_s3 w)

-- `init_allocators` and `init_blk` are `core_init_allocators` and `init_virtio_blk_dev` on the
-- machine that the driver runs on.
module _ (d : BlkDriver) (g : CoreHeader) (header_at switch_buf : ℕ)
    (init_allocators : d.Machine → d.Machine) (init_blk : Action d.Machine ⊤) where
  open d use {Machine}

  -- The body of `core_main` up to `cleanup`. The second part of the state is
  -- `kernel_waking_vector`.
  unfoldable pub core_attempt : Action (Machine × ℕ) ⊤
  core_attempt = do
    check (is_core_header_valid g)
    waking_vector ←
        beside_out d g header_at switch_buf (find_original_waking_vector d g header_at switch_buf)
    modify (λ (s, out). (s, waking_vector))
    beside_out d g header_at switch_buf init_blk
    if g.action == core_action_store
        then beside_out d g header_at switch_buf (disk_store_dump d g header_at switch_buf)
        else if g.action == core_action_switch
        then (do
          contains_dump ←
              beside_out d g header_at switch_buf (does_disk_contain_dump d g header_at switch_buf)
          check contains_dump
          disk_switch_dump d g header_at switch_buf)
        else fail invalid

  module _ (a : Acpi) where
    -- `cleanup` is reached with success and with errors alike.
    abbrev pub cleaned : a.World → Result ⊤ × (Machine × ℕ) → Result ⊤ × (Machine × a.World)
    cleaned w (ok _, (t, vector)) = (ok tt, (t, acpi_return_kernel a vector (acpi_setup a w).1))
    cleaned w (invalid, (t, vector)) = (ok tt, (t, acpi_return_kernel a vector (acpi_setup a w).1))
    cleaned w (fault, (t, vector)) = (fault, (t, w))
    cleaned w (hang, (t, vector)) = (hang, (t, w))

    unfoldable pub core_main : Action (Machine × a.World) ⊤
    core_main (s, w) = cleaned (a.state_reset w) (core_attempt (init_allocators s, 0))
