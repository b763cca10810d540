-- ===== src/Core/Main/Store.antt =====
-- `core_main` (core/core.c) with the action to store a dump, and with an invalid core header.
use switch_os.Base.{ℕ, ◌≡◌, ◌≢◌, true, false, ◌==◌, arith}
use switch_os.Base.Action.{⊤, Action, ok}
use switch_os.Core.Header.{CoreHeader, core_action_store, is_core_header_valid}
use switch_os.Core.Disk.{BlkDriver}
use switch_os.Core.Dump.{find_original_waking_vector, disk_store_dump}
use switch_os.Core.Dump.Exchange.{saved_vector}
use switch_os.Core.Main.{Acpi, acpi_setup, acpi_return_kernel, core_attempt, core_main}

module _ (d : BlkDriver) (g : CoreHeader) (header_at switch_buf : ℕ)
    (init_allocators : d.Machine → d.Machine) (init_blk : Action d.Machine ⊤) (a : Acpi) where
  open d use {Machine, ram, disk}

  -- uACPI after it was set up again and told to sleep with the vector.
  abbrev pub sleeping : ℕ → a.World → a.World
  sleeping vector w = acpi_return_kernel a vector (acpi_setup a (a.state_reset w)).1

  pub vector_found :
      (s : Machine)
      → saved_vector g (ram s) ≢ 0
      → find_original_waking_vector d g header_at switch_buf s ≡ (ok (saved_vector g (ram s)), s)
  unfolding find_original_waking_vector
  vector_found s some = let e : (saved_vector g (ram s) == 0) ≡ false = ground arith in rw e

  -- With an invalid core header nothing is done to the disk, and the kernel's vector is not set.
  pub core_main_invalid :
      (s : Machine) (w : a.World)
      → is_core_header_valid g ≡ false
      → core_main d g header_at switch_buf init_allocators init_blk a (s, w)
        ≡ (ok tt, (init_allocators s, sleeping 0 w))
  unfolding core_main core_attempt
  core_main_invalid s w e = rw e

  module _ (s s₁ : Machine) (w : a.World) (valid : is_core_header_valid g ≡ true)
      (started : init_blk (init_allocators s) ≡ (ok tt, s₁))
      (some : saved_vector g (ram (init_allocators s)) ≢ 0) where
    store_runs :
        (v : ℕ) (t : Machine)
        → find_original_waking_vector d g header_at switch_buf (init_allocators s)
          ≡ (ok v, init_allocators s)
        → (g.action == core_action_store) ≡ true
        → disk_store_dump d g header_at switch_buf s₁ ≡ (ok tt, t)
        → core_main d g header_at switch_buf init_allocators init_blk a (s, w)
          ≡ (ok tt, (t, sleeping v w))
    unfolding core_main core_attempt
    store_runs v t found store e = rw (valid, found, started, store, e)

    -- When the core header is valid, the disk has started and the action is to store, then once
    -- the dump is stored the running kernel is woken at its own vector.
    pub core_main_store :
        (t : Machine)
        → g.action ≡ core_action_store
        → disk_store_dump d g header_at switch_buf s₁ ≡ (ok tt, t)
        → core_main d g header_at switch_buf init_allocators init_blk a (s, w)
          ≡ (ok tt, (t, sleeping (saved_vector g (ram (init_allocators s))) w))
    core_main_store t action e =
        store_runs (saved_vector g (ram (init_allocators s))) t
          (vector_found (init_allocators s) some) (ground (arith, action)) e
