-- ===== src/Uefi/CoreLoader/Tests.antt =====
-- Images on which the theorem about `load_core` is applied.
use switch_os.Base.{ℕ, ◌+◌, ◌≡◌, refl, true, ◌==◌, if◌then◌else◌, arith}
use switch_os.Base.Action.{ok}
use switch_os.Uefi.CoreLoader.{Images, ReservedPages, LoaderState, core_phys_addr, load_core}
use switch_os.Uefi.CoreLoader.Loaded.{Fitting, Reserves, Loaded, load_core-Loaded}

-- The world is the number of pages that are reserved.
abbrev pages : ReservedPages
pages = record { World = ℕ; reserve = λ start n w. (true, w + n); release = λ start n w. (true, w) }

abbrev images : Images
images = record {
  core = record {
    start = λ x. if x == 0 then 0x78 else if x == 1 then 0x56 else if x == 2 then 0x34 else 0x12;
    size = 5000;
  };
  core_rm = record { start = λ x. 0x90; size = 100 };
  core_pm = record { start = λ x. 0x91; size = 4096 };
}

abbrev start : LoaderState ℕ
start = record { mem = λ x. 0; world = 0 }

images-Fitting : Fitting images
images-Fitting = record {
  core = omega arith;
  core_rm = omega arith;
  core_pm = omega arith;
  word = omega arith;
  magic = refl;
}

images-Reserves : Reserves pages images 0 2 3 4
images-Reserves = record { core = refl; core_rm = refl; core_pm = refl }

load_core-Loaded_example :
    (t : LoaderState ℕ) × (load_core pages images start ≡ (ok core_phys_addr, t))
    × (t.world ≡ 4)
    × Loaded images start.mem t.mem
load_core-Loaded_example = load_core-Loaded pages images start 2 3 4 images-Fitting images-Reserves
