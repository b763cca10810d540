-- ===== src/Uefi/CoreLoader/Loaded.antt =====
-- What `load_core` and `free_core` (uefi/core_loader.c) do to memory and to the firmware's pages.
use switch_os.Base.{ℕ, ◌+◌, ◌≤◌, ◌<◌, ◌≡◌, refl, ap, ◌∙◌, true, leb, arith}
use switch_os.Base.Action.{ok}
use switch_os.Base.Bytes.{Bytes, blit, blit-inside, blit-Outside, load32, Outside}
use switch_os.Core.Header.{core_header_magic, is_core_header_magic_valid}
use switch_os.Uefi.CoreLoader.{
  core_phys_addr, core_max_phys_mem_size, core_rm_phys_addr, core_max_rm_phys_mem_size,
  core_pm_phys_addr, core_max_pm_phys_mem_size, Image, Images, ReservedPages, LoaderState, pages_of,
  reserve_memory, load_memory, load_core,
}

-- The images fit the memory that is set aside for them, and that of core begins with the magic.
pub record Fitting (images : Images) : Type 0 where
  pub core : images.core.size ≤ core_max_phys_mem_size
  pub core_rm : images.core_rm.size ≤ core_max_rm_phys_mem_size
  pub core_pm : images.core_pm.size ≤ core_max_pm_phys_mem_size
  pub word : 4 ≤ images.core.size
  pub magic : load32 images.core.start 0 ≡ core_header_magic

abbrev pub Holds : ℕ → Image → Bytes → Type 0
Holds addr image m = (x : ℕ) → x < image.size → m (addr + x) ≡ image.start x

-- Each image stands at its address, and all else in memory is as before.
pub record Loaded (images : Images) (m m' : Bytes) : Type 0 where
  pub core : Holds core_phys_addr images.core m'
  pub core_rm : Holds core_rm_phys_addr images.core_rm m'
  pub core_pm : Holds core_pm_phys_addr images.core_pm m'
  pub elsewhere :
      (x : ℕ)
      → Outside core_phys_addr images.core.size x
      → Outside core_rm_phys_addr images.core_rm.size x
      → Outside core_pm_phys_addr images.core_pm.size x
      → m' x ≡ m x

abbrev put : ℕ → Image → Bytes → Bytes
put addr image m = blit m addr image.start 0 image.size

abbrev pub loaded : Images → Bytes → Bytes
loaded images m =
    put core_pm_phys_addr images.core_pm
      (put core_rm_phys_addr images.core_rm (put core_phys_addr images.core m))

loaded-Loaded : (images : Images) (m : Bytes) → Fitting images → Loaded images m (loaded images m)
loaded-Loaded images m f =
    let m₁ = put core_phys_addr images.core m in
    let m₂ = put core_rm_phys_addr images.core_rm m₁ in
    let past_pm = blit-Outside m₂ core_pm_phys_addr images.core_pm.start 0 images.core_pm.size in
    let past_rm = blit-Outside m₁ core_rm_phys_addr images.core_rm.start 0 images.core_rm.size in
    let past = blit-Outside m core_phys_addr images.core.start 0 images.core.size in
    record {
      core = λ x p.
          past_pm (core_phys_addr + x) (omega (arith, f.core_pm))
          ∙ past_rm (core_phys_addr + x) (omega (arith, f.core_rm))
          ∙ blit-inside m core_phys_addr images.core.start 0 images.core.size x p
          ∙ ap images.core.start (omega arith);
      core_rm = λ x p.
          past_pm (core_rm_phys_addr + x) (omega (arith, p, f.core_rm))
          ∙ blit-inside m₁ core_rm_phys_addr images.core_rm.start 0 images.core_rm.size x p
          ∙ ap images.core_rm.start (omega arith);
      core_pm = λ x p.
          blit-inside m₂ core_pm_phys_addr images.core_pm.start 0 images.core_pm.size x p
          ∙ ap images.core_pm.start (omega arith);
      elsewhere = λ x a b c. past_pm x c ∙ past_rm x b ∙ past x a;
    }

loaded_magic :
    (images : Images) (m : Bytes)
    → Fitting images
    → load32 (loaded images m) core_phys_addr ≡ core_header_magic
loaded_magic images m f =
    let l = loaded-Loaded images m f in
    let word = f.word in
    let at_0 : core_phys_addr ≡ core_phys_addr + 0 = omega arith in
    omega (
      arith,
      ap (loaded images m) at_0 ∙ l.core 0 (omega (arith, word)),
      l.core 1 (omega (arith, word)),
      l.core 2 (omega (arith, word)),
      l.core 3 (omega (arith, word)),
      f.magic,
    )

module _ (b : ReservedPages) (images : Images) where
  open b use {World, reserve, release}

  -- The firmware reserves the pages of the three images.
  pub record Reserves (w w₁ w₂ w₃ : World) : Type 0 where
    pub core : reserve core_phys_addr (pages_of images.core.size) w ≡ (true, w₁)
    pub core_rm : reserve core_rm_phys_addr (pages_of images.core_rm.size) w₁ ≡ (true, w₂)
    pub core_pm : reserve core_pm_phys_addr (pages_of images.core_pm.size) w₂ ≡ (true, w₃)

  load_runs :
      (s : LoaderState World) (w₁ w₂ w₃ : World)
      → leb images.core.size core_max_phys_mem_size ≡ true
      → leb images.core_rm.size core_max_rm_phys_mem_size ≡ true
      → leb images.core_pm.size core_max_pm_phys_mem_size ≡ true
      → Reserves s.world w₁ w₂ w₃
      → is_core_header_magic_valid (load32 (loaded images s.mem) core_phys_addr) ≡ true
      → load_core b images s
        ≡ (ok core_phys_addr, record s { mem = loaded images s.mem; world = w₃ })
  unfolding load_core load_memory reserve_memory
  load_runs s w₁ w₂ w₃ e f g r h = rw (e, f, g, r.core, r.core_rm, r.core_pm, h) refl

  magic_valid :
      (m : Bytes)
      → Fitting images
      → is_core_header_magic_valid (load32 (loaded images m) core_phys_addr) ≡ true
  unfolding is_core_header_magic_valid
  magic_valid m f = let e = loaded_magic images m f in ground (arith, e)

  -- When the images fit, that of core begins with the magic, and the firmware reserves the three
  -- ranges, `load_core` succeeds with the address of core and has put each image at its address.
  pub load_core-Loaded :
      (s : LoaderState World) (w₁ w₂ w₃ : World)
      → Fitting images
      → Reserves s.world w₁ w₂ w₃
      → (t : LoaderState World) × (load_core b images s ≡ (ok core_phys_addr, t))
        × (t.world ≡ w₃)
        × Loaded images s.mem t.mem
  load_core-Loaded s w₁ w₂ w₃ f r = (
    record s { mem = loaded images s.mem; world = w₃ },
    load_runs s w₁ w₂ w₃ (ground (arith, f.core)) (ground (arith, f.core_rm))
        (ground (arith, f.core_pm)) r (magic_valid s.mem f),
    refl,
    loaded-Loaded images s.mem f,
  )
