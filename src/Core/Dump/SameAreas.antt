-- ===== src/Core/Dump/SameAreas.antt =====
-- Headers and lists of areas of core/dump.c that agree.
use switch_os.Base.{ℕ, ◌<◌, ◌≡◌, ◌∙◌, sym, arith}
use switch_os.Core.Header.{CoreHeader}
use switch_os.Core.Disk.{BlkDriver}
use switch_os.Core.Dump.Layout.{DiskMemArea, DumpHeader}
use switch_os.Core.Dump.Layout.RoundTrip.{Same}
use switch_os.Core.Dump.Areas.{Separate, SwapsAll, AllUsable}
use switch_os.Core.Dump.Valid.{Valid}

-- Headers with the same areas.
module _ (h k : DumpHeader) (same : Same h k) where
  pub Valid-Same : (g : CoreHeader) → Valid g k → Valid g h
  Valid-Same g v = record {
    magic = same.magic ∙ v.magic;
    waking_vector = λ e. v.waking_vector (sym same.waking_vector ∙ e);
    some_area = λ e. v.some_area (sym same.areas_size ∙ e);
    count = same.areas_size ∙ v.count;
    area = λ j a.
        let b : j < k.areas_size = rw same.areas_size at a in rw (same.area j b) (v.area j b);
  }

module _ (areas areas' : ℕ → DiskMemArea) (k : ℕ)
    (same : (j : ℕ) → j < k → areas j ≡ areas' j) where
  pub Usable-Same :
      (switch_buf : ℕ) → AllUsable areas' switch_buf k 0 → AllUsable areas switch_buf k 0
  Usable-Same switch_buf good j a b = rw (same j (omega arith)) (good j a b)

  pub Separate-Same : Separate areas' k 0 → Separate areas k 0
  Separate-Same sep = record {
    ram_apart =
        λ j l a b c. rw (same j (omega arith), same l (omega arith)) (sep.ram_apart j l a b c);
    disk_apart =
        λ j l a b c. rw (same j (omega arith), same l (omega arith)) (sep.disk_apart j l a b c);
  }

  pub SwapsAll-Same :
      (d : BlkDriver) (switch_buf : ℕ) (ready : d.Machine → Type 0) (s u : d.Machine)
      → SwapsAll areas d switch_buf ready k 0 s u
      → SwapsAll areas' d switch_buf ready k 0 s u
  SwapsAll-Same d switch_buf ready s u p = record {
    is_ready = p.is_ready;
    loaded =
        λ j x a b h. rw (← same j (omega arith)) (p.loaded j x a b (rw (same j (omega arith)) h));
    stored =
        λ j x a b h. rw (← same j (omega arith)) (p.stored j x a b (rw (same j (omega arith)) h));
    ram_frame = λ x o b. p.ram_frame x (λ j a c. rw (same j (omega arith)) (o j a c)) b;
    disk_frame = λ x o. p.disk_frame x (λ j a c. rw (same j (omega arith)) (o j a c));
  }
