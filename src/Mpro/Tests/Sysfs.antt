-- ===== src/Mpro/Tests/Sysfs.antt =====
-- The stores and the probe of the MPro driver on concrete answers.
use packages.Base.{◌++◌, ◌≡◌, refl, true, false, some, [], ◌∷◌}
use packages.Base.Int.{pos, leb_ℤ}
use packages.Base.Errno.{einval}
use packages.Mpro.Pipeline.Xfer.{Pipe}
use packages.Mpro.Pipeline.Alloc.{firmware_supports_lz4, has_margin, lz4_should_compress}
use packages.Mpro.Sysfs.Stores.{lz4_workmem_alloc, set_level, lz4_level_store}
use packages.Mpro.Sysfs.Ready.{none_yet, then_call, stores_level, Calls-compress}
use packages.Mpro.Probe.Devres.{
  Answers, probe, disconnect, release_all, wq_release, touch_release, sysfs_release,
  children_release, lz4_workmem_release, dma_dev_release,
}
use packages.Mpro.Probe.Released.{IsFree, IsUp, opt, probe-disconnect}
use packages.Mpro.Tests.Data.{fresh_pipe}

-- A device without compression, and the level 6 is stored.
abbrev plain_pipe : Pipe
plain_pipe = record fresh_pipe { lz4_level = pos 0; lz4_workmem = false }

abbrev six : Pipe
six = (lz4_level_store (some (pos 6)) true 0 plain_pipe).1

six_compresses : lz4_should_compress six 100 ≡ true
unfolding lz4_level_store lz4_workmem_alloc set_level lz4_should_compress firmware_supports_lz4
six_compresses = refl

Calls-compress_example :
    (leb_ℤ six.lz4_level (pos 0) ≡ false)
    × (leb_ℤ six.lz4_level (pos 12) ≡ true)
    × (six.lz4_workmem ≡ true)
    × (has_margin six.model ≡ false)
Calls-compress_example =
    Calls-compress {p = plain_pipe} 100 refl
      (then_call none_yet (stores_level (some (pos 6)) true 0)) six_compresses

-- A probe in which everything succeeds, and one in which the attributes are refused.
abbrev all_ok : Answers
all_ok = record {
  has_dma = true;
  dma_add = 0;
  get_screen = 0;
  get_version = 0;
  get_id = 0;
  get_model = 0;
  wants_lz4 = true;
  memory_ok = true;
  lz4_add = 0;
  wq_ok = true;
  wq_add = 0;
  touch_init = 0;
  touch_add = 0;
  sysfs_add = 0;
  mfd_add = 0;
}

abbrev refused : Answers
refused = record all_ok { sysfs_add = einval }

all_ok_succeeds : (probe all_ok).0 ≡ 0
unfolding probe
all_ok_succeeds = refl

probe-disconnect_example :
    let h = (probe all_ok).1 in
    let g = release_all (disconnect h) in
    (IsUp h)
    × (IsFree g)
    × (g.ran
        ≡ h.ran
          ++ children_release
            ∷ sysfs_release
            ∷ touch_release
            ∷ wq_release
            ∷ opt h.lz4_workmem lz4_workmem_release (opt h.dma_dev dma_dev_release []))
probe-disconnect_example = probe-disconnect all_ok all_ok_succeeds
