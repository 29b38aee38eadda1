-- ===== src/Mpro/Probe/Devres.antt =====
-- mpro_main.c: `mpro_usb_probe` and `mpro_usb_disconnect` as a sequence of acquisitions, and the releases
-- that the driver core runs, the last registered first.
use packages.Base.{Bool, true, false, List, [], ◌∷◌, ◌++◌, not, ◌||◌, ◌==◌, if◌then◌else◌}
use packages.Base.Errno.{Ret, enomem}

-- A release that is registered with the device: the three callbacks of the file, that of the work memory,
-- and those of the sysfs group and of the children.
pub data Action : Type 0 where
  dma_dev_release : Action
  lz4_workmem_release : Action
  wq_release : Action
  touch_release : Action
  sysfs_release : Action
  children_release : Action

-- What the probe holds, the releases registered, and those that ran, in order. `twice` notes that
-- a release met a resource that was not held.
pub record Held : Type 0 where
  pub dma_dev : Bool
  pub lz4_workmem : Bool
  pub wq : Bool
  pub touch : Bool
  pub sysfs : Bool
  pub children : Bool
  pub intfdata : Bool
  pub running : Bool
  pub pm_ready : Bool
  pub devres : List Action
  pub ran : List Action
  pub twice : Bool

-- The device after its allocation, which is zeroed.
abbrev pub fresh : Held
fresh = record {
  dma_dev = false;
  lz4_workmem = false;
  wq = false;
  touch = false;
  sysfs = false;
  children = false;
  intfdata = false;
  running = false;
  pm_ready = false;
  devres = [];
  ran = [];
  twice = false;
}

-- What the kernel and the other parts answer: errnos, with 0 for success.
pub record Answers : Type 0 where
  pub has_dma : Bool
  pub dma_add : Ret
  pub get_screen : Ret
  pub get_version : Ret
  pub get_id : Ret
  pub get_model : Ret
  pub wants_lz4 : Bool
  pub memory_ok : Bool
  pub lz4_add : Ret
  pub wq_ok : Bool
  pub wq_add : Ret
  pub touch_init : Ret
  pub touch_add : Ret
  pub sysfs_add : Ret
  pub mfd_add : Ret

-- One release. Those of the work memory and of the workqueue test a pointer and clear it. That of the DMA
-- device tests its pointer and leaves it: a second run would put the reference, which `dma_dev` is,
-- again.
unfoldable pub release : Action → Held → Held
release dma_dev_release h = record h {
  dma_dev = false;
  ran = h.ran ++ dma_dev_release ∷ [];
  twice = h.twice || not h.dma_dev;
}
release lz4_workmem_release h = record h {
  lz4_workmem = false;
  ran = h.ran ++ lz4_workmem_release ∷ [];
}
release wq_release h = record h { wq = false; ran = h.ran ++ wq_release ∷ [] }
release touch_release h = record h {
  touch = false;
  ran = h.ran ++ touch_release ∷ [];
  twice = h.twice || not h.touch;
}
release sysfs_release h = record h {
  sysfs = false;
  ran = h.ran ++ sysfs_release ∷ [];
  twice = h.twice || not h.sysfs;
}
release children_release h = record h {
  children = false;
  ran = h.ran ++ children_release ∷ [];
  twice = h.twice || not h.children;
}

unfoldable pub release_list : List Action → Held → Held
release_list [] h = h
release_list (a ∷ rest) h = release_list rest (release a h)

-- The driver core, after a failed probe or a disconnect.
unfoldable pub release_all : Held → Held
unfolding release_list release
release_all h = release_list h.devres (record h { devres = [] })

-- `devm_add_action_or_reset`: the release is registered, or runs at once.
unfoldable pub add_action : Ret → Action → Held → Ret × Held
unfolding release
add_action ret a h =
    if ret == 0 then (0, record h { devres = a ∷ h.devres }) else (ret, release a h)

-- The rest of the probe, where what came before succeeded.
abbrev pub then_do : Ret × Held → (Held → Ret × Held) → Ret × Held
then_do (ret, h) rest = if ret == 0 then rest h else (ret, h)

-- The DMA device.
unfoldable pub take_dma : Answers → Held → Ret × Held
unfolding add_action
take_dma a h =
    if a.has_dma then add_action a.dma_add dma_dev_release (record h { dma_dev = true }) else (0, h)

-- The queries; the result of quit_sleepmode and of the firmware query is only logged.
unfoldable pub query : Answers → Held → Ret × Held
query a h =
    if not (a.get_screen == 0)
    then (a.get_screen, h)
    else if not (a.get_version == 0)
    then (a.get_version, h)
    else if not (a.get_id == 0)
    then (a.get_id, h)
    else if not (a.get_model == 0)
    then (a.get_model, h)
    else (0, h)

-- `mpro_setup_lz4`; `wants_lz4` is the result of its three tests.
unfoldable pub take_lz4 : Answers → Held → Ret × Held
unfolding add_action
take_lz4 a h =
    if not a.wants_lz4
    then (0, h)
    else if not a.memory_ok
    then (enomem, h)
    else add_action a.lz4_add lz4_workmem_release (record h { lz4_workmem = true })

unfoldable pub take_wq : Answers → Held → Ret × Held
unfolding add_action
take_wq a h =
    if not a.wq_ok then (enomem, h) else add_action a.wq_add wq_release (record h { wq = true })

unfoldable pub take_touch : Answers → Held → Ret × Held
unfolding add_action
take_touch a h =
    if not (a.touch_init == 0)
    then (a.touch_init, h)
    else add_action a.touch_add touch_release (record h { touch = true })

-- The sysfs group, which is registered as it is added.
unfoldable pub take_sysfs : Answers → Held → Ret × Held
take_sysfs a h =
    if not (a.sysfs_add == 0)
    then (a.sysfs_add, h)
    else (0, record h { sysfs = true; devres = sysfs_release ∷ h.devres })

-- The children, and `mpro_pm_init` after them.
unfoldable pub take_children : Answers → Held → Ret × Held
take_children a h =
    let started = record h { intfdata = true; running = true } in
    if not (a.mfd_add == 0)
    then (a.mfd_add, record started { intfdata = false; running = false })
    else (
      0,
      record started { children = true; pm_ready = true; devres = children_release ∷ h.devres },
    )

-- `mpro_usb_probe` of an interface without data, past the allocation of the device.
unfoldable pub probe : Answers → Ret × Held
unfolding take_dma query take_lz4 take_wq take_touch take_sysfs take_children
probe a =
    then_do
      (then_do
        (then_do (then_do (then_do (then_do (take_dma a fresh) (query a)) (take_lz4 a)) (take_wq a))
          (take_touch a))
        (take_sysfs a))
      (take_children a)

-- `mpro_usb_disconnect`, for an interface with data.
unfoldable pub disconnect : Held → Held
disconnect h = record h { running = false; pm_ready = false; intfdata = false }
