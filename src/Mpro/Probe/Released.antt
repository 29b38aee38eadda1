-- ===== src/Mpro/Probe/Released.antt =====
-- mpro_main.c: what is left after a failed probe and after a disconnect.
use packages.Base.{
  ◌≡◌, refl, Bool, true, false, List, [], ◌∷◌, ◌++◌, not, ◌||◌, ◌==◌, if-cases, sym, ap, ◌∙◌,
  if◌then◌else◌, arith,
}
use mathlib.Core.List.{append-nil, append_assoc}
use packages.Base.Errno.{Ret}
use packages.Mpro.Probe.Devres.{
  Action, dma_dev_release, lz4_workmem_release, wq_release, touch_release, sysfs_release,
  children_release, Held, fresh, Answers, release, release_list, release_all, then_do, take_dma,
  query, take_lz4, take_wq, take_touch, take_sysfs, take_children, probe, disconnect,
}

-- Nothing is held, and no release met what was not held.
pub record IsFree (h : Held) : Type 0 where
  pub dma_dev : h.dma_dev ≡ false
  pub lz4_workmem : h.lz4_workmem ≡ false
  pub wq : h.wq ≡ false
  pub touch : h.touch ≡ false
  pub sysfs : h.sysfs ≡ false
  pub children : h.children ≡ false
  pub intfdata : h.intfdata ≡ false
  pub running : h.running ≡ false
  pub devres : h.devres ≡ []
  pub once : h.twice ≡ false

-- The releases that stand for what is held.
abbrev pub opt : Bool → Action → List Action → List Action
opt b a rest = if b then a ∷ rest else rest

abbrev pub expected : Held → List Action
expected h = opt h.children children_release (
    opt h.sysfs sysfs_release (
      opt h.touch touch_release (
        opt h.wq wq_release
          (opt h.lz4_workmem lz4_workmem_release (opt h.dma_dev dma_dev_release [])))))

-- What is held is what is registered, the children on top, and the device is not in use.
record IsStopped (h : Held) : Type 0 where
  devres : h.devres ≡ expected h
  unset : h.intfdata ≡ false
  stopped : h.running ≡ false
  once : h.twice ≡ false

-- The same of a device in use, which has all that is not optional.
pub record IsUp (h : Held) : Type 0 where
  pub devres : h.devres ≡ expected h
  pub wq : h.wq ≡ true
  pub touch : h.touch ≡ true
  pub sysfs : h.sysfs ≡ true
  pub children : h.children ≡ true
  pub intfdata : h.intfdata ≡ true
  pub running : h.running ≡ true
  pub pm_ready : h.pm_ready ≡ true
  pub once : h.twice ≡ false

stopped-IsFree : (h : Held) → IsStopped h → IsFree (release_all h)
unfolding release_all
stopped-IsFree h s = rw (s.devres) (ground (arith, s))

-- Is a resource held, if there was no error?
abbrev Got : Ret → Bool → Type 0
Got ret b = (not (ret == 0) || b) ≡ true

-- The stages of the probe: what is surely not held yet, and what is held if there was no error.
record Stage1 (r : Ret × Held) : Type 0 where
  stopped : IsStopped r.1
  lz4 : (r.1).lz4_workmem ≡ false
  wq : (r.1).wq ≡ false
  touch : (r.1).touch ≡ false
  sysfs : (r.1).sysfs ≡ false
  children : (r.1).children ≡ false

record Stage2 (r : Ret × Held) : Type 0 where
  stopped : IsStopped r.1
  wq : (r.1).wq ≡ false
  touch : (r.1).touch ≡ false
  sysfs : (r.1).sysfs ≡ false
  children : (r.1).children ≡ false

record Stage3 (r : Ret × Held) : Type 0 where
  stopped : IsStopped r.1
  touch : (r.1).touch ≡ false
  sysfs : (r.1).sysfs ≡ false
  children : (r.1).children ≡ false
  wq : Got r.0 (r.1).wq

record Stage4 (r : Ret × Held) : Type 0 where
  stopped : IsStopped r.1
  sysfs : (r.1).sysfs ≡ false
  children : (r.1).children ≡ false
  wq : Got r.0 (r.1).wq
  touch : Got r.0 (r.1).touch

record Stage5 (r : Ret × Held) : Type 0 where
  stopped : IsStopped r.1
  children : (r.1).children ≡ false
  wq : Got r.0 (r.1).wq
  touch : Got r.0 (r.1).touch
  sysfs : Got r.0 (r.1).sysfs

record Done (r : Ret × Held) : Type 0 where
  failed : (r.0 == 0) ≡ false → IsStopped r.1
  up : (r.0 == 0) ≡ true → IsUp r.1

then_stage :
    (P Q : Ret × Held → Type 0) (r : Ret × Held) (rest : Held → Ret × Held)
    → P r
    → ((ret : Ret) (h : Held) → (ret == 0) ≡ true → P (ret, h) → Q (rest h))
    → ((ret : Ret) (h : Held) → (ret == 0) ≡ false → P (ret, h) → Q (ret, h))
    → Q (then_do r rest)
then_stage P Q (ret, h) rest p next failed =
    if-cases Q (ret == 0) (λ ok. next ret h ok p) (λ bad. failed ret h bad p)

module _ (a : Answers) where
  dma_stage : Stage1 (take_dma a fresh)
  unfolding take_dma
  dma_stage = ground arith

  query_stage : (h : Held) → Stage1 (0, h) → Stage1 (query a h)
  unfolding query
  query_stage h s = ground (arith, s)

  lz4_stage : (ret : Ret) (h : Held) → (ret == 0) ≡ true → Stage1 (ret, h) → Stage2 (take_lz4 a h)
  unfolding take_lz4
  lz4_stage ret h ok s = ground (arith, s)

  wq_stage : (ret : Ret) (h : Held) → (ret == 0) ≡ true → Stage2 (ret, h) → Stage3 (take_wq a h)
  unfolding take_wq
  wq_stage ret h ok s = ground (arith, s)

  touch_stage :
      (ret : Ret) (h : Held) → (ret == 0) ≡ true → Stage3 (ret, h) → Stage4 (take_touch a h)
  unfolding take_touch
  touch_stage ret h ok s = ground (arith, s, ok)

  sysfs_stage :
      (ret : Ret) (h : Held) → (ret == 0) ≡ true → Stage4 (ret, h) → Stage5 (take_sysfs a h)
  unfolding take_sysfs
  sysfs_stage ret h ok s = ground (arith, s, ok)

  children_stage :
      (ret : Ret) (h : Held) → (ret == 0) ≡ true → Stage5 (ret, h) → Done (take_children a h)
  unfolding take_children
  children_stage ret h ok s = record {
    failed = λ bad. ground (arith, s, ok, bad);
    up = λ good. ground (arith, s, ok, good);
  }

  probe-Done : Done (probe a)
  unfolding probe
  probe-Done =
      let s1 =
        then_stage Stage1 Stage1 (take_dma a fresh) (query a) dma_stage
          (λ ret h ok s. query_stage h (ground (arith, s))) (λ ret h bad s. s) in
      let s2 =
        then_stage Stage1 Stage2 _ (take_lz4 a) s1 lz4_stage (λ ret h bad s. ground (arith, s)) in
      let s3 =
        then_stage Stage2 Stage3 _ (take_wq a) s2 wq_stage
          (λ ret h bad s. ground (arith, s, bad)) in
      let s4 =
        then_stage Stage3 Stage4 _ (take_touch a) s3 touch_stage
          (λ ret h bad s. ground (arith, s, bad)) in
      let s5 =
        then_stage Stage4 Stage5 _ (take_sysfs a) s4 sysfs_stage
          (λ ret h bad s. ground (arith, s, bad)) in
      then_stage Stage5 Done _ (take_children a) s5 children_stage
        (λ ret h bad s. record { failed = λ e. s.stopped; up = λ good. cc })

release-ran : (b : Action) (h : Held) → (release b h).ran ≡ h.ran ++ b ∷ []
unfolding release
release-ran dma_dev_release h = refl
release-ran lz4_workmem_release h = refl
release-ran wq_release h = refl
release-ran touch_release h = refl
release-ran sysfs_release h = refl
release-ran children_release h = refl

release_list-ran : (bs : List Action) (h : Held) → (release_list bs h).ran ≡ h.ran ++ bs
unfolding release_list
release_list-ran [] h = sym (append-nil h.ran)
release_list-ran (b ∷ bs) h =
    release_list-ran bs (release b h)
    ∙ ap (λ xs. xs ++ bs) (release-ran b h)
    ∙ append_assoc h.ran (b ∷ []) bs

up_list :
    (h : Held)
    → IsUp h
    → h.devres
      ≡ children_release
        ∷ sysfs_release
        ∷ touch_release
        ∷ wq_release
        ∷ opt h.lz4_workmem lz4_workmem_release (opt h.dma_dev dma_dev_release [])
up_list h up = ground (arith, up)

disconnect-IsFree :
    (h : Held)
    → IsUp h
    → let g = release_all (disconnect h) in
      (IsFree g)
      × (g.ran
          ≡ h.ran
            ++ children_release
              ∷ sysfs_release
              ∷ touch_release
              ∷ wq_release
              ∷ opt h.lz4_workmem lz4_workmem_release (opt h.dma_dev dma_dev_release []))
unfolding disconnect release_all
disconnect-IsFree h up =
    let stopped : IsStopped (disconnect h) = record {
      devres = up.devres;
      unset = refl;
      stopped = refl;
      once = up.once;
    } in
    (
      stopped-IsFree (disconnect h) stopped,
      release_list-ran h.devres (record (disconnect h) { devres = [] })
          ∙ ap (λ xs. h.ran ++ xs) (up_list h up),
    )

-- A probe that succeeds leaves a device that runs, with its workqueue, touch URB, attributes and children;
-- the disconnect and its releases then free everything, each resource once, the children first, then the
-- attributes, the touch URB and the workqueue.
pub probe-disconnect :
    (a : Answers)
    → (probe a).0 ≡ 0
    → let h = (probe a).1 in
      let g = release_all (disconnect h) in
      (IsUp h)
      × (IsFree g)
      × (g.ran
          ≡ h.ran
            ++ children_release
              ∷ sysfs_release
              ∷ touch_release
              ∷ wq_release
              ∷ opt h.lz4_workmem lz4_workmem_release (opt h.dma_dev dma_dev_release []))
probe-disconnect a good =
    let up = (probe-Done a).up (ground (arith, good)) in
    let free = disconnect-IsFree (probe a).1 up in (up, free.0, free.1)
