-- ===== src/Mpro/Sysfs/Ready.antt =====
-- mpro_sysfs.c, mpro_main.c and mpro_pipeline.c together: the compressor and its work memory.
use packages.Base.{
  ℕ, ◌≡◌, refl, Bool, true, false, Option, none, some, not, ◌||◌, ◌==◌, if-cases, arith,
}
use packages.Base.Int.{ℤ, pos, negsuc, ltb_ℤ, leb_ℤ}
use packages.Base.Errno.{Ret}
use packages.Mpro.Pipeline.Xfer.{Pipe}
use packages.Mpro.Pipeline.Alloc.{firmware_supports_lz4, has_margin, lz4_should_compress}
use packages.Mpro.Sysfs.Stores.{
  lz4_workmem_alloc, set_level, setup_lz4, lz4_level_store, lz4_threshold_store, reset_stats,
  reset_stats_store,
}

-- The level is between 0 and 12; above 0 the work memory is there, the model has no margin, and the
-- firmware takes compressed frames.
pub record IsReady (p : Pipe) : Type 0 where
  pub low : leb_ℤ (pos 0) p.lz4_level ≡ true
  pub high : leb_ℤ p.lz4_level (pos 12) ≡ true
  pub memory : (leb_ℤ p.lz4_level (pos 0) || p.lz4_workmem) ≡ true
  pub no_margin : (leb_ℤ p.lz4_level (pos 0) || not (has_margin p.model)) ≡ true
  pub firmware : (leb_ℤ p.lz4_level (pos 0) || firmware_supports_lz4 p.fw_major p.fw_minor) ≡ true

off-IsReady :
    (level : ℤ) (p : Pipe)
    → leb_ℤ (pos 0) level ≡ true
    → ltb_ℤ (pos 0) level ≡ false
    → IsReady (record p { lz4_level = level })
off-IsReady (pos n) p low off = ground (arith, off)
off-IsReady (negsuc n) p low off = absurd (ground (arith, low))

on-IsReady :
    (level : ℤ) (p : Pipe)
    → leb_ℤ (pos 0) level ≡ true
    → leb_ℤ level (pos 12) ≡ true
    → has_margin p.model ≡ false
    → firmware_supports_lz4 p.fw_major p.fw_minor ≡ true
    → p.lz4_workmem ≡ true
    → IsReady (record p { lz4_level = level })
on-IsReady level p low high margin firmware memory =
    ground (arith, low, high, margin, firmware, memory)

-- After a success the memory is there; the model and the firmware stay.
pub record IsAllocated (p : Pipe) (r : Ret × Pipe) : Type 0 where
  pub memory : r.0 ≡ 0 → (r.1).lz4_workmem ≡ true
  pub model : (r.1).model ≡ p.model
  pub major : (r.1).fw_major ≡ p.fw_major
  pub minor : (r.1).fw_minor ≡ p.fw_minor

alloc-IsReady :
    (memory_ok : Bool) (add : Ret) (p : Pipe)
    → IsReady p
    → IsReady (lz4_workmem_alloc memory_ok add p).1
unfolding lz4_workmem_alloc
alloc-IsReady memory_ok add p h = ground (arith, h)

alloc-IsAllocated :
    (memory_ok : Bool) (add : Ret) (p : Pipe) → IsAllocated p (lz4_workmem_alloc memory_ok add p)
unfolding lz4_workmem_alloc
alloc-IsAllocated memory_ok add p = record {
  memory = λ done. ground (arith, done);
  model = ground arith;
  major = ground arith;
  minor = ground arith;
}

level-IsReady :
    (level : ℤ) (p : Pipe) (r : Ret × Pipe)
    → leb_ℤ (pos 0) level ≡ true
    → leb_ℤ level (pos 12) ≡ true
    → has_margin p.model ≡ false
    → firmware_supports_lz4 p.fw_major p.fw_minor ≡ true
    → IsReady r.1
    → IsAllocated p r
    → IsReady (set_level level r).1
unfolding set_level
level-IsReady level p (ret, q) low high margin firmware h got =
    if-cases (λ (r : Ret × Pipe). IsReady r.1) (not (ret == 0)) (λ failed. h)
      (λ done.
        on-IsReady level q low high (rw (got.model) margin) (rw (got.major, got.minor) firmware)
          (got.memory (ground (arith, done))))

abbrev Good : Ret × Pipe → Type 0
Good r = IsReady r.1

pub store-IsReady :
    (parsed : Option ℤ) (memory_ok : Bool) (add : Ret) (p : Pipe)
    → IsReady p
    → IsReady (lz4_level_store parsed memory_ok add p).1
unfolding lz4_level_store
store-IsReady none memory_ok add p h = h
store-IsReady (some val) memory_ok add p h =
    if-cases Good (ltb_ℤ val (pos 0) || ltb_ℤ (pos 12) val) (λ out. h)
      (λ inside.
        if-cases Good (not (ltb_ℤ (pos 0) val))
          (λ off. off-IsReady val p (ground (arith, inside)) (ground (arith, off)))
          (λ on.
            if-cases Good (has_margin p.model) (λ margin. h)
              (λ no_margin.
                if-cases Good (not (firmware_supports_lz4 p.fw_major p.fw_minor)) (λ old. h)
                  (λ supported.
                    level-IsReady val p _ (ground (arith, inside)) (ground (arith, inside))
                      no_margin (ground (arith, supported)) (alloc-IsReady memory_ok add p h)
                      (alloc-IsAllocated memory_ok add p)))))

setup-IsReady :
    (level : ℤ) (memory_ok : Bool) (add : Ret) (p : Pipe)
    → IsReady p
    → IsReady (setup_lz4 level memory_ok add p).1
unfolding setup_lz4
setup-IsReady level memory_ok add p h =
    if-cases Good (leb_ℤ level (pos 0)) (λ off. h)
      (λ on.
        if-cases Good (has_margin p.model) (λ margin. h)
          (λ no_margin.
            if-cases Good (not (firmware_supports_lz4 p.fw_major p.fw_minor)) (λ old. h)
              (λ supported.
                level-IsReady _ p _ (ground arith) (ground arith) no_margin
                  (ground (arith, supported)) (alloc-IsReady memory_ok add p h)
                  (alloc-IsAllocated memory_ok add p))))

-- The calls that change the compression: the set-up of the probe, and the stores.
pub data Call (p : Pipe) : Pipe → Type 0 where
  sets_up : (level : ℤ) (memory_ok : Bool) (add : Ret) → Call p (setup_lz4 level memory_ok add p).1
  stores_level :
      (parsed : Option ℤ) (memory_ok : Bool) (add : Ret)
      → Call p (lz4_level_store parsed memory_ok add p).1
  stores_threshold : (parsed : Option ℤ) → Call p (lz4_threshold_store parsed p).1
  resets : (parsed : Option Bool) → Call p (reset_stats_store parsed p).1

pub data Calls (p : Pipe) : Pipe → Type 0 where
  none_yet : Calls p p
  then_call : {q r : Pipe} → Calls p q → Call q r → Calls p r

call-IsReady : {p q : Pipe} → Call p q → IsReady p → IsReady q
unfolding lz4_threshold_store reset_stats_store reset_stats
call-IsReady {p} (sets_up level memory_ok add) h = setup-IsReady level memory_ok add p h
call-IsReady {p} (stores_level parsed memory_ok add) h = store-IsReady parsed memory_ok add p h
call-IsReady {p} (stores_threshold none) h = h
call-IsReady {p} (stores_threshold (some v)) h = ground (arith, h)
call-IsReady {p} (resets none) h = h
call-IsReady {p} (resets (some v)) h = ground (arith, h)

Calls-IsReady : {p q : Pipe} → Calls p q → IsReady p → IsReady q
Calls-IsReady none_yet h = h
Calls-IsReady (then_call before c) h = call-IsReady c (Calls-IsReady before h)

-- A device that starts without compression and is set up, and whose level and threshold are stored and
-- statistics are reset in any order, whatever is parsed and allocated, compresses a frame only at a level
-- between 1 and 12, with the work memory allocated, and on a model without a margin.
pub Calls-compress :
    {p q : Pipe} (len : ℕ)
    → p.lz4_level ≡ pos 0
    → Calls p q
    → lz4_should_compress q len ≡ true
    → (leb_ℤ q.lz4_level (pos 0) ≡ false)
      × (leb_ℤ q.lz4_level (pos 12) ≡ true)
      × (q.lz4_workmem ≡ true)
      × (has_margin q.model ≡ false)
unfolding lz4_should_compress
Calls-compress {p} {q} len off calls compresses =
    let first : IsReady p = record {
      low = rw off refl;
      high = rw off refl;
      memory = rw off refl;
      no_margin = rw off refl;
      firmware = rw off refl;
    } in
    let h = Calls-IsReady calls first in ground (arith, h, compresses)
