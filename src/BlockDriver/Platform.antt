-- ===== src/BlockDriver/Platform.antt =====
-- rvcomp_mmc_probe, rvcomp_mmc_remove and rvcomp_mmc_shutdown: the set-up in its order, and the
-- unwinding behind the labels err_disk, err_tag_set and err_blkdev.
use rvcomp.Base.{
  ℕ, ◌*◌, ◌^◌, ◌≡◌, refl, ◌≢◌, ◌⊎◌, inl, inr, Bool, true, false, not, ◌&&◌, Option, none, some,
  List, [], ◌∷◌, arith, ◌==◌, if◌then◌else◌, Bool-cases, Memory,
}
use rvcomp.BlockDriver.Flushing.{flush_loops_lem}
use rvcomp.BlockDriver.Transfer.{Cached}
use rvcomp.BlockDriver.{
  mmc_poll_max_loops, Call, register_blkdev, unregister_blkdev, alloc_tag_set, free_tag_set,
  alloc_disk, add_disk, del_gendisk, put_disk, set_capacity, Mmc, call, lock, unlock, flush,
  mmc_csr_flush, mmc_csr_flush_done_clr, write_reg,
}

-- What the kernel answers to a probe; an error is a positive number, 0 for none.
pub record ProbeEnv : Type 0 where
  pub alloc_ok : Bool
  pub has_region : Bool
  pub csr_error : ℕ
  pub offset_error : ℕ
  pub offset_val : ℕ
  pub size_error : ℕ
  pub size_mb : ℕ
  pub major_error : ℕ
  pub tag_set_error : ℕ
  pub disk_error : ℕ
  pub add_error : ℕ
  -- What the controller and the memory hold.
  pub csr : Memory
  pub card : Memory
  pub mem : Memory

-- What the probe returns, the device that it leaves, and its calls.
pub record Probed : Type 0 where
  pub ret : ℕ
  pub device : Option Mmc
  pub log : List Call

abbrev failed : ℕ → List Call → Probed
failed ret log = record { ret = ret; device = none; log = log }

-- The parts behind the labels, each running on into the next.
abbrev err_blkdev : ℕ → List Call → Probed
err_blkdev ret log = failed ret (unregister_blkdev ∷ log)

abbrev err_tag_set : ℕ → List Call → Probed
err_tag_set ret log = err_blkdev ret (free_tag_set ∷ log)

abbrev err_disk : ℕ → List Call → Probed
err_disk ret log = err_tag_set ret (put_disk ∷ log)

-- From the allocation of the disk on.
unfoldable pub probe_disk : ProbeEnv → Probed
probe_disk env =
    let sectors = env.size_mb * 2048 in
    let tagged = alloc_tag_set ∷ register_blkdev ∷ [] in
    let added = add_disk ∷ set_capacity sectors ∷ alloc_disk ∷ tagged in
    if not (env.disk_error == 0)
    then err_tag_set env.disk_error tagged
    else (if not (env.add_error == 0)
        then err_disk env.add_error (set_capacity sectors ∷ alloc_disk ∷ tagged)
        else record {
          ret = 0;
          device = some (record {
            csr = env.csr;
            card = env.card;
            mem = env.mem;
            rootfs_offset = env.offset_val;
            disk_sectors = sectors;
            addr29_cached = 0;
            addr29_valid = false;
            log = added;
          });
          log = added;
        })

-- From the registration of the block device on.
unfoldable pub probe_blkdev : ProbeEnv → Probed
probe_blkdev env =
    if not (env.major_error == 0)
    then failed env.major_error []
    else (if not (env.tag_set_error == 0)
        then err_blkdev env.tag_set_error (register_blkdev ∷ [])
        else probe_disk env)

-- The error of the first resource or property that is missing, 0 for none.
unfoldable pub resource_error : ProbeEnv → ℕ
resource_error env =
    if not env.alloc_ok
    then 12
    else (if not env.has_region
        then 19
        else (if not (env.csr_error == 0)
            then env.csr_error
            else (if not (env.offset_error == 0) then env.offset_error else env.size_error)))

-- `rvcomp_mmc_probe`
unfoldable pub probe : ProbeEnv → Probed
probe env =
    if not (resource_error env == 0) then failed (resource_error env) [] else probe_blkdev env

-- `rvcomp_mmc_remove`, where the platform device has its driver data.
unfoldable pub remove : (ℕ → ℕ) → Mmc → Mmc
remove poll mmc =
    let (ret, flushed) = flush poll (call lock (call del_gendisk mmc)) in
    call unregister_blkdev (call free_tag_set (call put_disk (call unlock flushed)))

-- `rvcomp_mmc_shutdown`
unfoldable pub shutdown : (ℕ → ℕ) → Mmc → Mmc
shutdown poll mmc = let (ret, flushed) = flush poll (call lock mmc) in call unlock flushed

-- What is held after the calls of a log.
pub record Resources : Type 0 where
  pub blkdev : Bool
  pub tag_set : Bool
  pub disk : Bool
  pub locked : Bool

abbrev pub nothing : Resources
nothing = record { blkdev = false; tag_set = false; disk = false; locked = false }

abbrev pub resources : List Call → Resources
resources [] = nothing
resources (register_blkdev ∷ log) = record (resources log) { blkdev = true }
resources (unregister_blkdev ∷ log) = record (resources log) { blkdev = false }
resources (alloc_tag_set ∷ log) = record (resources log) { tag_set = true }
resources (free_tag_set ∷ log) = record (resources log) { tag_set = false }
resources (alloc_disk ∷ log) = record (resources log) { disk = true }
resources (put_disk ∷ log) = record (resources log) { disk = false }
resources (lock ∷ log) = record (resources log) { locked = true }
resources (unlock ∷ log) = record (resources log) { locked = false }
resources (c ∷ log) = resources log

-- Nothing is taken that is held or given back that is not, and the registers are written under the
-- lock.
abbrev pub orderly : List Call → Bool
orderly [] = true
orderly (register_blkdev ∷ log) = not (resources log).blkdev && orderly log
orderly (unregister_blkdev ∷ log) = (resources log).blkdev && orderly log
orderly (alloc_tag_set ∷ log) = not (resources log).tag_set && orderly log
orderly (free_tag_set ∷ log) = (resources log).tag_set && orderly log
orderly (alloc_disk ∷ log) = not (resources log).disk && orderly log
orderly (put_disk ∷ log) = (resources log).disk && orderly log
orderly (lock ∷ log) = not (resources log).locked && orderly log
orderly (unlock ∷ log) = (resources log).locked && orderly log
orderly (write_reg reg val ∷ log) = (resources log).locked && orderly log
orderly (c ∷ log) = orderly log

-- A failed probe, which holds nothing, and one that leaves a device.
abbrev pub Failed : Probed → Type 0
Failed p = (p.ret ≢ 0) × (p.device ≡ none) × (resources p.log ≡ nothing) × (orderly p.log ≡ true)

abbrev pub in_use : Resources
in_use = record { blkdev = true; tag_set = true; disk = true; locked = false }

abbrev pub Succeeded : ProbeEnv → Probed → Type 0
Succeeded env p =
    (mmc : Mmc) × (p.ret ≡ 0)
    × (p.device ≡ some mmc)
    × Cached mmc
    × (mmc.rootfs_offset ≡ env.offset_val)
    × (mmc.disk_sectors * 512 ≡ env.size_mb * 2 ^ 20)
    × (resources mmc.log ≡ in_use)
    × (orderly mmc.log ≡ true)

probe_disk_lem : (env : ProbeEnv) → Failed (probe_disk env) ⊎ Succeeded env (probe_disk env)
unfolding probe_disk
probe_disk_lem env = elim (Bool-cases (env.disk_error == 0)) [
  | inr f ↦ rw f (inl ((λ e. absurd (ground arith)), refl, refl, refl))
  | inl t ↦ rw t (elim (Bool-cases (env.add_error == 0)) [
    | inr f ↦ rw f (inl ((λ e. absurd (ground arith)), refl, refl, refl))
    | inl t' ↦
        rw t'
          (inr (_, refl, refl, (λ e. absurd (ground (arith, e))), refl, omega arith, refl, refl))
  ])
]

-- Every probe either fails with an error, no device and all that it took given back, or leaves a
-- device at the offset and of the size in bytes that the device tree gives, with no page cached
-- and the block device, the tag set and the disk held.
pub mmc_probe_lem : (env : ProbeEnv) → Failed (probe env) ⊎ Succeeded env (probe env)
unfolding probe probe_blkdev
mmc_probe_lem env = elim (Bool-cases (resource_error env == 0)) [
  | inr f ↦ rw f (inl ((λ e. absurd (ground arith)), refl, refl, refl))
  | inl t ↦ rw t (elim (Bool-cases (env.major_error == 0)) [
    | inr f ↦ rw f (inl ((λ e. absurd (ground arith)), refl, refl, refl))
    | inl t' ↦ rw t' (elim (Bool-cases (env.tag_set_error == 0)) [
      | inr f ↦ rw f (inl ((λ e. absurd (ground arith)), refl, refl, refl))
      | inl t'' ↦ rw t'' (probe_disk_lem env)
    ])
  ])
]

unlock_all :
    (log flushed : List Call)
    → resources log ≡ in_use
    → orderly log ≡ true
    → (flushed
        ≡ write_reg mmc_csr_flush_done_clr 1 ∷ write_reg mmc_csr_flush 1 ∷ lock ∷ del_gendisk ∷ log)
      ⊎ (flushed ≡ write_reg mmc_csr_flush 1 ∷ lock ∷ del_gendisk ∷ log)
    → orderly (unregister_blkdev ∷ free_tag_set ∷ put_disk ∷ unlock ∷ flushed) ≡ true
unlock_all log flushed use_before ok (inl e) = rw e (rw (use_before, ok) refl)
unlock_all log flushed use_before ok (inr e) = rw e (rw (use_before, ok) refl)

-- Removing a device that holds the block device, the tag set and the disk, after orderly calls,
-- gives all of them back, each once, and writes the registers under the lock alone, whether or
-- not the last flush is done in time.
pub mmc_remove_lem :
    (poll : ℕ → ℕ) (mmc : Mmc)
    → resources mmc.log ≡ in_use
    → orderly mmc.log ≡ true
    → (resources (remove poll mmc).log ≡ nothing) × (orderly (remove poll mmc).log ≡ true)
unfolding remove flush
mmc_remove_lem poll mmc use_before ok =
    elim (flush_loops_lem mmc_poll_max_loops poll (call lock (call del_gendisk mmc))) [
      | inl (done, r, l) ↦ (refl, unlock_all mmc.log _ use_before ok (inl l))
      | inr (never, r, l) ↦ (refl, unlock_all mmc.log _ use_before ok (inr l))
    ]
