-- ===== src/BlockDriver/Tests.antt =====
-- The block driver at concrete states: a card whose file system starts at 1 MiB, and segments of
-- one sector.
use rvcomp.Base.{ℕ, ◌%◌, ◌≡◌, ◌⊎◌, true, false, some, [], ◌∷◌, arith}
use rvcomp.BlockDriver.Storage.{request}
use rvcomp.BlockDriver.Ending.{Ended, Succeeds, queue_rq-Ended}
use rvcomp.BlockDriver.Flushing.{DoneWithin, NeverWithin, flush_loops_lem}
use rvcomp.BlockDriver.Transfer.{Cached}
use rvcomp.BlockDriver.Platform.{ProbeEnv, probe, Failed, Succeeded, mmc_probe_lem}
use rvcomp.BlockDriver.{
  mmc_csr_flush, mmc_csr_flush_done_clr, Status, sts_ok, sts_ioerr, write_reg, Mmc, flush_loops,
  BioVec, queue_rq,
}

abbrev mmc : Mmc
mmc = record {
  csr = λ a. 0;
  card = λ a. a % 256;
  mem = λ a. a % 7;
  rootfs_offset = 0x100000;
  disk_sectors = 4096;
  addr29_cached = 0;
  addr29_valid = false;
  log = [];
}

not-Cached : Cached mmc
not-Cached e = cc

abbrev seg : BioVec
seg = record { bv_page = 3; bv_offset = 100; bv_len = 512 }

abbrev other : BioVec
other = record { bv_page = 9; bv_offset = 3840; bv_len = 512 }

-- A register that never shows the done bit.
abbrev silent : ℕ → ℕ
silent i = 0

queue_rq-Ended_example :
    (status : Status) × (mmc' : Mmc) × (queue_rq silent (request false 7 seg) mmc
      ≡ some (status, mmc'))
    × Ended status mmc mmc'
    × ((Succeeds silent (request false 7 seg) × (status ≡ sts_ok))
        ⊎ ((Succeeds silent (request false 7 seg) → ⊥) × (status ≡ sts_ioerr)))
queue_rq-Ended_example =
    queue_rq-Ended silent (request false 7 seg) mmc (omega arith, tt) (omega arith) not-Cached

flush_loops_lem_example :
    (DoneWithin 3 silent 0
      × ((flush_loops 3 silent mmc).0 ≡ 0)
      × ((flush_loops 3 silent mmc).1.log
          ≡ write_reg mmc_csr_flush_done_clr 1 ∷ write_reg mmc_csr_flush 1 ∷ []))
    ⊎ (NeverWithin 3 silent 0
        × ((flush_loops 3 silent mmc).0 ≡ 110)
        × ((flush_loops 3 silent mmc).1.log ≡ write_reg mmc_csr_flush 1 ∷ []))
flush_loops_lem_example = flush_loops_lem 3 silent mmc

abbrev env : ProbeEnv
env = record {
  alloc_ok = true;
  has_region = true;
  csr_error = 0;
  offset_error = 0;
  offset_val = 0x100000;
  size_error = 0;
  size_mb = 64;
  major_error = 0;
  tag_set_error = 0;
  disk_error = 0;
  add_error = 12;
  csr = λ a. 0;
  card = λ a. 0;
  mem = λ a. 0;
}

mmc_probe_lem_example : Failed (probe env) ⊎ Succeeded env (probe env)
mmc_probe_lem_example = mmc_probe_lem env
