-- ===== src/BlockDriver/Storage.antt =====
-- rvcomp_mmc_queue_rq: what a request writes, a later one reads back.
use rvcomp.Base.{ℕ, Bool, false, [], ◌∷◌}
use rvcomp.BlockDriver.{BioVec, BlkRequest}

-- A read or write of one segment.
abbrev pub request : Bool → ℕ → BioVec → BlkRequest
request r pos b = record {
  is_flush = false;
  is_passthrough = false;
  is_read = r;
  pos = pos;
  segments = b ∷ [];
}
