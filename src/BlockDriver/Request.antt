-- ===== src/BlockDriver/Request.antt =====
-- rvcomp_mmc_queue_rq: a request as one flat transfer for each of its segments, how it ends, and
-- that what is written is read back.
use mathlib.Core.Option
use rvcomp.Base.{ℕ, ◌+◌, ◌%◌, ◌^◌, ◌<◌, ◌≡◌, Bool, List, [], ◌∷◌, Memory}
use rvcomp.BlockDriver.{BioVec}
use rvcomp.BlockDriver.Segment.{moved_mem, moved_card, seg_addr}

-- The transfers of the segments one after another, from place `p` of the card on.
abbrev pub flat : Bool → List BioVec → ℕ → Memory × Memory → Memory × Memory
flat r [] p s = s
flat r (b ∷ segs) p (mem, card) =
    flat r segs (p + b.bv_len)
      (moved_mem r mem card (seg_addr b) p b.bv_len, moved_card r mem card (seg_addr b) p b.bv_len)

abbrev pub bytes : List BioVec → ℕ
bytes [] = 0
bytes (b ∷ segs) = b.bv_len + bytes segs

-- Offsets and lengths that do not wrap.
abbrev pub InRange : List BioVec → Type 0
InRange [] = Unit {0}
InRange (b ∷ segs) = (b.bv_offset + b.bv_len < 2 ^ 32) × InRange segs

-- Whole sectors.
abbrev pub Aligned : List BioVec → Type 0
Aligned [] = Unit {0}
Aligned (b ∷ segs) = (b.bv_len % 512 ≡ 0) × Aligned segs
