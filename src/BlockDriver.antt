-- ===== src/BlockDriver.antt =====
-- buildroot/package/rvcomp-mmc/src/rvcomp_mmc.c, the Linux block driver of the microSD controller.
-- The controller shows one 4 KiB page of the card, chosen by a register, in a window of its
-- address space. Calls of the kernel are recorded, and what they answer is an argument.
pub mod Transfer
pub mod Segment
pub mod Flushing
pub mod Request
pub mod Storage
pub mod Ending
pub mod Platform
mod Tests
use mathlib.Core.Option
use rvcomp.Base.{
  ℕ, zero, suc, ◌+◌, ◌-◌, ◌*◌, ◌%◌, min, bit_and, Bool, true, false, not, ◌&&◌, Option, none, some,
  List, [], ◌∷◌, ltb, ◌==◌, if◌then◌else◌, Memory, update, blit, u32, u64, sub32, ◌>>>◌,
}

abbrev pub mmc_csr_addr29 : ℕ
mmc_csr_addr29 = 0x00

abbrev pub mmc_csr_flush : ℕ
mmc_csr_flush = 0x18

abbrev pub mmc_csr_flush_done_clr : ℕ
mmc_csr_flush_done_clr = 0x20

abbrev pub mmc_window_base : ℕ
mmc_window_base = 0x1000

abbrev pub mmc_window_mask : ℕ
mmc_window_mask = 0x0fff

abbrev pub mmc_sector_size : ℕ
mmc_sector_size = 512

abbrev pub mmc_poll_max_loops : ℕ
mmc_poll_max_loops = 10000000

-- `blk_status_t`
pub data Status : Type 0 where
  sts_ok sts_ioerr : Status

-- Calls of the kernel, and writes to the registers that are commands.
pub data Call : Type 0 where
  start_request lock unlock : Call
  end_request : Status → Call
  write_reg : ℕ → ℕ → Call
  register_blkdev unregister_blkdev alloc_tag_set free_tag_set : Call
  alloc_disk add_disk del_gendisk put_disk : Call
  set_capacity : ℕ → Call

-- `struct rvcomp_mmc`, with the registers by byte offset, the bytes of the card and of the main
-- memory by address, and the log of calls, newest first.
pub record Mmc : Type 0 where
  pub csr : Memory
  pub card : Memory
  pub mem : Memory
  pub rootfs_offset : ℕ
  pub disk_sectors : ℕ
  pub addr29_cached : ℕ
  pub addr29_valid : Bool
  pub log : List Call

abbrev pub call : Call → Mmc → Mmc
call c mmc = record mmc { log = c ∷ mmc.log }

abbrev pub iowrite : ℕ → ℕ → Mmc → Mmc
iowrite val reg mmc = record mmc { csr = update mmc.csr reg val; log = write_reg reg val ∷ mmc.log }

-- `mmc_wait_flush_done` with `left` rounds to go: 0, or 110 for -ETIMEDOUT. `poll i` is what the
-- `i`th read of the flush-done register gives.
unfoldable pub wait_flush_done : ℕ → (ℕ → ℕ) → ℕ → ℕ
wait_flush_done zero poll i = 110
wait_flush_done (suc left) poll i = elim (bit_and (poll i) 1 == 0) [
  | false ↦ 0
  | true ↦ wait_flush_done left poll (i + 1)
]

-- `mmc_flush` with `loops` rounds of polling (`MMC_POLL_MAX_LOOPS` in the driver).
unfoldable pub flush_loops : ℕ → (ℕ → ℕ) → Mmc → ℕ × Mmc
flush_loops loops poll mmc =
    let ret = wait_flush_done loops poll 0 in
    let flushed = iowrite 1 mmc_csr_flush mmc in
    if not (ret == 0) then (ret, flushed) else (0, iowrite 1 mmc_csr_flush_done_clr flushed)

unfoldable pub flush : (ℕ → ℕ) → Mmc → ℕ × Mmc
flush = flush_loops mmc_poll_max_loops

-- `mmc_select_addr29`
unfoldable pub select_addr29 : ℕ → Mmc → Mmc
select_addr29 byte_addr mmc =
    let addr29 = u32 (bit_and (byte_addr >>> 12) 0x1fffffff) in
    if mmc.addr29_valid && mmc.addr29_cached == addr29
    then mmc
    else record (iowrite addr29 mmc_csr_addr29 mmc) { addr29_cached = addr29; addr29_valid = true }

-- `mmc_window_ptr`, as an offset from the base of the registers.
unfoldable pub window_ptr : ℕ → ℕ
window_ptr byte_addr = mmc_window_base + u32 (bit_and byte_addr mmc_window_mask)

-- The place on the card that the window shows at an offset.
abbrev pub window_place : Mmc → ℕ → ℕ
window_place mmc ptr = mmc.csr mmc_csr_addr29 * 4096 + (ptr - mmc_window_base)

-- `memcpy_fromio` from the window and `memcpy_toio` into it.
abbrev pub memcpy_fromio : ℕ → ℕ → ℕ → Mmc → Mmc
memcpy_fromio buf ptr n mmc = record mmc {
  mem = blit mmc.mem buf (λ p. mmc.card (window_place mmc p)) ptr n;
}

abbrev pub memcpy_toio : ℕ → ℕ → ℕ → Mmc → Mmc
memcpy_toio ptr buf n mmc = record mmc { card = blit mmc.card (window_place mmc ptr) mmc.mem buf n }

-- `struct bio_vec`; a page is its number.
pub record BioVec : Type 0 where
  pub bv_page : ℕ
  pub bv_offset : ℕ
  pub bv_len : ℕ

-- The number of bytes that one round of the copy loop moves.
unfoldable pub chunk_len : ℕ → ℕ → ℕ → ℕ
chunk_len seg_left win_off page_off =
    min seg_left (min (mmc_window_mask + 1 - win_off) (4096 - page_off))

-- One round of the copy loop, at `seg_pos` in the segment and `mmc_addr` on the card.
unfoldable pub copy_chunk : Bool → BioVec → ℕ → ℕ → Mmc → ℕ × Mmc
copy_chunk is_read bvec seg_pos mmc_addr mmc =
    let off = u32 (bvec.bv_offset + seg_pos) in
    let page = bvec.bv_page + (off >>> 12) in
    let page_off = bit_and off 4095 in
    let win_off = u32 (bit_and mmc_addr mmc_window_mask) in
    let chunk = chunk_len (sub32 bvec.bv_len seg_pos) win_off page_off in
    let buf = page * 4096 + page_off in
    let selected = select_addr29 mmc_addr mmc in
    let ptr = window_ptr mmc_addr in
    (
      chunk,
      if is_read then memcpy_fromio buf ptr chunk selected else memcpy_toio ptr buf chunk selected,
    )

-- The copy loop over one segment, on fuel; `none` when the fuel runs out.
unfoldable pub copy_segment : ℕ → Bool → BioVec → ℕ → ℕ → ℕ → Mmc → Option (ℕ × Mmc)
copy_segment zero is_read bvec base seg_pos req_byte_pos mmc = none
copy_segment (suc fuel) is_read bvec base seg_pos req_byte_pos mmc =
    elim (ltb seg_pos bvec.bv_len) [
      | false ↦ some (req_byte_pos, mmc)
      | true ↦
          let (chunk, mmc') = copy_chunk is_read bvec seg_pos (u64 (base + req_byte_pos)) mmc in
          copy_segment fuel is_read bvec base (u32 (seg_pos + chunk)) (u64 (req_byte_pos + chunk))
            mmc'
    ]

-- The loop over the segments; an unaligned one ends it with an error.
unfoldable pub copy_segments : Bool → ℕ → List BioVec → ℕ → Mmc → Option (Status × Mmc)
copy_segments is_read base [] req_byte_pos mmc = some (sts_ok, mmc)
copy_segments is_read base (bvec ∷ segs) req_byte_pos mmc =
    if not (bvec.bv_len % mmc_sector_size == 0)
    then some (sts_ioerr, mmc)
    else Option.bind (copy_segment (suc bvec.bv_len) is_read bvec base 0 req_byte_pos mmc)
        (λ r. copy_segments is_read base segs r.0 r.1)

-- `struct request`: its kind and direction, its first sector and its segments.
pub record BlkRequest : Type 0 where
  pub is_flush : Bool
  pub is_passthrough : Bool
  pub is_read : Bool
  pub pos : ℕ
  pub segments : List BioVec

abbrev pub finish : Status × Mmc → Status × Mmc
finish (status, mmc) = (status, call (end_request status) (call unlock mmc))

abbrev pub flush_request : (ℕ → ℕ) → Mmc → Status × Mmc
flush_request poll mmc =
    let (ret, mmc') = flush poll (call lock mmc) in
    finish (if not (ret == 0) then sts_ioerr else sts_ok, mmc')

-- `rvcomp_mmc_queue_rq`
unfoldable pub queue_rq : (ℕ → ℕ) → BlkRequest → Mmc → Option (Status × Mmc)
queue_rq poll rq mmc =
    let base_mmc_addr = u64 (mmc.rootfs_offset + u64 (rq.pos * mmc_sector_size)) in
    let started = call start_request mmc in
    if rq.is_flush
    then some (flush_request poll started)
    else (if rq.is_passthrough
        then some (sts_ioerr, call (end_request sts_ioerr) started)
        else Option.map finish
            (copy_segments rq.is_read base_mmc_addr rq.segments 0 (call lock started)))
