-- ===== src/Bootrom/Loader.antt =====
-- bootloader.c and rvcomp_mmc.c: the image of BIN_SIZE bytes is copied from the start of the card
-- to the start of the main memory, a 4 KiB window at a time.
pub mod Image
use rvcomp.Base.{
  ℕ, zero, suc, ◌+◌, ◌*◌, ◌/◌, ◌%◌, ◌^◌, bit_and, true, false, Option, none, some, ltb,
  if◌then◌else◌, Memory, update, u32, sub32, ◌>>>◌,
}

-- The words of the controller's registers, of the card, and of the address space from the start of
-- the main memory on, round its 2^30 words.
pub record Board : Type 0 where
  pub mmc_csr : Memory
  pub card : Memory
  pub dram : Memory

abbrev pub mmc_window_words : ℕ
mmc_window_words = 0x1000 / 4

-- `mmc_csr_write` and `mmc_csr_read`
unfoldable pub mmc_csr_write : ℕ → ℕ → Board → Board
mmc_csr_write byte_offset val b = record b { mmc_csr = update b.mmc_csr (byte_offset >>> 2) val }

unfoldable pub mmc_csr_read : ℕ → Board → ℕ
mmc_csr_read byte_offset b = b.mmc_csr (byte_offset >>> 2)

-- `mmc_set_addr29`
unfoldable pub mmc_set_addr29 : ℕ → Board → Board
mmc_set_addr29 addr29 b = mmc_csr_write 0 (u32 (bit_and addr29 0x1fffffff)) b

-- Word `i` of the window: it shows the page of the card that the register at offset 0 names.
abbrev pub mmc_win : Board → ℕ → ℕ
mmc_win b i = b.card (b.mmc_csr 0 * 1024 + i)

-- The loop over the words of a page, from word `i` on.
unfoldable pub copy_page : ℕ → ℕ → ℕ → Board → Board
copy_page zero copied i b = b
copy_page (suc left) copied i b =
    copy_page left copied (u32 (i + 1))
      (record b { dram = update b.dram (u32 (copied + i) % 2 ^ 30) (mmc_win b i) })

-- `words_this_page`
abbrev pub page_words : ℕ → ℕ → ℕ
page_words image_words copied =
    let words_this_page = sub32 image_words copied in
    if ltb mmc_window_words words_this_page then mmc_window_words else words_this_page

-- The loop over the pages, on fuel; `none` when the fuel runs out.
unfoldable pub copy_pages : ℕ → ℕ → ℕ → ℕ → Board → Option Board
copy_pages zero image_words copied addr29 b = none
copy_pages (suc fuel) image_words copied addr29 b = elim (ltb copied image_words) [
  | false ↦ some b
  | true ↦
      let words = page_words image_words copied in
      let shown = mmc_set_addr29 addr29 b in
      copy_pages fuel image_words (u32 (copied + words)) (u32 (addr29 + 1))
        (copy_page words copied 0 shown)
]

-- `mmc_copy_to_dram`, to the start of the main memory.
unfoldable pub mmc_copy_to_dram : ℕ → Board → Option Board
mmc_copy_to_dram image_words b = copy_pages (suc image_words) image_words 0 0 b

-- The part of `bootloader` between its messages, for the size that the build gives.
unfoldable pub load_image : ℕ → Board → Option Board
load_image bin_size b = mmc_copy_to_dram (u32 (bin_size + 3) / 4) b
