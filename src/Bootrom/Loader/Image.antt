-- ===== src/Bootrom/Loader/Image.antt =====
-- The page-wise copy of the image is one flat copy from the card into the main memory.
use native.Mathlib.Decide.{dec_lt}
use native.Mathlib.Nat.{le_refl, add-zero}
use rvcomp.Base.{
  ℕ, zero, suc, ◌+◌, ◌-◌, ◌*◌, ◌/◌, ◌%◌, ◌^◌, ◌≤◌, ◌<◌, bit_and, ◌≡◌, refl, sym, ap, ap₂, ◌∙◌,
  fun_ext, some, arith, ltb-true, ltb-false, Memory, update, blit, blit-blit, blit-zero, u32,
}
use rvcomp.Bootrom.Ether.{words}
use rvcomp.Bootrom.Loader.{
  Board, mmc_csr_write, mmc_set_addr29, mmc_win, copy_page, page_words, copy_pages,
  mmc_copy_to_dram, load_image,
}
use rvcomp.Bits.{bit_and_mask}

-- What a copy of `n` words leaves, from word `a` of the card to the same place in memory.
abbrev pub loaded : ℕ → ℕ → Board → Memory
loaded a n b = blit b.dram a b.card a n

-- A word more at the end of a copy.
blit-suc :
    (dst : Memory) (a : ℕ) (src : Memory) (c n : ℕ)
    → blit (update dst a (src c)) (a + 1) src (c + 1) n ≡ blit dst a src c (suc n)
blit-suc dst a src c n = fun_ext λ q. go q
  where
    go : (q : ℕ) → blit (update dst a (src c)) (a + 1) src (c + 1) n q ≡ blit dst a src c (suc n) q
    go q = ground arith

-- What the loop over a page leaves.
record Paged (a c n : ℕ) (b b' : Board) : Type 0 where
  same_csr : b'.mmc_csr ≡ b.mmc_csr
  same_card : b'.card ≡ b.card
  copied_words : b'.dram ≡ blit b.dram a b.card c n

copy_page_lem :
    (left copied i : ℕ) (b : Board)
    → copied + i + left ≤ 2 ^ 30
    → Paged (copied + i) (b.mmc_csr 0 * 1024 + i) left b (copy_page left copied i b)
unfolding copy_page
copy_page_lem zero copied i b h = record {
  same_csr = refl;
  same_card = refl;
  copied_words = sym (blit-zero b.dram (copied + i) b.card (b.mmc_csr 0 * 1024 + i));
}
copy_page_lem (suc left) copied i b h =
    let next : u32 (i + 1) ≡ i + 1 = omega arith in
    let at_word : u32 (copied + i) % 2 ^ 30 ≡ copied + i = omega arith in
    let stored : Board = record b { dram = update b.dram (copied + i) (mmc_win b i) } in
    let rest = copy_page_lem left copied (i + 1) stored (omega arith) in
    let a : copied + (i + 1) ≡ copied + i + 1 = omega arith in
    let c : b.mmc_csr 0 * 1024 + (i + 1) ≡ b.mmc_csr 0 * 1024 + i + 1 = omega arith in
    rw (next, at_word)
      (record {
        same_csr = rest.same_csr;
        same_card = rest.same_card;
        copied_words =
            rest.copied_words
            ∙ ap₂ (λ (x y : ℕ). blit stored.dram x b.card y left) a c
            ∙ blit-suc b.dram (copied + i) b.card (b.mmc_csr 0 * 1024 + i) left;
      })

page_shown :
    (addr29 : ℕ) (b : Board)
    → addr29 < 2 ^ 29
    → mmc_set_addr29 addr29 b ≡ record b { mmc_csr = update b.mmc_csr 0 addr29 }
unfolding mmc_set_addr29 mmc_csr_write
page_shown addr29 b lt =
    let e : u32 (bit_and addr29 0x1fffffff) ≡ addr29 = omega (arith, bit_and_mask 29 addr29) in
    rw e refl

all_copied : (fuel n page : ℕ) (b : Board) → 0 < fuel → copy_pages fuel n n page b ≡ some b
unfolding copy_pages
all_copied zero n page b h = absurd (omega arith)
all_copied (suc fuel) n page b h = rw (ltb-false n n (le_refl n), copy_pages) refl

-- What one round leaves, and how the next one is called.
round :
    (fuel n page words : ℕ) (b : Board)
    → n ≤ 2 ^ 29
    → page * 1024 + words ≤ n
    → 0 < words
    → page_words n (page * 1024) ≡ words
    → (b' : Board) × (copy_pages (suc fuel) n (page * 1024) page b
        ≡ copy_pages fuel n (page * 1024 + words) (page + 1) b')
      × (b'.card ≡ b.card)
      × (b'.dram ≡ loaded (page * 1024) words b)
unfolding copy_pages
round fuel n page words b lt le pos size =
    let begun : Board = record b { mmc_csr = update b.mmc_csr 0 page } in
    let paged = copy_page_lem words (page * 1024) 0 begun (omega arith) in
    let on : u32 (page * 1024 + words) ≡ page * 1024 + words = omega arith in
    let up : u32 (page + 1) ≡ page + 1 = omega arith in
    (
      copy_page words (page * 1024) 0 begun,
      rw (ltb-true (page * 1024) n (omega arith), copy_pages)
          (rw (size, page_shown page b (omega arith), on, up) refl),
      paged.same_card,
      paged.copied_words ∙ ap (λ (x : ℕ). blit b.dram x b.card x words) (add-zero (page * 1024)),
    )

copy_pages_lem :
    (fuel n page : ℕ) (b : Board)
    → n ≤ 2 ^ 29
    → page * 1024 ≤ n
    → n < fuel + page * 1024
    → (b' : Board) × (copy_pages fuel n (page * 1024) page b ≡ some b')
      × (b'.card ≡ b.card)
      × (b'.dram ≡ loaded (page * 1024) (n - page * 1024) b)
copy_pages_lem zero n page b lt le fu = absurd (omega arith)
copy_pages_lem (suc fuel) n page b lt le fu = elim (dec_lt (page * 1024 + 1024) n) [
  | yes p ↦
      let (b1, e, card1, dram1) =
        round fuel n page 1024 b lt (omega arith) (omega arith) (ground arith) in
      let next : page * 1024 + 1024 ≡ (page + 1) * 1024 = omega arith in
      let (b', rest, card', dram') =
        copy_pages_lem fuel n (page + 1) b1 lt (omega arith) (omega arith) in
      (
        b',
        e ∙ rw next rest,
        card' ∙ card1,
        dram'
            ∙ ap₂
                (λ (x y : Memory).
                  blit x ((page + 1) * 1024) y ((page + 1) * 1024) (n - (page + 1) * 1024))
                dram1 card1
            ∙ ap (λ (k : ℕ). blit (loaded (page * 1024) 1024 b) k b.card k (n - k)) (sym next)
            ∙ blit-blit b.dram (page * 1024) b.card (page * 1024) 1024 (n - (page * 1024 + 1024))
            ∙ ap (λ (k : ℕ). loaded (page * 1024) k b) (omega arith),
      )
  | no p ↦ elim (dec_lt (page * 1024) n) [
    | yes q ↦
        let (b1, e, card1, dram1) =
          round fuel n page (n - page * 1024) b lt (omega arith) (omega arith) (ground arith) in
        let all : page * 1024 + (n - page * 1024) ≡ n = omega arith in
        (b1, e ∙ rw all (all_copied fuel n (page + 1) b1 (omega arith)), card1, dram1)
    | no q ↦
        let e : page * 1024 ≡ n = omega arith in
        let z : n - page * 1024 ≡ 0 = omega arith in
        (
          b,
          rw e (all_copied (suc fuel) n page b (omega arith)),
          refl,
          rw z (sym (blit-zero b.dram (page * 1024) b.card (page * 1024))),
        )
  ]
]

mmc_copy_to_dram_lem :
    (n : ℕ) (b : Board)
    → n ≤ 2 ^ 29
    → (b' : Board) × (mmc_copy_to_dram n b ≡ some b')
      × (b'.card ≡ b.card)
      × (b'.dram ≡ loaded 0 n b)
unfolding mmc_copy_to_dram
mmc_copy_to_dram_lem n b lt =
    let (b', e, card', dram') = copy_pages_lem (suc n) n 0 b lt (omega arith) (omega arith) in
    let all : n - 0 * 1024 ≡ n = omega arith in
    (b', e, card', dram' ∙ ap (λ (k : ℕ). loaded 0 k b) all)

-- An image of at most 512 MiB, so that it ends below the controller's registers at 0xa0000000, is
-- loaded in full: the copy ends,
-- the first words of the memory, rounded up from the size, are those of the card, and the words
-- behind them and the card are left alone.
pub load_image_lem :
    (bin_size : ℕ) (b : Board)
    → bin_size ≤ 2 ^ 29
    → (b' : Board) × (load_image bin_size b ≡ some b')
      × (b'.card ≡ b.card)
      × ((i : ℕ) → i * 4 < bin_size → b'.dram i ≡ b.card i)
      × ((i : ℕ) → bin_size ≤ i * 4 → b'.dram i ≡ b.dram i)
unfolding load_image
load_image_lem bin_size b lt =
    let n : ℕ = (bin_size + 3) / 4 in
    let whole : u32 (bin_size + 3) ≡ bin_size + 3 = omega arith in
    let (b', e, card', dram') = mmc_copy_to_dram_lem n b (omega arith) in
    (
      b',
      ap (λ (k : ℕ). mmc_copy_to_dram (k / 4) b) whole ∙ e,
      card',
      (λ i inside. rw dram' (ground arith)),
      (λ i outside. rw dram' (ground arith)),
    )
