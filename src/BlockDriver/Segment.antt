-- ===== src/BlockDriver/Segment.antt =====
-- The windowed copy of one segment is one flat copy between the main memory and the card.
use mathlib.Core.Path.{subst₃}
use native.Mathlib.Nat.{add-zero}
use rvcomp.Base.{
  ℕ, zero, suc, ◌+◌, ◌-◌, ◌*◌, ◌/◌, ◌%◌, ◌^◌, ◌≤◌, ◌<◌, bit_and, ◌≡◌, refl, sym, ap, ap₂, ◌∙◌,
  fun_ext, Bool, true, false, ◌&&◌, some, [], arith, ltb, leb, if◌then◌else◌, Memory, blit,
  blit-blit, blit-zero, u32, u64, sub32, ◌>>>◌,
}
use rvcomp.Bits.{bit_and_mask}
use rvcomp.BlockDriver.{
  Mmc, BioVec, window_ptr, copy_chunk, memcpy_fromio, memcpy_toio, chunk_len, select_addr29,
  copy_segment,
}
use rvcomp.BlockDriver.Transfer.{Cached, Keeps, Keeps-trans, Selected, select_addr29_lem}

-- A flat transfer of `n` bytes between address `a` of the memory and place `p` of the card: the
-- memory and the card after it.
abbrev pub moved_mem : Bool → Memory → Memory → ℕ → ℕ → ℕ → Memory
moved_mem true mem card a p n = blit mem a card p n
moved_mem false mem card a p n = mem

abbrev pub moved_card : Bool → Memory → Memory → ℕ → ℕ → ℕ → Memory
moved_card true mem card a p n = card
moved_card false mem card a p n = blit card p mem a n

-- The address of a segment in the main memory.
abbrev pub seg_addr : BioVec → ℕ
seg_addr bvec = bvec.bv_page * 4096 + bvec.bv_offset

-- What a transfer of `n` bytes leaves.
pub record Moved (is_read : Bool) (a p n : ℕ) (mmc mmc' : Mmc) : Type 0 where
  pub mem_moved : mmc'.mem ≡ moved_mem is_read mmc.mem mmc.card a p n
  pub card_moved : mmc'.card ≡ moved_card is_read mmc.mem mmc.card a p n
  pub keeps : Keeps mmc mmc'

pub Moved-zero : (r : Bool) (a p : ℕ) (mmc : Mmc) → Cached mmc → Moved r a p 0 mmc mmc
Moved-zero true a p mmc c = record {
  mem_moved = sym (blit-zero mmc.mem a mmc.card p);
  card_moved = refl;
  keeps = record { cached = c; same_offset = refl; writes = []; page_writes = tt; logged = refl };
}
Moved-zero false a p mmc c = record {
  mem_moved = refl;
  card_moved = sym (blit-zero mmc.card p mmc.mem a);
  keeps = record { cached = c; same_offset = refl; writes = []; page_writes = tt; logged = refl };
}

pub Moved-cong :
    (r : Bool) (x y : Mmc) {a a' p p' n n' : ℕ}
    → a ≡ a'
    → p ≡ p'
    → n ≡ n'
    → Moved r a p n x y
    → Moved r a' p' n' x y
Moved-cong r x y ea ep en m = subst₃ (λ (a p n : ℕ). Moved r a p n x y) ea ep en m

pub Moved-trans :
    (r : Bool) (a p n k : ℕ) (x y z : Mmc)
    → Moved r a p n x y
    → Moved r (a + n) (p + n) k y z
    → Moved r a p (n + k) x z
Moved-trans true a p n k x y z h g = record {
  mem_moved =
      g.mem_moved
      ∙ ap₂ (λ (m c : Memory). blit m (a + n) c (p + n) k) h.mem_moved h.card_moved
      ∙ blit-blit x.mem a x.card p n k;
  card_moved = g.card_moved ∙ h.card_moved;
  keeps = Keeps-trans h.keeps g.keeps;
}
Moved-trans false a p n k x y z h g = record {
  mem_moved = g.mem_moved ∙ h.mem_moved;
  card_moved =
      g.card_moved
      ∙ ap₂ (λ (m c : Memory). blit c (p + n) m (a + n) k) h.mem_moved h.card_moved
      ∙ blit-blit x.card p x.mem a n k;
  keeps = Keeps-trans h.keeps g.keeps;
}

-- A read through the window is one from the card.
window_read :
    (mem card : Memory) (buf page addr n : ℕ)
    → page ≡ addr / 4096
    → blit mem buf (λ p. card (page * 4096 + (p - 0x1000))) (0x1000 + addr % 4096) n
      ≡ blit mem buf card addr n
window_read mem card buf page addr n e = fun_ext λ q. go q
  where
    place : (q : ℕ) → page * 4096 + (0x1000 + addr % 4096 + (q - buf) - 0x1000) ≡ addr + (q - buf)
    place q = omega arith

    go :
        (q : ℕ)
        → blit mem buf (λ p. card (page * 4096 + (p - 0x1000))) (0x1000 + addr % 4096) n q
          ≡ blit mem buf card addr n q
    go q = ap (λ (p : ℕ). if leb buf q && ltb q (buf + n) then card p else mem q) (place q)

-- Both directions, once the page is selected.
window_move :
    (r : Bool) (buf addr n : ℕ) (mmc sel : Mmc)
    → Selected addr mmc sel
    → Moved r buf addr n mmc (
        if r
        then memcpy_fromio buf (0x1000 + addr % 4096) n sel
        else memcpy_toio (0x1000 + addr % 4096) buf n sel)
window_move true buf addr n mmc sel s = record {
  mem_moved =
      window_read sel.mem sel.card buf (sel.csr 0) addr n s.page
      ∙ ap₂ (λ (m c : Memory). blit m buf c addr n) s.same_mem s.same_card;
  card_moved = s.same_card;
  keeps = record {
    cached = s.keeps.cached;
    same_offset = s.keeps.same_offset;
    writes = s.keeps.writes;
    page_writes = s.keeps.page_writes;
    logged = s.keeps.logged;
  };
}
window_move false buf addr n mmc sel s =
    let place : sel.csr 0 * 4096 + (0x1000 + addr % 4096 - 0x1000) ≡ addr = omega (arith, s.page) in
    record {
      mem_moved = s.same_mem;
      card_moved =
          ap (λ (p : ℕ). blit sel.card p sel.mem buf n) place
          ∙ ap₂ (λ (m c : Memory). blit c addr m buf n) s.same_mem s.same_card;
      keeps = record {
        cached = s.keeps.cached;
        same_offset = s.keeps.same_offset;
        writes = s.keeps.writes;
        page_writes = s.keeps.page_writes;
        logged = s.keeps.logged;
      };
    }

window_ptr_lem : (addr : ℕ) → window_ptr addr ≡ 0x1000 + addr % 4096
unfolding window_ptr
window_ptr_lem addr = omega (arith, bit_and_mask 12 addr)

-- A round ends no later than the segment, the window and the page of the memory.
chunk_len_bounds :
    (left addr off : ℕ)
    → 0 < left
    → let n = chunk_len left (u32 (bit_and addr 0x0fff)) (bit_and off 4095) in
      (0 < n) × (n ≤ left) × (addr % 4096 + n ≤ 4096) × (off % 4096 + n ≤ 4096)
unfolding chunk_len
chunk_len_bounds left addr off h = omega (arith, bit_and_mask 12 addr, bit_and_mask 12 off)

-- One round moves a positive number of bytes, at most what is left.
copy_chunk_lem :
    (r : Bool) (bvec : BioVec) (seg_pos addr : ℕ) (mmc : Mmc)
    → bvec.bv_offset + bvec.bv_len < 2 ^ 32
    → seg_pos < bvec.bv_len
    → addr < 2 ^ 41
    → Cached mmc
    → let (n, mmc') = copy_chunk r bvec seg_pos addr mmc in
      (0 < n) × (n ≤ bvec.bv_len - seg_pos) × Moved r (seg_addr bvec + seg_pos) addr n mmc mmc'
unfolding copy_chunk
copy_chunk_lem r bvec seg_pos addr mmc fits lt la c =
    let off : u32 (bvec.bv_offset + seg_pos) ≡ bvec.bv_offset + seg_pos = omega arith in
    let left : sub32 bvec.bv_len seg_pos ≡ bvec.bv_len - seg_pos = omega arith in
    let buf : (bvec.bv_page + (u32 (bvec.bv_offset + seg_pos) >>> 12)) * 4096
          + bit_and (u32 (bvec.bv_offset + seg_pos)) 4095
        ≡ seg_addr bvec + seg_pos =
      omega (arith, off, bit_and_mask 12 (u32 (bvec.bv_offset + seg_pos))) in
    let n =
      chunk_len (sub32 bvec.bv_len seg_pos) (u32 (bit_and addr 0x0fff))
        (bit_and (u32 (bvec.bv_offset + seg_pos)) 4095) in
    let bounds =
      chunk_len_bounds (sub32 bvec.bv_len seg_pos) addr (u32 (bvec.bv_offset + seg_pos))
        (omega (arith, left)) in
    (
      bounds.0,
      omega (arith, bounds.1, left),
      rw (buf, window_ptr_lem addr)
          (window_move r (seg_addr bvec + seg_pos) addr n mmc (select_addr29 addr mmc)
            (select_addr29_lem addr mmc la c)),
    )

module _ (r : Bool) (bvec : BioVec) (base : ℕ) (fits : bvec.bv_offset + bvec.bv_len < 2 ^ 32) where
  segment-done :
      (fuel seg_pos req : ℕ) (mmc : Mmc)
      → bvec.bv_len ≤ seg_pos
      → copy_segment (suc fuel) r bvec base seg_pos req mmc ≡ some (req, mmc)
  unfolding copy_segment
  segment-done fuel seg_pos req mmc h = ground arith

  segment_step :
      (fuel seg_pos req n : ℕ) (mmc mmc' : Mmc)
      → seg_pos < bvec.bv_len
      → copy_chunk r bvec seg_pos (u64 (base + req)) mmc ≡ (n, mmc')
      → copy_segment (suc fuel) r bvec base seg_pos req mmc
        ≡ copy_segment fuel r bvec base (u32 (seg_pos + n)) (u64 (req + n)) mmc'
  unfolding copy_segment
  segment_step fuel seg_pos req n mmc mmc' h e = ground arith

  -- The loop moves all that is left of the segment, and never runs out of fuel.
  segment_loop :
      (fuel seg_pos req left : ℕ) (mmc : Mmc)
      → left < fuel
      → seg_pos + left ≡ bvec.bv_len
      → base + req + left < 2 ^ 41
      → Cached mmc
      → (mmc' : Mmc) × (copy_segment fuel r bvec base seg_pos req mmc ≡ some (req + left, mmc'))
        × Moved r (seg_addr bvec + seg_pos) (base + req) left mmc mmc'
  segment_loop zero seg_pos req left mmc lt e la c = absurd (omega arith)
  segment_loop (suc fuel) seg_pos req zero mmc lt e la c = (
    mmc,
    segment-done fuel seg_pos req mmc (omega arith)
        ∙ ap (λ (k : ℕ). some (k, mmc)) (sym (add-zero req)),
    Moved-zero r (seg_addr bvec + seg_pos) (base + req) mmc c,
  )
  segment_loop (suc fuel) seg_pos req (suc left) mmc lt e la c =
      let addr : u64 (base + req) ≡ base + req = omega arith in
      let n = (copy_chunk r bvec seg_pos (base + req) mmc).0 in
      let mid = (copy_chunk r bvec seg_pos (base + req) mmc).1 in
      let (pos, le, first) =
        copy_chunk_lem r bvec seg_pos (base + req) mmc fits (omega arith) (omega arith) c in
      let fit_pos : u32 (seg_pos + n) ≡ seg_pos + n = omega arith in
      let fit_req : u64 (req + n) ≡ req + n = omega arith in
      let same : req + n + (suc left - n) ≡ req + suc left = omega arith in
      let (mmc', returns, rest) =
        segment_loop fuel (seg_pos + n) (req + n) (suc left - n) mid (omega arith) (omega arith)
          (omega arith) first.keeps.cached in
      (
        mmc',
        segment_step fuel seg_pos req n mmc mid (omega arith)
              (ap (λ (a : ℕ). copy_chunk r bvec seg_pos a mmc) addr)
            ∙ ap₂ (λ (s q : ℕ). copy_segment fuel r bvec base s q mid) fit_pos fit_req
            ∙ returns
            ∙ ap (λ (k : ℕ). some (k, mmc')) same,
        Moved-cong r mmc mmc' refl refl (omega arith) (
            Moved-trans r (seg_addr bvec + seg_pos) (base + req) n (suc left - n) mmc mid mmc' first
              (Moved-cong r mid mmc' (omega arith) (omega arith) refl rest)),
      )

  -- A segment whose offset does not wrap, with a place inside the controller's 2 TiB and a coherent
  -- page cache, is moved whole: the loop ends with the position after it, and memory and card are as
  -- after one flat transfer.
  pub copy_segment_lem :
      (req : ℕ) (mmc : Mmc)
      → base + req + bvec.bv_len < 2 ^ 41
      → Cached mmc
      → (mmc' : Mmc) × (copy_segment (suc bvec.bv_len) r bvec base 0 req mmc
          ≡ some (req + bvec.bv_len, mmc'))
        × Moved r (seg_addr bvec) (base + req) bvec.bv_len mmc mmc'
  copy_segment_lem req mmc la c =
      let (mmc', returns, m) =
        segment_loop (suc bvec.bv_len) 0 req bvec.bv_len mmc (omega arith) (omega arith) la c in
      (mmc', returns, Moved-cong r mmc mmc' (omega arith) refl refl m)
