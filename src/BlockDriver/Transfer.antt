-- ===== src/BlockDriver/Transfer.antt =====
-- What selecting a page of the card does, and what a step of a transfer leaves alone.
use rvcomp.Base.{
  ℕ, ◌/◌, ◌^◌, ◌<◌, bit_and, ◌≡◌, refl, sym, ap, ◌∙◌, inl, inr, true, ◌&&◌, List, [], ◌∷◌, ◌++◌,
  append_assoc, arith, ◌==◌, Bool-cases, u32, ◌>>>◌,
}
use rvcomp.Bits.{bit_and_mask}
use rvcomp.BlockDriver.{Mmc, Call, write_reg, select_addr29, mmc_csr_addr29}

-- The cached page number, when it is valid, is the one in the register.
abbrev pub Cached : Mmc → Type 0
Cached mmc = mmc.addr29_valid ≡ true → mmc.csr mmc_csr_addr29 ≡ mmc.addr29_cached

-- Only the page register is written.
abbrev pub PageWrites : List Call → Type 0
PageWrites [] = Unit {0}
PageWrites (write_reg reg val ∷ log) = (reg ≡ mmc_csr_addr29) × PageWrites log
PageWrites (c ∷ log) = ⊥

pub PageWrites-append : (l k : List Call) → PageWrites l → PageWrites k → PageWrites (l ++ k)
PageWrites-append [] k h g = g
PageWrites-append (write_reg reg val ∷ l) k h g = (h.0, PageWrites-append l k h.1 g)
PageWrites-append (c ∷ l) k h g = absurd h

-- What a step of a transfer leaves alone.
pub record Keeps (mmc mmc' : Mmc) : Type 0 where
  pub cached : Cached mmc'
  pub same_offset : mmc'.rootfs_offset ≡ mmc.rootfs_offset
  pub writes : List Call
  pub page_writes : PageWrites writes
  pub logged : mmc'.log ≡ writes ++ mmc.log

pub Keeps-refl : (mmc : Mmc) → Cached mmc → Keeps mmc mmc
Keeps-refl mmc c = record {
  cached = c;
  same_offset = refl;
  writes = [];
  page_writes = tt;
  logged = refl;
}

pub Keeps-trans : {a b c : Mmc} → Keeps a b → Keeps b c → Keeps a c
Keeps-trans {a} h k = record {
  cached = k.cached;
  same_offset = k.same_offset ∙ h.same_offset;
  writes = k.writes ++ h.writes;
  page_writes = PageWrites-append k.writes h.writes k.page_writes h.page_writes;
  logged =
      k.logged
      ∙ ap (λ (l : List Call). k.writes ++ l) h.logged
      ∙ sym (append_assoc k.writes h.writes a.log);
}

page_number :
    (byte_addr : ℕ)
    → byte_addr < 2 ^ 41
    → u32 (bit_and (byte_addr >>> 12) 0x1fffffff) ≡ byte_addr / 4096
page_number a h = omega (arith, bit_and_mask 29 (a / 4096))

-- Selecting shows the page of the address in the window.
pub record Selected (byte_addr : ℕ) (mmc mmc' : Mmc) : Type 0 where
  pub page : mmc'.csr mmc_csr_addr29 ≡ byte_addr / 4096
  pub same_card : mmc'.card ≡ mmc.card
  pub same_mem : mmc'.mem ≡ mmc.mem
  pub keeps : Keeps mmc mmc'

pub select_addr29_lem :
    (byte_addr : ℕ) (mmc : Mmc)
    → byte_addr < 2 ^ 41
    → Cached mmc
    → Selected byte_addr mmc (select_addr29 byte_addr mmc)
unfolding select_addr29
select_addr29_lem a mmc lt c =
    elim (Bool-cases
      (mmc.addr29_valid && mmc.addr29_cached == u32 (bit_and (a >>> 12) 0x1fffffff))) [
        | inl hit ↦ rw hit (record {
          page = ground (arith, page_number a lt, c);
          same_card = refl;
          same_mem = refl;
          keeps = record {
            cached = c;
            same_offset = refl;
            writes = [];
            page_writes = tt;
            logged = refl;
          };
        })
        | inr miss ↦ rw miss (record {
          page = page_number a lt;
          same_card = refl;
          same_mem = refl;
          keeps = record {
            cached = λ _. refl;
            same_offset = refl;
            writes = write_reg 0 (u32 (bit_and (a >>> 12) 0x1fffffff)) ∷ [];
            page_writes = (refl, tt);
            logged = refl;
          };
        })
      ]
