-- ===== src/NetDriver/Tx/Queue.antt =====
-- The transmit ring as a queue of frames, oldest first: what the device finds between its start
-- position and the driver's end position.
use native.Mathlib.Nat.{
  mod-eq_of_lt, pow-suc, add_assoc, add-zero, mod-add-mod, mod-eq-sub-mod, add-mod_right,
}
use rvcomp.Base.{
  ℕ, zero, suc, ◌+◌, ◌-◌, ◌/◌, ◌%◌, ◌^◌, ◌≤◌, ◌<◌, ◌≡◌, sym, ap, ◌∙◌, List, [], ◌∷◌, ◌++◌, arith,
  length, get_or, Memory, u32, sub32,
}
use rvcomp.NetDriver.Tx.Fill.{slot}
use rvcomp.NetDriver.Tx.Ring.{byte_at}
use rvcomp.Bits.{bit_and_mask, bit_and-not_3}
use native.Mathlib.Decide.{dec_lt}
use rvcomp.NetDriver.State.{Eth, wrap_to, reg_tx_buffer_start, reg_tx_buffer_end, csr_read}
use rvcomp.NetDriver.Tx.{tx_pointer, free_space}

-- A buffer size that rvcomp_validate_buf_size accepts.
pub record IsBufSize (size : ℕ) : Type 0 where
  pub log2 : ℕ
  pub is_power : size ≡ 2 ^ log2
  pub lower : 2048 ≤ size
  pub upper : size ≤ 2 ^ 26

pow_mod_4 : (k : ℕ) → 2 ≤ 2 ^ k / 2 → 2 ^ k % 4 ≡ 0
pow_mod_4 zero h = absurd (omega arith)
pow_mod_4 (suc zero) h = absurd (omega arith)
pow_mod_4 (suc (suc k)) h = omega (arith, pow-suc 2 (suc k), pow-suc 2 k)

pub IsBufSize-aligned : {size : ℕ} → IsBufSize size → size % 4 ≡ 0
IsBufSize-aligned v = rw v.is_power (pow_mod_4 v.log2 (omega (arith, v.is_power, v.lower)))

-- Masking with the size less one is the remainder by the size.
pub wrap_to_lem : (x : ℕ) {size : ℕ} → IsBufSize size → wrap_to x size ≡ x % size
wrap_to_lem x {size} v =
    let less : sub32 size 1 ≡ 2 ^ v.log2 - 1 = omega (arith, v.is_power, v.lower, v.upper) in
    rw (less, bit_and_mask v.log2 x) (ap (λ (k : ℕ). x % k) (sym v.is_power))

-- A record at `pos`: the header word with the length, then the bytes of the frame.
pub record RecordAt (m : Memory) (size pos : ℕ) (frame : List ℕ) : Type 0 where
  pub header : m (pos % size) ≡ length frame
  pub payload : (j : ℕ) → j < length frame → byte_at m ((pos + 4 + j) % size) ≡ get_or frame j 0

-- The records of `frames`, one behind the other from `pos` on.
abbrev pub Holds : Memory → ℕ → ℕ → List (List ℕ) → Type 0
Holds m size pos [] = Unit {0}
Holds m size pos (f ∷ fs) = RecordAt m size pos f × Holds m size (pos + slot (length f)) fs

abbrev pub total : List (List ℕ) → ℕ
total [] = 0
total (f ∷ fs) = slot (length f) + total fs

-- A well formed ring that holds `frames` between `start` and `end`.
pub record TxQueue (size start end : ℕ) (m : Memory) (frames : List (List ℕ)) : Type 0 where
  pub buf_size : IsBufSize size
  pub start_in : start < size
  pub start_aligned : start % 4 ≡ 0
  pub end_at : end ≡ (start + total frames) % size
  pub room : total frames + 4 ≤ size
  pub held : Holds m size start frames

-- The transmit ring of `eth` is well formed and holds `frames`.
abbrev pub TxRing : Eth → List (List ℕ) → Type 0
TxRing eth frames =
    TxQueue eth.txbuf_size (csr_read eth reg_tx_buffer_start) (csr_read eth reg_tx_buffer_end)
      eth.txbuf frames

pub total-aligned : (fs : List (List ℕ)) → total fs % 4 ≡ 0
total-aligned [] = omega arith
total-aligned (f ∷ fs) = omega (arith, total-aligned fs)

pub total-append : (fs gs : List (List ℕ)) → total (fs ++ gs) ≡ total fs + total gs
total-append [] gs = omega arith
total-append (f ∷ fs) gs = omega (arith, total-append fs gs)

-- An aligned register below the size is read as it is.
pub tx_pointer_lem :
    (eth : Eth) (reg : ℕ)
    → IsBufSize eth.txbuf_size
    → csr_read eth reg < eth.txbuf_size
    → csr_read eth reg % 4 ≡ 0
    → tx_pointer eth reg ≡ csr_read eth reg
tx_pointer_lem eth reg v lt al =
    rw (wrap_to_lem (csr_read eth reg) v, mod-eq_of_lt lt)
      (omega (arith, bit_and-not_3 (csr_read eth reg) (omega (arith, v.upper))))

-- The free space that the driver computes is what the pending records leave, less one word.
pub free_space_lem :
    (size start used : ℕ)
    → size ≤ 2 ^ 26
    → start < size
    → used + 4 ≤ size
    → free_space size start ((start + used) % size) + used + 4 ≡ size
free_space_lem size start used up lt room = elim (dec_lt (start + used) size) [
  | yes p ↦
      let x : (start + used) % size ≡ start + used = mod-eq_of_lt p in
      let inner : u32 (sub32 ((start + used) % size) start + size) ≡ used + size =
        omega (arith, x) in
      rw (inner, add-mod_right used size, mod-eq_of_lt {n = used} {m = size} (omega arith))
        (omega arith)
  | no p ↦
      let x : (start + used) % size ≡ start + used - size =
        mod-eq-sub-mod {n = start + used} {m = size} (omega arith)
        ∙ mod-eq_of_lt {n = start + used - size} {m = size} (omega arith) in
      let inner : u32 (sub32 ((start + used) % size) start + size) ≡ used = omega (arith, x) in
      rw (inner, mod-eq_of_lt {n = used} {m = size} (omega arith)) (omega arith)
]

mod-cong : (size a b c : ℕ) → a % size ≡ b % size → (a + c) % size ≡ (b + c) % size
mod-cong size a b c e =
    sym (mod-add-mod a size c) ∙ ap (λ (k : ℕ). (k + c) % size) e ∙ mod-add-mod b size c

-- Records behind one another are at the same place when the first is reduced round the ring.
pub Holds-mod :
    (m : Memory) (size pos pos' : ℕ) (fs : List (List ℕ))
    → pos % size ≡ pos' % size
    → Holds m size pos fs
    → Holds m size pos' fs
Holds-mod m size pos pos' [] e h = tt
Holds-mod m size pos pos' (f ∷ fs) e (r, h) = (
  record { header = rw (← e) r.header; payload = λ j lt. rw (← add-cong 4 j) (r.payload j lt) },
  Holds-mod m size (pos + slot (length f)) (pos' + slot (length f)) fs
      (mod-cong size pos pos' (slot (length f)) e) h,
)
  where
    add-cong : (a b : ℕ) → (pos + a + b) % size ≡ (pos' + a + b) % size
    add-cong a b = mod-cong size (pos + a) (pos' + a) b (mod-cong size pos pos' a e)

pub Holds-append :
    (m : Memory) (size pos : ℕ) (fs gs : List (List ℕ))
    → Holds m size pos fs
    → Holds m size (pos + total fs) gs
    → Holds m size pos (fs ++ gs)
Holds-append m size pos [] gs h k = rw add-zero at k
Holds-append m size pos (f ∷ fs) gs (r, h) k =
    (r, Holds-append m size (pos + slot (length f)) fs gs h (rw add_assoc k))
