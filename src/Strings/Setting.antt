-- ===== src/Strings/Setting.antt =====
-- memset fills an area with one byte whichever loop it takes.
use native.Mathlib.Nat.{mul-suc, zero-add, add-zero}
use rvcomp.Strings.Copying.{or_aligned}
use rvcomp.Strings.{store, set_loop, spread, memset}
use rvcomp.Bits.{bit_and_mask, bit_or_above}
use rvcomp.Base.{
  ℕ, zero, suc, ◌+◌, ◌-◌, ◌*◌, ◌/◌, ◌%◌, ◌^◌, ◌<◌, bit_and, bit_or, ◌≡◌, ap, ◌∙◌, fun_ext, inl, inr,
  ◌&&◌, some, arith, ltb, leb, ◌==◌, if◌then◌else◌, ltb-true, ltb-false, Bool-cases, Memory, u32,
}

-- `n` bytes `v` from address `a` on.
abbrev pub filled : Memory → ℕ → ℕ → ℕ → Memory
filled m a n v = λ q. if leb a q && ltb q (a + n) then v else m q

module _ (m : Memory) (size d total word v : ℕ) (pos : 0 < size)
    (same : (i : ℕ) → i < size → word / 256 ^ i % 256 ≡ v) (fits : d + total + size < 2 ^ 32) where
  store_on :
      (done : ℕ) → store (filled m d done v) (d + done) word size ≡ filled m d (done + size) v
  store_on done = fun_ext λ q. go q
    where
      go : (q : ℕ) → store (filled m d done v) (d + done) word size q ≡ filled m d (done + size) v q
      go q = ground (arith, same (q - (d + done)))

  set_loop_lem :
      (fuel left done : ℕ)
      → left < fuel
      → done + size * left ≡ total
      → set_loop fuel size (d + done) (d + total) word (filled m d done v)
        ≡ some (filled m d total v)
  unfolding set_loop
  set_loop_lem zero left done lt e = absurd (omega arith)
  set_loop_lem (suc fuel) zero done lt e =
      let all : done ≡ total = omega arith in
      rw (ltb-false (d + done) (d + total) (omega arith), set_loop)
        (ap (λ (n : ℕ). some (filled m d n v)) all)
  set_loop_lem (suc fuel) (suc left) done lt e =
      let more : size * suc left ≡ size * left + size = mul-suc size left in
      let next : u32 (d + done + size) ≡ d + (done + size) = omega arith in
      rw (ltb-true (d + done) (d + total) (omega arith), set_loop)
        (rw (next, store_on done)
          (set_loop_lem fuel left (done + size) (omega arith) (omega arith)))

  filled_nothing : filled m d 0 v ≡ m
  filled_nothing = fun_ext λ q. go q
    where
      go : (q : ℕ) → filled m d 0 v q ≡ m q
      go q = ground arith

  fill_area :
      (fuel left : ℕ)
      → left < fuel
      → size * left ≡ total
      → set_loop fuel size d (d + total) word m ≡ some (filled m d total v)
  fill_area fuel left lt e =
      rw (add-zero d, filled_nothing) at (set_loop_lem fuel left 0 lt (zero-add (size * left) ∙ e))

-- The masks and shifts give four times the low byte.
spread_lem : (byte : ℕ) → spread byte ≡ byte % 256 * 0x1010101
unfolding spread
spread_lem byte =
    let low : bit_and byte 0xff ≡ byte % 256 = bit_and_mask 8 byte in
    let shift : u32 (byte % 256 * 2 ^ 8) ≡ byte % 256 * 2 ^ 8 = omega arith in
    let two : bit_or (byte % 256) (byte % 256 * 2 ^ 8) ≡ byte % 256 * 257 =
      bit_or_above 8 (byte % 256) (byte % 256) (omega arith) ∙ omega arith in
    let shift2 : u32 (byte % 256 * 257 * 2 ^ 16) ≡ byte % 256 * 257 * 2 ^ 16 = omega arith in
    let four : bit_or (byte % 256 * 257) (byte % 256 * 257 * 2 ^ 16) ≡ byte % 256 * 0x1010101 =
      bit_or_above 16 (byte % 256 * 257) (byte % 256 * 257) (omega arith) ∙ omega arith in
    let gone : u32 (u32 (byte % 256 * 0x1010101 * 2 ^ 16) * 2 ^ 16) ≡ 0 * 2 ^ 32 = omega arith in
    let last : bit_or (byte % 256 * 0x1010101) (0 * 2 ^ 32) ≡ byte % 256 * 0x1010101 =
      bit_or_above 32 (byte % 256 * 0x1010101) 0 (omega arith) ∙ omega arith in
    rw (low, shift, two, shift2, four, gone) last

spread_byte : (byte i : ℕ) → i < 4 → byte % 256 * 0x1010101 / 256 ^ i % 256 ≡ byte % 256
spread_byte byte zero lt = omega arith
spread_byte byte (suc zero) lt = omega arith
spread_byte byte (suc (suc zero)) lt = omega arith
spread_byte byte (suc (suc (suc zero))) lt = omega arith
spread_byte byte (suc (suc (suc (suc i)))) lt = absurd (omega arith)

single_byte : (byte i : ℕ) → i < 1 → byte / 256 ^ i % 256 ≡ byte % 256
single_byte byte zero lt = omega arith
single_byte byte (suc i) lt = absurd (omega arith)

-- In an area that ends below the last word of the address space, memset stores the low byte of its
-- argument at every place, by words or by characters, ends, and changes nothing else.
pub memset_lem :
    (dest byte len : ℕ) (m : Memory)
    → dest + len + 4 < 2 ^ 32
    → memset dest byte len m ≡ some (filled m dest len (byte % 256))
unfolding memset
memset_lem dest byte len m fits =
    let whole : u32 (dest + len) ≡ dest + len = omega arith in
    elim (Bool-cases (bit_and (bit_or dest len) 3 == 0)) [
      | inl t ↦
          let al : len % 4 ≡ 0 = or_aligned dest len (ground arith) in
          rw (t, whole, spread_lem byte)
            (fill_area m 4 dest len (byte % 256 * 0x1010101) (byte % 256) (omega arith)
              (spread_byte byte) fits (suc len) (len / 4) (omega arith) (omega arith))
      | inr f ↦
          rw (f, whole)
            (fill_area m 1 dest len byte (byte % 256) (omega arith) (single_byte byte) (omega arith)
              (suc len) len (omega arith) (omega arith))
    ]
