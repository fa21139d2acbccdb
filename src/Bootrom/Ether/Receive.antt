-- ===== src/Bootrom/Ether/Receive.antt =====
-- ether_rx takes the bytes of the receive ring in order, across its end.
use mathlib.Core.Option
use native.Mathlib.Decide.{dec_lt}
use rvcomp.Base.{
  ℕ, zero, suc, ◌+◌, ◌-◌, ◌*◌, ◌/◌, ◌%◌, ◌^◌, ◌≤◌, ◌<◌, min, bit_and, ◌≡◌, refl, sym, ap, ◌∙◌, ◌≢◌,
  inl, inr, true, false, some, List, [], ◌∷◌, ◌++◌, arith, ltb, leb, ◌==◌, if◌then◌else◌, leb-true,
  Bool-cases, length, get_or, length-append, get_or-append_left, Memory, u32, sub32, ◌>>>◌, not_3,
}
use native.Mathlib.Nat.{div-div-eq-div-mul, mul_comm, pow-suc, zero-add}
use rvcomp.Bits.{bit_and_mask, bit_and-not_3}
use rvcomp.Bootrom.Ether.Transfer.{ether_rxbuf_size, take_bytes, read_words, ether_mtu, ether_rx}

-- The byte at a place of the receive ring, which holds words.
abbrev pub ring_byte : Memory → ℕ → ℕ
ring_byte rxbuf at = rxbuf (at % ether_rxbuf_size / 4) / 256 ^ (at % 4) % 256

inside :
    (left len word b : ℕ)
    → b < len
    → (first : ℕ) (rest : List ℕ) → first ≡ word % 256
    → (length rest ≡ min left (len - (b + 1)))
      × ((j : ℕ) → j < min left (len - (b + 1)) → get_or rest j 0 ≡ (word >>> 8) / 256 ^ j % 256)
    → (length (first ∷ rest) ≡ min (suc left) (len - b))
      × ((j : ℕ) → j < min (suc left) (len - b) → get_or (first ∷ rest) j 0 ≡ word / 256 ^ j % 256)
inside left len word b more first rest low (count, bytes) = (omega (arith, count), go)
  where
    go : (j : ℕ) → j < min (suc left) (len - b) → get_or (first ∷ rest) j 0 ≡ word / 256 ^ j % 256
    go zero lt = omega (arith, low)
    go (suc j) lt =
        bytes j (omega arith)
        ∙ ap (λ (x : ℕ). x % 256)
            (div-div-eq-div-mul word 256 (256 ^ j)
              ∙ ap (λ (p : ℕ). word / p) (mul_comm 256 (256 ^ j) ∙ sym (pow-suc 256 j)))

take_bytes_lem :
    (left len word b : ℕ)
    → (length (take_bytes left len word b) ≡ min left (len - b))
      × ((j : ℕ)
          → j < min left (len - b)
          → get_or (take_bytes left len word b) j 0 ≡ word / 256 ^ j % 256)
take_bytes_lem zero len word b = (omega arith, λ j lt. absurd (omega arith))
take_bytes_lem (suc left) len word b = elim (Bool-cases (ltb b len)) [
  | inl t ↦
      let low : bit_and word 0xff ≡ word % 256 = bit_and_mask 8 word in
      rw t (
        inside left len word b (ground arith) (bit_and word 0xff)
          (take_bytes left len (word >>> 8) (b + 1)) low
          (take_bytes_lem left len (word >>> 8) (b + 1)))
  | inr f ↦
      let (count, bytes) = take_bytes_lem left len (word >>> 8) b in
      rw f (ground (arith, count), λ j lt. absurd (ground arith))
]

get_or-append_right :
    {A : Type 0} (xs ys : List A) (j : ℕ) (d : A)
    → get_or (xs ++ ys) (length xs + j) d ≡ get_or ys j d
get_or-append_right [] ys j d = ap (λ (i : ℕ). get_or ys i d) (zero-add j)
get_or-append_right (x ∷ xs) ys j d =
    let at : suc (length xs) + j ≡ suc (length xs + j) = omega arith in
    ap (λ (i : ℕ). get_or (x ∷ xs ++ ys) i d) at ∙ get_or-append_right xs ys j d

-- What the loop gives from the word at `idx` on, with `b` bytes read.
abbrev Rest : Memory → ℕ → ℕ → ℕ → List ℕ → Type 0
Rest rxbuf len idx b bytes =
    (length bytes ≡ len - b)
    × ((j : ℕ) → j < len - b → get_or bytes j 0 ≡ ring_byte rxbuf (4 * idx + j))

word_byte :
    (rxbuf : Memory) (idx j : ℕ)
    → idx < 4096
    → j < 4
    → rxbuf idx / 256 ^ j % 256 ≡ ring_byte rxbuf (4 * idx + j)
word_byte rxbuf idx j small lt =
    let word : (4 * idx + j) % ether_rxbuf_size / 4 ≡ idx = omega arith in
    let byte : (4 * idx + j) % 4 ≡ j = omega arith in rw (word, byte) refl

next_word :
    (rxbuf : Memory) (idx j : ℕ)
    → ring_byte rxbuf (4 * ((idx + 1) % 4096) + j) ≡ ring_byte rxbuf (4 * idx + (4 + j))
next_word rxbuf idx j =
    let word : (4 * ((idx + 1) % 4096) + j) % ether_rxbuf_size / 4
        ≡ (4 * idx + (4 + j)) % ether_rxbuf_size / 4 =
      omega arith in
    let byte : (4 * ((idx + 1) % 4096) + j) % 4 ≡ (4 * idx + (4 + j)) % 4 = omega arith in
    rw (word, byte) refl

-- Four bytes of a word, and those behind it.
four_more :
    (rxbuf : Memory) (len idx b : ℕ) (word rest : List ℕ)
    → idx < 4096
    → b + 4 < len
    → length word ≡ 4
    → ((j : ℕ) → j < 4 → get_or word j 0 ≡ rxbuf idx / 256 ^ j % 256)
    → Rest rxbuf len ((idx + 1) % 4096) (b + 4) rest
    → Rest rxbuf len idx b (word ++ rest)
four_more rxbuf len idx b word rest small more four here (count, bytes) =
    (omega (arith, length-append word rest, count, four), go)
  where
    go : (j : ℕ) → j < len - b → get_or (word ++ rest) j 0 ≡ ring_byte rxbuf (4 * idx + j)
    go j lt = elim (dec_lt j 4) [
      | yes low ↦
          get_or-append_left word rest j 0 (omega (arith, four))
          ∙ (here j low ∙ word_byte rxbuf idx j small low)
      | no high ↦
          let at : length word + (j - 4) ≡ j = omega (arith, four) in
          let back : 4 + (j - 4) ≡ j = omega arith in
          rw at at (get_or-append_right word rest (j - 4) 0)
          ∙ (bytes (j - 4) (omega arith)
              ∙ (next_word rxbuf idx (j - 4) ∙ ap (λ (k : ℕ). ring_byte rxbuf (4 * idx + k)) back))
    ]

read_words_lem :
    (fuel : ℕ) (rxbuf : Memory) (len idx b : ℕ)
    → len - b < fuel
    → b ≤ len
    → idx < 4096
    → (bytes : List ℕ) × (read_words fuel rxbuf len idx b ≡ some bytes) × Rest rxbuf len idx b bytes
unfolding read_words
read_words_lem zero rxbuf len idx b lt le small = absurd (omega arith)
read_words_lem (suc fuel) rxbuf len idx b lt le small =
    let word : List ℕ = take_bytes 4 len (rxbuf idx) b in
    let (count, here) = take_bytes_lem 4 len (rxbuf idx) b in
    elim (dec_lt (b + 4) len) [
      | yes more ↦
          let four : length (take_bytes 4 len (rxbuf idx) b) ≡ 4 = omega (arith, count) in
          let test : leb len (b + length (take_bytes 4 len (rxbuf idx) b)) ≡ false =
            rw four (ground arith) in
          let (rest, run, is_rest) =
            read_words_lem fuel rxbuf len ((idx + 1) % 4096) (b + 4) (omega arith) (omega arith)
              (omega arith) in
          (
            word ++ rest,
            rw (test, read_words)
                (ap (Option.map (λ (tail : List ℕ). word ++ tail)) (
                  ap (λ (k : ℕ). read_words fuel rxbuf len ((idx + 1) % 4096) (b + k)) four ∙ run)),
            four_more rxbuf len idx b word rest small more four (λ j low. here j (omega arith))
                is_rest,
          )
      | no last ↦
          let all : length (take_bytes 4 len (rxbuf idx) b) ≡ len - b = omega (arith, count) in
          let test : leb len (b + length (take_bytes 4 len (rxbuf idx) b)) ≡ true =
            leb-true len (b + length (take_bytes 4 len (rxbuf idx) b)) (omega (arith, all)) in
          (
            word,
            rw (test, read_words) refl,
            (all, λ j less. here j (omega arith) ∙ word_byte rxbuf idx j small (omega arith)),
          )
    ]

len_lem :
    (from end : ℕ)
    → from < ether_rxbuf_size
    → end < ether_rxbuf_size
    → let size =
        if ltb end from then u32 (end + ether_rxbuf_size + (2 ^ 32 - from)) else sub32 end from in
      (if ltb ether_mtu size then ether_mtu else size)
      ≡ min ether_mtu ((end + ether_rxbuf_size - from) % ether_rxbuf_size)
len_lem from end small_from small_end = elim (Bool-cases (ltb end from)) [
  | inl t ↦
      let wrapped : u32 (end + ether_rxbuf_size + (2 ^ 32 - from))
          ≡ (end + ether_rxbuf_size - from) % ether_rxbuf_size =
        ground arith in
      rw (t, wrapped) (at_most ((end + ether_rxbuf_size - from) % ether_rxbuf_size))
  | inr f ↦
      let straight : sub32 end from ≡ (end + ether_rxbuf_size - from) % ether_rxbuf_size =
        ground arith in
      rw (f, straight) (at_most ((end + ether_rxbuf_size - from) % ether_rxbuf_size))
]
  where
    at_most : (size : ℕ) → (if ltb ether_mtu size then ether_mtu else size) ≡ min ether_mtu size
    at_most size = ground arith

-- ether_rx for the start `from`, rounded up, and the length `len`.
ether_rx_at :
    (rxbuf : Memory) (start end from len : ℕ) (bytes : List ℕ)
    → (start == end) ≡ false
    → bit_and (u32 (start + 3) % ether_rxbuf_size) not_3 ≡ from
    → (let size =
          if ltb end from then u32 (end + ether_rxbuf_size + (2 ^ 32 - from)) else sub32 end from in
        if ltb ether_mtu size then ether_mtu else size)
      ≡ len
    → u32 (from + len) % ether_rxbuf_size ≡ (from + len) % ether_rxbuf_size
    → read_words (suc len) rxbuf len (from / 4) 0 ≡ some bytes
    → ether_rx rxbuf start end ≡ some (len, bytes, some ((from + len) % ether_rxbuf_size))
unfolding ether_rx
ether_rx_at rxbuf start end from len bytes different from_is len_is next run =
    rw (different, from_is, len_is, next, run) refl

-- For a start and an end below 16 KiB that differ, ether_rx ends and puts the packet's bytes into the
-- buffer in the ring's order, across its end: from the start rounded up to a word, as many as there
-- are to the end but no more than 1514, and moves the start behind them.
pub ether_rx_lem :
    (rxbuf : Memory) (start end : ℕ)
    → start < ether_rxbuf_size
    → end < ether_rxbuf_size
    → start ≢ end
    → let from = (start + 3) / 4 * 4 % ether_rxbuf_size in
      let len = min ether_mtu ((end + ether_rxbuf_size - from) % ether_rxbuf_size) in
      (bytes : List ℕ) × (ether_rx rxbuf start end
        ≡ some (len, bytes, some ((from + len) % ether_rxbuf_size)))
      × (length bytes ≡ len)
      × ((j : ℕ) → j < len → get_or bytes j 0 ≡ ring_byte rxbuf (from + j))
ether_rx_lem rxbuf start end small_start small_end ne =
    let from : ℕ = (start + 3) / 4 * 4 % ether_rxbuf_size in
    let len : ℕ = min ether_mtu ((end + ether_rxbuf_size - from) % ether_rxbuf_size) in
    let different : (start == end) ≡ false = ground arith in
    let from_is : bit_and (u32 (start + 3) % ether_rxbuf_size) not_3 ≡ from =
      bit_and-not_3 (u32 (start + 3) % ether_rxbuf_size) (omega arith) ∙ omega arith in
    let len_is = len_lem from end (omega arith) small_end in
    let next : u32 (from + len) % ether_rxbuf_size ≡ (from + len) % ether_rxbuf_size =
      omega arith in
    let (bytes, run, (count, each)) =
      read_words_lem (suc len) rxbuf len (from / 4) 0 (omega arith) (omega arith) (omega arith) in
    let place_is : 4 * (from / 4) ≡ from = omega arith in
    (
      bytes,
      ether_rx_at rxbuf start end from len bytes different from_is len_is next run,
      omega (arith, count),
      λ j lt. rw place_is at (each j (omega arith)),
    )
