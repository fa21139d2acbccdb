-- ===== src/Bootrom/Ether/Record.antt =====
-- The record that ether_tx_enqueue_one writes for a frame at the start of data.
use mathlib.Core.Option
use rvcomp.Base.{
  ℕ, zero, suc, ◌+◌, ◌-◌, ◌*◌, ◌/◌, ◌%◌, ◌^◌, ◌≤◌, ◌<◌, ◌≡◌, refl, sym, ap, ◌∙◌, fun_ext, inl, inr,
  some, List, [], ◌∷◌, ◌++◌, arith, ltb, if◌then◌else◌, Bool-cases, length, get_or, take, drop,
  Memory, u8,
}
use rvcomp.Bootrom.Ether.Transfer.{ether_mtu}
use rvcomp.Bootrom.Ether.{
  ether_txbuf_size, ether_gather, ether_fill, ether_tx_enqueue_one, words_of,
  ether_tx_enqueue_one_lem, words,
}
use rvcomp.NetDriver.Tx.Queue.{RecordAt}
use rvcomp.NetDriver.Tx.Fill.{IsBytes, record_len, tx_enqueue_one_lem}
use rvcomp.NetDriver.Tx.Enqueue.{padded, enqueued, enqueued_outside, enqueued-RecordAt}

-- The words of the transmit buffer by byte offset.
abbrev pub by_offset : Memory → Memory
by_offset txbuf a = txbuf (a / 4)

-- The record of a frame is in the buffer, and the words outside it are kept.
pub record Stored (f : List ℕ) (pos : ℕ) (txbuf txbuf' : Memory) : Type 0 where
  pub stored_record : RecordAt (by_offset txbuf') ether_txbuf_size pos (padded f)
  pub kept :
      (d : ℕ)
      → d % 4 ≡ 0
      → record_len (length f) ≤ d
      → d < ether_txbuf_size
      → txbuf' ((pos + d) % ether_txbuf_size / 4) ≡ txbuf ((pos + d) % ether_txbuf_size / 4)

pub take-drop : (n : ℕ) (xs : List ℕ) → take n xs ++ drop n xs ≡ xs
take-drop zero xs = refl
take-drop (suc n) [] = refl
take-drop (suc n) (x ∷ xs) = ap (λ (l : List ℕ). x ∷ l) (take-drop n xs)

pub length-take : (n : ℕ) (xs : List ℕ) → n ≤ length xs → length (take n xs) ≡ n
length-take zero xs le = refl
length-take (suc n) [] le = absurd (omega arith)
length-take (suc n) (x ∷ xs) le = ap suc (length-take n xs (omega arith))

pub length-drop : (n : ℕ) (xs : List ℕ) → length (drop n xs) ≡ length xs - n
length-drop zero xs = omega arith
length-drop (suc n) [] = omega arith
length-drop (suc n) (x ∷ xs) = omega (arith, length-drop n xs)

get_or-take : (n i : ℕ) (xs : List ℕ) → i < n → get_or (take n xs) i 0 ≡ get_or xs i 0
get_or-take zero i xs lt = absurd (omega arith)
get_or-take (suc n) i [] lt = refl
get_or-take (suc n) zero (x ∷ xs) lt = refl
get_or-take (suc n) (suc i) (x ∷ xs) lt = get_or-take n i xs (omega arith)

pub take-IsBytes : (n : ℕ) (xs : List ℕ) → IsBytes xs → IsBytes (take n xs)
take-IsBytes zero xs h i = omega arith
take-IsBytes (suc n) [] h i = omega arith
take-IsBytes (suc n) (x ∷ xs) h zero = h 0
take-IsBytes (suc n) (x ∷ xs) h (suc i) = take-IsBytes n xs (λ j. h (suc j)) i

pub drop-IsBytes : (n : ℕ) (xs : List ℕ) → IsBytes xs → IsBytes (drop n xs)
drop-IsBytes zero xs h = h
drop-IsBytes (suc n) [] h = h
drop-IsBytes (suc n) (x ∷ xs) h = drop-IsBytes n xs (λ j. h (suc j))

-- Only the bytes of the frame are read.
gather-take :
    (bytes : List ℕ) (n left i idx word : ℕ)
    → ether_gather (take n bytes) n left i idx word ≡ ether_gather bytes n left i idx word
unfolding ether_gather
gather-take bytes n zero i idx word = refl
gather-take bytes n (suc left) i idx word =
    let byte : (if ltb idx n then u8 (get_or (take n bytes) idx 0) else 0)
        ≡ (if ltb idx n then u8 (get_or bytes idx 0) else 0) =
      ground (arith, get_or-take n idx bytes) in
    rw byte (gather-take bytes n left (i + 1) _ _)

fill-take :
    (fuel n aligned idx pos : ℕ) (bytes : List ℕ) (txbuf : Memory)
    → ether_fill fuel (take n bytes) n aligned idx pos txbuf
      ≡ ether_fill fuel bytes n aligned idx pos txbuf
unfolding ether_fill
fill-take zero n aligned idx pos bytes txbuf = refl
fill-take (suc fuel) n aligned idx pos bytes txbuf = elim (Bool-cases (ltb idx aligned)) [
  | inr f ↦ rw (f, ether_fill) refl
  | inl t ↦
      rw (t, ether_fill) (rw (gather-take bytes n 4 0 idx 0) (fill-take fuel n aligned _ _ bytes _))
]

pub enqueue-take :
    (n end : ℕ) (bytes : List ℕ) (txbuf : Memory)
    → ether_tx_enqueue_one (take n bytes) n end txbuf ≡ ether_tx_enqueue_one bytes n end txbuf
unfolding ether_tx_enqueue_one
enqueue-take n end bytes txbuf = fill-take _ n _ 0 _ bytes _

words-by_offset : (txbuf : Memory) → words (by_offset txbuf) ≡ txbuf
words-by_offset txbuf = fun_ext λ q. go q
  where
    go : (q : ℕ) → words (by_offset txbuf) q ≡ txbuf q
    go q = let at : q * 4 / 4 ≡ q = omega arith in ap txbuf at

-- The record of a frame, written from an aligned position of the buffer.
pub enqueue_lem :
    (f : List ℕ) (pos : ℕ) (txbuf : Memory)
    → IsBytes f
    → length f ≤ ether_mtu
    → pos < ether_txbuf_size
    → pos % 4 ≡ 0
    → (txbuf' : Memory) × (ether_tx_enqueue_one f (length f) pos txbuf
        ≡ some ((pos + record_len (length f)) % ether_txbuf_size, txbuf'))
      × Stored f pos txbuf txbuf'
enqueue_lem f pos txbuf h le lt al =
    let m = enqueued ether_txbuf_size pos f (by_offset txbuf) in
    let fits : record_len (length f) + 4 ≤ ether_txbuf_size = ground arith in
    (
      words m,
      ap (λ (t : Memory). ether_tx_enqueue_one f (length f) pos t) (sym (words-by_offset txbuf))
          ∙ ether_tx_enqueue_one_lem f (length f) pos (by_offset txbuf) h al
          ∙ ap (Option.map words_of) (
              tx_enqueue_one_lem ether_txbuf_size (length f) pos f (by_offset txbuf) (omega arith) h
                (omega arith) lt),
      record {
        stored_record =
            at_words m
              (enqueued-RecordAt ether_txbuf_size pos f (by_offset txbuf) refl lt fits h al);
        kept = λ d al_d le_d lt_d.
            let at : (pos + d) % ether_txbuf_size / 4 * 4 ≡ (pos + d) % ether_txbuf_size =
              omega arith in
            ap m at
            ∙ enqueued_outside ether_txbuf_size pos f (by_offset txbuf) refl lt fits d le_d lt_d;
      },
    )
  where
    at_words :
        (m : Memory)
        → RecordAt m ether_txbuf_size pos (padded f)
        → RecordAt (by_offset (words m)) ether_txbuf_size pos (padded f)
    at_words m r = record {
      header =
          let at : pos % ether_txbuf_size / 4 * 4 ≡ pos % ether_txbuf_size = omega arith in
          ap m at ∙ r.header;
      payload = λ j lt_j.
          let a : ℕ = (pos + 4 + j) % ether_txbuf_size in
          let at : a / 4 * 4 / 4 * 4 ≡ a / 4 * 4 = omega arith in
          ap (λ (x : ℕ). m x / 256 ^ (a % 4) % 256) at ∙ r.payload j lt_j;
    }
