-- ===== src/NetDriver/Tx/Enqueue.antt =====
-- rvcomp_tx_enqueue_one adds one record behind the pending ones and leaves those alone.
use native.Mathlib.Nat.{mod-eq_of_lt, mod-lt, mod-add-mod, add_assoc, add-mod_right}
use rvcomp.Base.{
  ℕ, zero, suc, ◌+◌, ◌-◌, ◌*◌, ◌/◌, ◌%◌, ◌^◌, ◌≤◌, ◌<◌, ◌≡◌, refl, sym, ap, ◌∙◌, List, [], ◌∷◌,
  ◌++◌, arith, length, get_or, replicate, length-append, length-replicate, get_or-past, Memory,
  update, update_self, update_ne,
}
use rvcomp.NetDriver.Tx.Queue.{RecordAt, Holds}
use rvcomp.NetDriver.Tx.Ring.{
  byte_at, ring_ne, byte_at-ring, payload_word_byte, written_outside, written_inside,
}
use rvcomp.NetDriver.State.{pad_len}
use rvcomp.NetDriver.Tx.{payload_byte}
use rvcomp.NetDriver.Tx.Queue.{total}
use rvcomp.NetDriver.Tx.Fill.{written, payload_word, IsBytes, record_len, payload_words, slot}

-- The frame as it is sent: zeros up to the least size of an Ethernet frame.
abbrev pub padded : List ℕ → List ℕ
padded skb = skb ++ replicate (60 - length skb) 0

pub length-padded : (skb : List ℕ) → length (padded skb) ≡ pad_len (length skb)
length-padded skb =
    let sum = length-append skb (replicate (60 - length skb) 0) in
    let zeros = length-replicate {A = ℕ} (60 - length skb) 0 in ground (arith, sum, zeros)

pub get_or-zeros : (n i : ℕ) → get_or {A = ℕ} (replicate n 0) i 0 ≡ 0
get_or-zeros zero i = refl
get_or-zeros (suc n) zero = refl
get_or-zeros (suc n) (suc i) = get_or-zeros n i

get_or-append_zeros : (xs : List ℕ) (n i : ℕ) → get_or (xs ++ replicate n 0) i 0 ≡ get_or xs i 0
get_or-append_zeros [] n i = get_or-zeros n i
get_or-append_zeros (x ∷ xs) n zero = refl
get_or-append_zeros (x ∷ xs) n (suc i) = get_or-append_zeros xs n i

-- A byte that the loop stores is that byte of the padded frame.
payload_byte-padded :
    (skb : List ℕ) (j : ℕ) → payload_byte skb (length skb) j ≡ get_or (padded skb) j 0
payload_byte-padded skb j =
    ground (arith, get_or-append_zeros skb (60 - length skb) j, get_or-past skb j 0)

-- Records are kept where the words below `used` are.
module _ (size start used : ℕ) (m m' : Memory) (aligned : size % 4 ≡ 0) (pos : 0 < size)
    (start_aligned : start % 4 ≡ 0)
    (same : (x : ℕ) → x < used → m' ((start + x) % size) ≡ m ((start + x) % size)) where
  keep_byte :
      (o j : ℕ)
      → o % 4 ≡ 0
      → o + 4 * (j / 4) < used
      → byte_at m' ((start + o + j) % size) ≡ byte_at m ((start + o + j) % size)
  keep_byte o j al lt =
      let word : m' ((start + o + 4 * (j / 4)) % size) ≡ m ((start + o + 4 * (j / 4)) % size) =
        rw (add_assoc start o (4 * (j / 4))) (same (o + 4 * (j / 4)) lt) in
      byte_at-ring m' (start + o) size j (omega arith) aligned pos
      ∙ ap (λ (w : ℕ). w / 256 ^ (j % 4) % 256) word
      ∙ sym (byte_at-ring m (start + o) size j (omega arith) aligned pos)

  pub Holds-keep :
      (fs : List (List ℕ)) (o : ℕ)
      → o % 4 ≡ 0
      → o + total fs ≤ used
      → Holds m size (start + o) fs
      → Holds m' size (start + o) fs
  Holds-keep [] o al le h = tt
  Holds-keep (f ∷ fs) o al le (r, h) = (
    record {
      header = same o (omega arith) ∙ r.header;
      payload = λ j lt.
          let kept : byte_at m' ((start + o + 4 + j) % size)
              ≡ byte_at m ((start + o + 4 + j) % size) =
            rw (add_assoc start o 4) (keep_byte (o + 4) j (omega arith) (omega arith)) in
          kept ∙ r.payload j lt;
    },
    rw (add_assoc start o (slot (length f))) (
        Holds-keep fs (o + slot (length f)) (omega arith) (omega arith)
          (rw (← add_assoc start o (slot (length f))) h)),
  )

-- The buffer after rvcomp_tx_enqueue_one, from the end position `end`.
abbrev pub enqueued : ℕ → ℕ → List ℕ → Memory → Memory
enqueued size end skb m =
    written size skb (length skb) (payload_words (length skb)) 0 ((end + 4) % size)
      (update m end (pad_len (length skb)))

module _ (size end : ℕ) (skb : List ℕ) (m : Memory) (aligned : size % 4 ≡ 0) (he : end < size)
    (fits : record_len (length skb) + 4 ≤ size) where
  -- Outside the new record nothing changes.
  pub enqueued_outside :
      (d : ℕ)
      → record_len (length skb) ≤ d
      → d < size
      → enqueued size end skb m ((end + d) % size) ≡ m ((end + d) % size)
  enqueued_outside d le lt =
      let same : ((end + 4) % size + (d - 4)) % size ≡ (end + d) % size =
        mod-add-mod (end + 4) size (d - 4) ∙ ap (λ (k : ℕ). k % size) (omega arith) in
      rw same at (
        written_outside size skb (length skb) (payload_words (length skb)) 0 ((end + 4) % size)
          (d - 4) (update m end (pad_len (length skb))) (omega arith) (omega arith)
          (mod-lt _ (omega arith)))
      ∙ update_ne m end (pad_len (length skb)) ((end + d) % size)
          (λ e. ring_ne size end d he (omega arith) lt (sym e))

  header_at_end : enqueued size end skb m end ≡ pad_len (length skb)
  header_at_end =
      let back : ((end + 4) % size + (size - 4)) % size ≡ end =
        mod-add-mod (end + 4) size (size - 4)
        ∙ ap (λ (k : ℕ). k % size) (omega arith)
        ∙ add-mod_right end size
        ∙ mod-eq_of_lt he in
      rw back at (
        written_outside size skb (length skb) (payload_words (length skb)) 0 ((end + 4) % size)
          (size - 4) (update m end (pad_len (length skb))) (omega arith) (omega arith)
          (mod-lt _ (omega arith)))
      ∙ update_self m end (pad_len (length skb))

  -- The new record is there.
  pub enqueued-RecordAt :
      IsBytes skb → end % 4 ≡ 0 → RecordAt (enqueued size end skb m) size end (padded skb)
  enqueued-RecordAt h al = record {
    header = rw (mod-eq_of_lt he) (header_at_end ∙ sym (length-padded skb));
    payload = λ j lt.
        let m' = enqueued size end skb m in
        let len = length skb in
        let reach : j < pad_len len = rw (length-padded skb) at lt in
        let place : ((end + 4) % size + 4 * (j / 4)) % size ≡ (end + 4 + 4 * (j / 4)) % size =
          mod-add-mod (end + 4) size (4 * (j / 4)) in
        let word : m' ((end + 4 + 4 * (j / 4)) % size) ≡ payload_word skb len (0 + 4 * (j / 4)) =
          rw place at (
            written_inside size skb len (payload_words len) 0 ((end + 4) % size) (j / 4)
              (update m end (pad_len len)) (omega arith) (omega arith) (mod-lt _ (omega arith))) in
        let index : 0 + 4 * (j / 4) + j % 4 ≡ j = omega arith in
        byte_at-ring m' (end + 4) size j (omega arith) aligned (omega arith)
        ∙ ap (λ (w : ℕ). w / 256 ^ (j % 4) % 256) word
        ∙ payload_word_byte skb len (0 + 4 * (j / 4)) (j % 4) h (omega arith)
        ∙ rw index (payload_byte-padded skb j);
  }
