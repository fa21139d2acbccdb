-- ===== src/NetDriver/Tx/Fifo.antt =====
-- The driver and the transmitter of src/ether/ether_tx_rmii.v at the two ends of the ring, in any
-- order of steps: frames leave in the order in which they were accepted, unchanged but for padding,
-- except for those that the transmitter gives up.
use mathlib.Core.Option
use native.Mathlib.Decide.{dec_lt}
use native.Mathlib.Numerals.{add-one}
use native.Mathlib.Nat.{mod-eq_of_lt, mod-lt, mod-add-mod, mod-mod, add_assoc, add_comm, add-zero}
use rvcomp.Base.{
  ℕ, zero, suc, ◌+◌, ◌%◌, ◌≤◌, ◌<◌, ◌≡◌, refl, sym, ap, ap₂, ◌∙◌, ◌≢◌, ◌⊎◌, inl, inr, Bool, true,
  false, not, ◌&&◌, ◌||◌, Option, some, List, [], ◌∷◌, ◌++◌, append_assoc, arith, ltb, leb, ◌==◌,
  if◌then◌else◌, length, get_or, Memory,
}
use rvcomp.NetDriver.Tx.Xmit.{start_xmit-TxRing, start_xmit-busy, start_xmit-drop}
use rvcomp.NetDriver.Tx.Ring.{byte_at, ring_ne, mod-aligned}
use rvcomp.NetDriver.State.{
  Eth, reg_tx_buffer_start, reg_tx_buffer_end, csr_read, csr_write, lock_tx, unlock_tx, stop_queue,
  schedule_reclaim, free_skb, call,
}
use rvcomp.NetDriver.Tx.{start_xmit, TxStatus, tx_ok, tx_busy, count_tx_dropped}
use rvcomp.NetDriver.Tx.Queue.{total, IsBufSize-aligned, TxQueue, TxRing, Holds-mod}
use rvcomp.NetDriver.Tx.Fill.{slot, IsBytes, record_len}
use rvcomp.NetDriver.Tx.Enqueue.{padded, length-padded}

-- The `n` bytes of the ring from `pos` on.
abbrev pub ring_bytes : Memory → ℕ → ℕ → ℕ → List ℕ
ring_bytes m size pos zero = []
ring_bytes m size pos (suc n) = byte_at m (pos % size) ∷ ring_bytes m size (pos + 1) n

-- What the transmitter does with a record: it sends the frame, or gives it up.
pub data Taken : Type 0 where
  nothing : Taken
  sent : List ℕ → Taken
  lost : Taken

-- One frame of the transmitter: it reads the header word at its start position and skips a header
-- that is no legal length. Otherwise it sends that many bytes, or, when the line is `busy` until
-- no retry is left, gives the frame up, and moves past the record in both cases.
unfoldable pub transmit : Bool → Eth → Taken × Eth
transmit busy eth =
    let size = eth.txbuf_size in
    let start = csr_read eth reg_tx_buffer_start in
    let len = eth.txbuf start in
    if start == csr_read eth reg_tx_buffer_end
    then (nothing, eth)
    else (if len == 0 || ltb 1514 len
        then (nothing, csr_write eth reg_tx_buffer_start ((start + 4) % size))
        else (
          if busy then lost else sent (ring_bytes eth.txbuf size (start + 4) len),
          csr_write eth reg_tx_buffer_start ((start + slot len) % size),
        ))

-- What happens at the ring: the kernel submits a frame, or the transmitter takes one, on a line
-- that may stay busy.
pub data Event : Type 0 where
  submit : Bool → List ℕ → Event
  send : Bool → Event

pub record Run : Type 0 where
  pub eth : Eth
  pub accepted : List (List ℕ)
  pub out : List (List ℕ)
  pub given_up : ℕ

abbrev pub take : Run → Taken × Eth → Run
take r (nothing, eth) = record r { eth = eth }
take r (sent f, eth) = record r { eth = eth; out = r.out ++ f ∷ [] }
take r (lost, eth) = record r { eth = eth; given_up = r.given_up + 1 }

abbrev pub accept : Run → List ℕ → TxStatus × Eth → Run
accept r skb (tx_busy, eth) = record r { eth = eth }
accept r skb (tx_ok, eth) =
    let legal = not (length skb == 0) && leb (length skb) 1514 in
    record r { eth = eth; accepted = if legal then r.accepted ++ padded skb ∷ [] else r.accepted }

unfoldable pub step : Event → Run → Option Run
step (submit ready skb) r = Option.map (accept r skb) (start_xmit ready skb r.eth)
step (send busy) r = some (take r (transmit busy r.eth))

unfoldable pub run : List Event → Run → Option Run
run [] r = some r
run (e ∷ es) r = Option.bind (step e r) (run es)

abbrev pub AllBytes : List Event → Type 0
AllBytes [] = Unit {0}
AllBytes (submit ready skb ∷ es) = IsBytes skb × AllBytes es
AllBytes (send busy ∷ es) = AllBytes es

abbrev pub AllLegal : List (List ℕ) → Type 0
AllLegal [] = Unit {0}
AllLegal (f ∷ fs) = (0 < length f) × (length f ≤ 1514) × AllLegal fs

-- The frames that have left the ring, each with whether it was sent: all of them, those sent, and
-- how many were given up.
abbrev pub frames : List (Bool × List ℕ) → List (List ℕ)
frames [] = []
frames ((ok, f) ∷ fs) = f ∷ frames fs

abbrev pub frames_sent : List (Bool × List ℕ) → List (List ℕ)
frames_sent [] = []
frames_sent ((true, f) ∷ fs) = f ∷ frames_sent fs
frames_sent ((false, f) ∷ fs) = frames_sent fs

abbrev pub count_lost : List (Bool × List ℕ) → ℕ
count_lost [] = 0
count_lost ((true, f) ∷ fs) = count_lost fs
count_lost ((false, f) ∷ fs) = suc (count_lost fs)

-- The accepted frames are in order those that have left and those in the ring, and what went out is
-- the former without the frames given up.
pub record InOrder (r : Run) : Type 0 where
  pub left : List (Bool × List ℕ)
  pub pending : List (List ℕ)
  pub ring : TxRing r.eth pending
  pub legal : AllLegal pending
  pub order : r.accepted ≡ frames left ++ pending
  pub wire : r.out ≡ frames_sent left
  pub losses : r.given_up ≡ count_lost left

frames-append :
    (fs : List (Bool × List ℕ)) (ok : Bool) (f : List ℕ) (gs : List (List ℕ))
    → frames (fs ++ (ok, f) ∷ []) ++ gs ≡ frames fs ++ f ∷ gs
frames-append [] ok f gs = refl
frames-append ((ok', f') ∷ fs) ok f gs =
    ap (λ (l : List (List ℕ)). f' ∷ l) (frames-append fs ok f gs)

frames_sent-sent :
    (fs : List (Bool × List ℕ)) (f : List ℕ)
    → (frames_sent (fs ++ (true, f) ∷ []) ≡ frames_sent fs ++ f ∷ [])
      × (count_lost (fs ++ (true, f) ∷ []) ≡ count_lost fs)
frames_sent-sent [] f = (refl, refl)
frames_sent-sent ((true, f') ∷ fs) f =
    let (s, c) = frames_sent-sent fs f in (ap (λ (l : List (List ℕ)). f' ∷ l) s, c)
frames_sent-sent ((false, f') ∷ fs) f = let (s, c) = frames_sent-sent fs f in (s, ap suc c)

frames_sent-lost :
    (fs : List (Bool × List ℕ)) (f : List ℕ)
    → (frames_sent (fs ++ (false, f) ∷ []) ≡ frames_sent fs)
      × (count_lost (fs ++ (false, f) ∷ []) ≡ count_lost fs + 1)
frames_sent-lost [] f = (refl, refl)
frames_sent-lost ((true, f') ∷ fs) f =
    let (s, c) = frames_sent-lost fs f in (ap (λ (l : List (List ℕ)). f' ∷ l) s, c)
frames_sent-lost ((false, f') ∷ fs) f = let (s, c) = frames_sent-lost fs f in (s, omega (arith, c))

ring_bytes_lem :
    (m : Memory) (size pos : ℕ) (f : List ℕ)
    → ((j : ℕ) → j < length f → byte_at m ((pos + j) % size) ≡ get_or f j 0)
    → ring_bytes m size pos (length f) ≡ f
ring_bytes_lem m size pos [] h = refl
ring_bytes_lem m size pos (b ∷ f) h = ap₂ ◌∷◌ (rw add-zero at (h 0 (omega arith))) (
    ring_bytes_lem m size (pos + 1) f
      (λ j lt. rw (add_assoc pos 1 j, add_comm 1 j, add-one) (h (suc j) (omega arith))))

module _ {size start end : ℕ} {m : Memory} {f : List ℕ} {fs : List (List ℕ)}
    (q : TxQueue size start end m (f ∷ fs)) where
  header_read : m start ≡ length f
  header_read = ap m (sym (mod-eq_of_lt q.start_in)) ∙ q.held.0.header

  bytes_read : ring_bytes m size (start + 4) (length f) ≡ f
  bytes_read = ring_bytes_lem m size (start + 4) f q.held.0.payload

  -- Behind the first record the rest of the queue is left.
  dequeued : TxQueue size ((start + slot (length f)) % size) end m fs
  dequeued = record {
    buf_size = q.buf_size;
    start_in = mod-lt _ (omega (arith, q.room));
    start_aligned =
        mod-aligned (start + slot (length f)) size (omega (arith, q.start_aligned))
          (IsBufSize-aligned q.buf_size);
    end_at =
        q.end_at
        ∙ ap (λ (k : ℕ). k % size) (sym (add_assoc start (slot (length f)) (total fs)))
        ∙ sym (mod-add-mod (start + slot (length f)) size (total fs));
    room = omega (arith, q.room);
    held =
        Holds-mod m size (start + slot (length f)) ((start + slot (length f)) % size) fs
          (sym (mod-mod (start + slot (length f)) size)) q.held.1;
  }

  not_empty : start ≢ end
  not_empty e =
      ring_ne size start (total (f ∷ fs)) q.start_in (omega arith) (omega (arith, q.room))
        (sym q.end_at ∙ sym e)

empty_end : {size start end : ℕ} {m : Memory} → TxQueue size start end m [] → start ≡ end
empty_end {size} {start} q = sym (q.end_at ∙ rw add-zero (mod-eq_of_lt q.start_in))

AllLegal-append : (fs gs : List (List ℕ)) → AllLegal fs → AllLegal gs → AllLegal (fs ++ gs)
AllLegal-append [] gs h k = k
AllLegal-append (f ∷ fs) gs h k = (h.0, h.1, AllLegal-append fs gs h.2 k)

padded_legal :
    (skb : List ℕ) → length skb ≤ 1514 → (0 < length (padded skb)) × (length (padded skb) ≤ 1514)
padded_legal skb le = ground (arith, length-padded skb)

-- What each event leaves.
abbrev Keeps : Event → Run → Type 0
Keeps e r = (r' : Run) × (step e r ≡ some r') × InOrder r'

submit_drops :
    (ready : Bool) (skb : List ℕ) (r : Run)
    → (length skb ≡ 0) ⊎ (1514 < length skb)
    → InOrder r
    → Keeps (submit ready skb) r
unfolding step
submit_drops ready skb r bad o = (
  record r { eth = call free_skb (count_tx_dropped r.eth) },
  ground (arith, start_xmit-drop ready r.eth skb bad),
  record {
    left = o.left;
    pending = o.pending;
    ring = o.ring;
    legal = o.legal;
    order = o.order;
    wire = o.wire;
    losses = o.losses;
  },
)

submit_waits :
    (ready : Bool) (skb : List ℕ) (r : Run)
    → 0 < length skb
    → length skb ≤ 1514
    → (o : InOrder r) → r.eth.txbuf_size < record_len (length skb) + total o.pending + 4
    → Keeps (submit ready skb) r
unfolding step
submit_waits ready skb r pos le o full = (
  record r {
    eth = record r.eth { log = schedule_reclaim 1 ∷ unlock_tx ∷ stop_queue ∷ lock_tx ∷ r.eth.log };
  },
  ground (arith, start_xmit-busy ready r.eth o.pending skb o.ring pos le full),
  record {
    left = o.left;
    pending = o.pending;
    ring = o.ring;
    legal = o.legal;
    order = o.order;
    wire = o.wire;
    losses = o.losses;
  },
)

submit_queues :
    (ready : Bool) (skb : List ℕ) (r : Run)
    → IsBytes skb
    → 0 < length skb
    → length skb ≤ 1514
    → (o : InOrder r) → record_len (length skb) + total o.pending + 4 ≤ r.eth.txbuf_size
    → Keeps (submit ready skb) r
unfolding step
submit_queues ready skb r h pos le o fits =
    let done = start_xmit-TxRing ready r.eth o.pending skb o.ring h pos le fits in
    let p = padded_legal skb le in
    (
      record r { eth = done.0; accepted = r.accepted ++ padded skb ∷ [] },
      ground (arith, done.1),
      record {
        left = o.left;
        wire = o.wire;
        losses = o.losses;
        pending = o.pending ++ padded skb ∷ [];
        ring = done.2;
        legal = AllLegal-append o.pending (padded skb ∷ []) o.legal (p.0, p.1, tt);
        order =
            ap (λ (a : List (List ℕ)). a ++ padded skb ∷ []) o.order
            ∙ append_assoc (frames o.left) o.pending (padded skb ∷ []);
      },
    )

submit-InOrder :
    (ready : Bool) (skb : List ℕ) (r : Run) → IsBytes skb → InOrder r → Keeps (submit ready skb) r
submit-InOrder ready skb r h o = elim (dec_lt 1514 (length skb)) [
  | yes long ↦ submit_drops ready skb r (inr long) o
  | no short ↦ elim (dec_lt 0 (length skb)) [
    | no empty ↦ submit_drops ready skb r (inl (omega arith)) o
    | yes pos ↦ elim (dec_lt r.eth.txbuf_size (record_len (length skb) + total o.pending + 4)) [
      | yes full ↦ submit_waits ready skb r pos (omega arith) o full
      | no fits ↦ submit_queues ready skb r h pos (omega arith) o (omega arith)
    ]
  ]
]

transmit-cons :
    (busy : Bool) (eth : Eth) (f : List ℕ) (fs : List (List ℕ))
    → TxRing eth (f ∷ fs)
    → 0 < length f
    → length f ≤ 1514
    → transmit busy eth ≡ (
      if busy then lost else sent f,
      csr_write eth reg_tx_buffer_start
          ((csr_read eth reg_tx_buffer_start + slot (length f)) % eth.txbuf_size),
    )
unfolding transmit
transmit-cons busy eth f fs ring pos le =
    ground (arith, not_empty ring, header_read ring, bytes_read ring)

transmit-empty : (busy : Bool) (eth : Eth) → TxRing eth [] → transmit busy eth ≡ (nothing, eth)
unfolding transmit
transmit-empty busy eth ring = ground (arith, empty_end ring)

send-InOrder : (busy : Bool) (r : Run) → InOrder r → Keeps (send busy) r
unfolding step
send-InOrder busy r o = go busy o.pending o.ring o.legal o.order
  where
    go :
        (busy : Bool) (fs : List (List ℕ))
        → TxRing r.eth fs
        → AllLegal fs
        → r.accepted ≡ frames o.left ++ fs
        → Keeps (send busy) r
    go busy [] ring legal order = (
      r,
      ap (λ (t : Taken × Eth). some (take r t)) (transmit-empty busy r.eth ring),
      record {
        left = o.left;
        pending = [];
        ring = ring;
        legal = tt;
        order = order;
        wire = o.wire;
        losses = o.losses;
      },
    )
    go false (f ∷ fs) ring legal order = (
      record r {
        eth =
            csr_write r.eth reg_tx_buffer_start
              ((csr_read r.eth reg_tx_buffer_start + slot (length f)) % r.eth.txbuf_size);
        out = r.out ++ f ∷ [];
      },
      ap (λ (t : Taken × Eth). some (take r t))
          (transmit-cons false r.eth f fs ring legal.0 legal.1),
      record {
        left = o.left ++ (true, f) ∷ [];
        pending = fs;
        ring = dequeued ring;
        legal = legal.2;
        order = order ∙ sym (frames-append o.left true f fs);
        wire = ap (λ (l : List (List ℕ)). l ++ f ∷ []) o.wire ∙ sym (frames_sent-sent o.left f).0;
        losses = o.losses ∙ sym (frames_sent-sent o.left f).1;
      },
    )
    go true (f ∷ fs) ring legal order = (
      record r {
        eth =
            csr_write r.eth reg_tx_buffer_start
              ((csr_read r.eth reg_tx_buffer_start + slot (length f)) % r.eth.txbuf_size);
        given_up = r.given_up + 1;
      },
      ap (λ (t : Taken × Eth). some (take r t))
          (transmit-cons true r.eth f fs ring legal.0 legal.1),
      record {
        left = o.left ++ (false, f) ∷ [];
        pending = fs;
        ring = dequeued ring;
        legal = legal.2;
        order = order ∙ sym (frames-append o.left false f fs);
        wire = o.wire ∙ sym (frames_sent-lost o.left f).0;
        losses = ap (λ (n : ℕ). n + 1) o.losses ∙ sym (frames_sent-lost o.left f).1;
      },
    )

-- From a ring that holds the accepted frames that have not left it, every sequence of submissions, of
-- frames of bytes, and of transmissions, on a line that is free or stays busy, runs to its end and
-- leaves such a ring. The frames that have left are, in order, a prefix of those accepted, and what
-- went out is that prefix without as many frames as were given up, each frame padded and otherwise
-- unchanged: a prefix itself when none was given up.
pub run-InOrder :
    (es : List Event) (r : Run)
    → AllBytes es
    → InOrder r
    → (r' : Run) × (run es r ≡ some r') × InOrder r'
unfolding run Option.bind
run-InOrder [] r h o = (r, refl, o)
run-InOrder (submit ready skb ∷ es) r h o =
    let (r', e, o') = submit-InOrder ready skb r h.0 o in
    let (r'', e', o'') = run-InOrder es r' h.1 o' in
    (r'', ap (λ (x : Option Run). Option.bind x (run es)) e ∙ e', o'')
run-InOrder (send busy ∷ es) r h o =
    let (r', e, o') = send-InOrder busy r o in
    let (r'', e', o'') = run-InOrder es r' h o' in
    (r'', ap (λ (x : Option Run). Option.bind x (run es)) e ∙ e', o'')
