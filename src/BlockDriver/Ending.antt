-- ===== src/BlockDriver/Ending.antt =====
-- rvcomp_mmc_queue_rq on every path: it returns, ends the request once, and gives the lock back.
use mathlib.Core.Option
use rvcomp.Base.{
  ℕ, ◌+◌, ◌*◌, ◌%◌, ◌^◌, ◌<◌, ◌≡◌, refl, sym, ap, ◌∙◌, ◌⊎◌, inl, inr, Bool, true, false, some, List,
  [], ◌∷◌, ◌++◌, append_assoc, arith, ◌==◌, Bool-cases, u64,
}
use rvcomp.BlockDriver.Flushing.{DoneWithin, NeverWithin, flush_loops_lem}
use rvcomp.BlockDriver.Transfer.{Cached, PageWrites, Keeps, Keeps-trans, Keeps-refl}
use rvcomp.BlockDriver.Request.{bytes, InRange, Aligned}
use rvcomp.BlockDriver.Segment.{copy_segment_lem}
use rvcomp.BlockDriver.{
  mmc_poll_max_loops, Status, sts_ok, sts_ioerr, Call, start_request, end_request, write_reg, Mmc,
  call, BioVec, copy_segments, flush_request, mmc_csr_flush, mmc_csr_flush_done_clr, flush_loops,
  BlkRequest, queue_rq, lock, unlock, flush, finish,
}

-- The statuses with which requests are ended, and whether the lock is held, after a log.
abbrev pub ended : List Call → List Status
ended [] = []
ended (end_request status ∷ log) = status ∷ ended log
ended (c ∷ log) = ended log

abbrev pub held : List Call → Bool
held [] = false
held (lock ∷ log) = true
held (unlock ∷ log) = false
held (c ∷ log) = held log

ended-PageWrites : (w l : List Call) → PageWrites w → ended (w ++ l) ≡ ended l
ended-PageWrites [] l h = refl
ended-PageWrites (write_reg reg val ∷ w) l h = ended-PageWrites w l h.1
ended-PageWrites (c ∷ w) l h = absurd h

-- The segments up to the first one that is not of whole sectors are moved.
copy_segments_total :
    (r : Bool) (base : ℕ) (segs : List BioVec) (req : ℕ) (mmc : Mmc)
    → InRange segs
    → base + req + bytes segs < 2 ^ 41
    → Cached mmc
    → (status : Status) × (mmc' : Mmc) × (copy_segments r base segs req mmc ≡ some (status, mmc'))
      × Keeps mmc mmc'
      × ((Aligned segs × (status ≡ sts_ok)) ⊎ ((Aligned segs → ⊥) × (status ≡ sts_ioerr)))
unfolding copy_segments Option.bind
copy_segments_total r base [] req mmc fits la c =
    (sts_ok, mmc, refl, Keeps-refl mmc c, inl (tt, refl))
copy_segments_total r base (b ∷ segs) req mmc fits la c = elim (Bool-cases (b.bv_len % 512 == 0)) [
  | inr f ↦ (
    sts_ioerr,
    mmc,
    rw f refl,
    Keeps-refl mmc c,
    inr ((λ al. absurd (ground (arith, al.0))), refl),
  )
  | inl t ↦
      let (mid, returns, m) = copy_segment_lem r b base fits.0 req mmc (omega arith) c in
      let (status, mmc', rest, keeps, result) =
        copy_segments_total r base segs (req + b.bv_len) mid fits.1 (omega arith) m.keeps.cached in
      let now : b.bv_len % 512 ≡ 0 = ground arith in
      (
        status,
        mmc',
        rw (t, returns) rest,
        Keeps-trans m.keeps keeps,
        elim result [
          | inl (al, ok) ↦ inl ((now, al), ok)
          | inr (not_al, err) ↦ inr ((λ al. not_al al.1), err)
        ],
      )
]

-- What a call of `queue_rq` adds to the log: one end, with the status, and a lock that is given
-- back.
pub record Ended (status : Status) (mmc mmc' : Mmc) : Type 0 where
  pub calls : List Call
  pub logged : mmc'.log ≡ calls ++ mmc.log
  pub once : ended calls ≡ status ∷ []
  pub released : held calls ≡ false

Keeps-Ended :
    (status : Status) {mmc mmc' : Mmc}
    → Keeps (call lock (call start_request mmc)) mmc'
    → Ended status mmc (call (end_request status) (call unlock mmc'))
Keeps-Ended status {mmc} keeps = record {
  calls = end_request status ∷ unlock ∷ (keeps.writes ++ lock ∷ start_request ∷ []);
  logged =
      ap (λ (l : List Call). end_request status ∷ unlock ∷ l)
        (keeps.logged ∙ sym (append_assoc keeps.writes (lock ∷ start_request ∷ []) mmc.log));
  once =
      ap (λ (l : List Status). status ∷ l)
        (ended-PageWrites keeps.writes (lock ∷ start_request ∷ []) keeps.page_writes);
  released = refl;
}

flush_request-Ended :
    (poll : ℕ → ℕ) (mmc : Mmc)
    → (status : Status) × (mmc' : Mmc) × (flush_request poll (call start_request mmc)
        ≡ (status, mmc'))
      × Ended status mmc mmc'
      × ((DoneWithin mmc_poll_max_loops poll 0 × (status ≡ sts_ok))
          ⊎ (NeverWithin mmc_poll_max_loops poll 0 × (status ≡ sts_ioerr)))
unfolding flush
flush_request-Ended poll mmc =
    let begun : Mmc = call lock (call start_request mmc) in
    let flushed : Mmc = (flush_loops mmc_poll_max_loops poll begun).1 in
    elim (flush_loops_lem mmc_poll_max_loops poll begun) [
      | inl (done, r, l) ↦ (
        sts_ok,
        call (end_request sts_ok) (call unlock flushed),
        rw r refl,
        record {
          calls =
              end_request sts_ok
              ∷ unlock
              ∷ write_reg mmc_csr_flush_done_clr 1
              ∷ write_reg mmc_csr_flush 1
              ∷ lock
              ∷ start_request
              ∷ [];
          logged = ap (λ (l : List Call). end_request sts_ok ∷ unlock ∷ l) l;
          once = refl;
          released = refl;
        },
        inl (done, refl),
      )
      | inr (never, r, l) ↦ (
        sts_ioerr,
        call (end_request sts_ioerr) (call unlock flushed),
        rw r refl,
        record {
          calls =
              end_request sts_ioerr
              ∷ unlock
              ∷ write_reg mmc_csr_flush 1
              ∷ lock
              ∷ start_request
              ∷ [];
          logged = ap (λ (l : List Call). end_request sts_ioerr ∷ unlock ∷ l) l;
          once = refl;
          released = refl;
        },
        inr (never, refl),
      )
    ]

transfer_returns :
    (poll : ℕ → ℕ) (rq : BlkRequest) (mmc : Mmc)
    → rq.is_flush ≡ false
    → rq.is_passthrough ≡ false
    → mmc.rootfs_offset + rq.pos * 512 < 2 ^ 41
    → {r : Status × Mmc}
    → copy_segments rq.is_read
        (mmc.rootfs_offset + rq.pos * 512)
        rq.segments
        0
        (call lock (call start_request mmc))
      ≡ some r
    → queue_rq poll rq mmc ≡ some (finish r)
unfolding queue_rq
transfer_returns poll rq mmc nf np lt e =
    let whole : u64 (mmc.rootfs_offset + u64 (rq.pos * 512)) ≡ mmc.rootfs_offset + rq.pos * 512 =
      omega arith in
    simp (nf, np, whole, e)

-- When a request is answered with success.
abbrev pub Succeeds : (ℕ → ℕ) → BlkRequest → Type 0
Succeeds poll rq =
    ((rq.is_flush ≡ true) × DoneWithin mmc_poll_max_loops poll 0)
    ⊎ ((rq.is_flush ≡ false) × (rq.is_passthrough ≡ false) × Aligned rq.segments)

-- With offsets that do not wrap, a place below 2 TiB and a coherent page cache, every call
-- returns a status, ends the request exactly once and with it, and gives the lock back. The
-- status is OK for a flush that is done in time and a transfer of whole sectors, and IOERR
-- otherwise.
pub queue_rq-Ended :
    (poll : ℕ → ℕ) (rq : BlkRequest) (mmc : Mmc)
    → InRange rq.segments
    → mmc.rootfs_offset + rq.pos * 512 + bytes rq.segments < 2 ^ 41
    → Cached mmc
    → (status : Status) × (mmc' : Mmc) × (queue_rq poll rq mmc ≡ some (status, mmc'))
      × Ended status mmc mmc'
      × ((Succeeds poll rq × (status ≡ sts_ok)) ⊎ ((Succeeds poll rq → ⊥) × (status ≡ sts_ioerr)))
unfolding queue_rq
queue_rq-Ended poll rq mmc fits la c = elim (Bool-cases rq.is_flush) [
  | inl fl ↦
      let (status, mmc', e, ends, result) = flush_request-Ended poll mmc in
      (status, mmc', rw fl (ap some e), ends, flush_result fl result)
  | inr nf ↦ elim (Bool-cases rq.is_passthrough) [
    | inl pt ↦ (
      sts_ioerr,
      call (end_request sts_ioerr) (call start_request mmc),
      rw (nf, pt) refl,
      record {
        calls = end_request sts_ioerr ∷ start_request ∷ [];
        logged = refl;
        once = refl;
        released = refl;
      },
      inr (refused nf pt, refl),
    )
    | inr np ↦
        let (status, mmc', e, keeps, result) =
          copy_segments_total rq.is_read (mmc.rootfs_offset + rq.pos * 512) rq.segments 0
            (call lock (call start_request mmc)) fits (omega arith) c in
        (
          status,
          call (end_request status) (call unlock mmc'),
          transfer_returns poll rq mmc nf np (omega arith) e,
          Keeps-Ended status keeps,
          elim result [
            | inl (al, ok) ↦ inl (inr (nf, np, al), ok)
            | inr (not_al, err) ↦ inr (transfer_refused nf not_al, err)
          ],
        )
  ]
]
  where
    flush_refused :
        rq.is_flush ≡ true → NeverWithin mmc_poll_max_loops poll 0 → Succeeds poll rq → ⊥
    flush_refused fl never (inl (_, (j, lt, done))) = done (never j lt)
    flush_refused fl never (inr s) = cc

    flush_result :
        {status : Status}
        → rq.is_flush ≡ true
        → (DoneWithin mmc_poll_max_loops poll 0 × (status ≡ sts_ok))
          ⊎ (NeverWithin mmc_poll_max_loops poll 0 × (status ≡ sts_ioerr))
        → (Succeeds poll rq × (status ≡ sts_ok)) ⊎ ((Succeeds poll rq → ⊥) × (status ≡ sts_ioerr))
    flush_result fl r = elim r [
      | inl (done, ok) ↦ inl (inl (fl, done), ok)
      | inr (never, err) ↦ inr (flush_refused fl never, err)
    ]

    transfer_refused : rq.is_flush ≡ false → (Aligned rq.segments → ⊥) → Succeeds poll rq → ⊥
    transfer_refused nf not_al (inl s) = cc
    transfer_refused nf not_al (inr s) = not_al s.2

    refused : rq.is_flush ≡ false → rq.is_passthrough ≡ true → Succeeds poll rq → ⊥
    refused nf pt (inl s) = cc
    refused nf pt (inr s) = cc
