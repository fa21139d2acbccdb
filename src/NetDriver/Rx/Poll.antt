-- ===== src/NetDriver/Rx/Poll.antt =====
-- rvcomp_napi_poll: the budget, the packets handed on, and when the interrupt is enabled again.
use mathlib.Core.List.{map, map-append}
use mathlib.Core.Option
use native.Mathlib.Decide.{dec_lt, ℕ_discrete}
use rvcomp.Base.{
  ℕ, zero, suc, ◌+◌, ◌≤◌, ◌<◌, ◌≡◌, refl, sym, ap, ◌∙◌, inl, inr, Bool, true, false, Option, some,
  List, [], ◌∷◌, ◌++◌, append_assoc, arith, ltb, if◌then◌else◌, Bool-cases, length, length-append,
}
use rvcomp.NetDriver.Rx.Packet.{packet, rx_one-receive, rx_one-drop, after_receive, after_drop}
use rvcomp.NetDriver.Tx.Queue.{IsBufSize}
use rvcomp.NetDriver.State.{
  Eth, receive, csr_read, reg_addr_start, reg_addr_end, Call, enable_irq, napi_complete, call,
}
use rvcomp.NetDriver.Rx.{Device, poll_loop, rx_one, device_step, poll_finish, napi_poll}

rx_one-empty :
    (alloc : Bool) (work_done : ℕ) (eth : Eth)
    → csr_read eth reg_addr_start ≡ csr_read eth reg_addr_end
    → rx_one alloc work_done eth ≡ some (false, work_done, eth)
unfolding rx_one
rx_one-empty alloc work_done eth e = ground arith

-- What a run of the loop from `work_done` leaves: packets handed to the kernel, newest first.
record Polled (budget work_done : ℕ) (eth : Eth) (result : Option (ℕ × Eth)) : Type 0 where
  work : ℕ
  after : Eth
  packets : List (List ℕ)
  returns : result ≡ some (work, after)
  within : work ≤ budget
  same_irq : after.irq ≡ eth.irq
  handed_on : after.log ≡ map receive packets ++ eth.log
  counted : length packets + work_done ≤ work
  drained : work < budget → csr_read after reg_addr_start ≡ csr_read after reg_addr_end

-- One packet consumed before the rest of the loop.
Polled-step :
    {budget work_done : ℕ} {eth eth' : Eth} {result result' : Option (ℕ × Eth)} (p : List (List ℕ))
    → length p ≤ 1
    → eth'.irq ≡ eth.irq
    → eth'.log ≡ map receive p ++ eth.log
    → result ≡ result'
    → Polled budget (work_done + 1) eth' result'
    → Polled budget work_done eth result
Polled-step {eth = eth} p short irq log e r = record {
  work = r.work;
  after = r.after;
  packets = r.packets ++ p;
  returns = e ∙ r.returns;
  within = r.within;
  same_irq = r.same_irq ∙ irq;
  handed_on =
      r.handed_on
      ∙ ap (λ (l : List Call). map receive r.packets ++ l) log
      ∙ sym (append_assoc (map receive r.packets) (map receive p) eth.log)
      ∙ ap (λ (l : List Call). l ++ eth.log) (sym (map-append receive r.packets p));
  counted = omega (arith, length-append r.packets p, r.counted);
  drained = r.drained;
}

module _ (device : Device) (alloc : ℕ → Bool) (budget : ℕ) where
  loop_full :
      (fuel work_done : ℕ) (eth : Eth)
      → budget ≤ work_done
      → poll_loop (suc fuel) device alloc budget work_done eth ≡ some (work_done, eth)
  unfolding poll_loop
  loop_full fuel work_done eth h = ground arith

  loop_empty :
      (fuel work_done : ℕ) (eth : Eth) {e : Eth}
      → work_done < budget
      → rx_one (alloc work_done) work_done (device_step device work_done eth)
        ≡ some (false, work_done, e)
      → poll_loop (suc fuel) device alloc budget work_done eth ≡ some (work_done, e)
  unfolding poll_loop
  loop_empty fuel work_done eth h r = ground arith

  loop_more :
      (fuel work_done : ℕ) (eth : Eth) {e : Eth}
      → work_done < budget
      → rx_one (alloc work_done) work_done (device_step device work_done eth)
        ≡ some (true, work_done + 1, e)
      → poll_loop (suc fuel) device alloc budget work_done eth
        ≡ poll_loop fuel device alloc budget (work_done + 1) e
  unfolding poll_loop
  loop_more fuel work_done eth h r = ground arith

  loop_ends :
      (fuel work_done : ℕ) (eth : Eth)
      → IsBufSize eth.rxbuf_size
      → work_done ≤ budget
      → budget < work_done + fuel
      → Polled budget work_done eth (poll_loop fuel device alloc budget work_done eth)
  loop_ends zero work_done eth v le lt = absurd (omega arith)
  loop_ends (suc fuel) work_done eth v le lt =
      let now : Eth = device_step device work_done eth in
      elim (dec_lt work_done budget) [
        | no full ↦ record {
          work = work_done;
          after = eth;
          packets = [];
          returns = loop_full fuel work_done eth (omega arith);
          within = le;
          same_irq = refl;
          handed_on = refl;
          counted = omega arith;
          drained = λ h. absurd (full h);
        }
        | yes more ↦ elim (ℕ_discrete (csr_read now reg_addr_start) (csr_read now reg_addr_end)) [
          | yes e ↦ record {
            work = work_done;
            after = now;
            packets = [];
            returns =
                loop_empty fuel work_done eth more (rx_one-empty (alloc work_done) work_done now e);
            within = le;
            same_irq = refl;
            handed_on = refl;
            counted = omega arith;
            drained = λ _. e;
          }
          | no ne ↦ elim (Bool-cases (alloc work_done)) [
            | inl t ↦
                Polled-step {eth' = after_receive now v} (packet now v ∷ []) (omega arith) refl refl
                  (loop_more fuel work_done eth more (rw t (rx_one-receive now v work_done ne)))
                  (loop_ends fuel (work_done + 1) (after_receive now v) v (omega arith)
                    (omega arith))
            | inr f ↦
                Polled-step {eth' = after_drop now v} [] (omega arith) refl refl
                  (loop_more fuel work_done eth more (rw f (rx_one-drop now v work_done ne)))
                  (loop_ends fuel (work_done + 1) (after_drop now v) v (omega arith) (omega arith))
          ]
        ]
      ]

  poll_ended :
      {eth : Eth} {result : Option (ℕ × Eth)}
      → Polled budget 0 eth result
      → (work : ℕ) × (after : Eth) × (packets : List (List ℕ)) × (Option.map
            (poll_finish budget)
            result
          ≡ some (work, after))
        × (work ≤ budget)
        × (length packets ≤ work)
        × (work < budget → csr_read after reg_addr_start ≡ csr_read after reg_addr_end)
        × (after.log
            ≡ (if ltb work budget then enable_irq eth.irq ∷ napi_complete work ∷ [] else [])
              ++ (map receive packets ++ eth.log))
  poll_ended {eth} {result} p = elim (dec_lt p.work budget) [
    | yes below ↦ (
      p.work,
      call (enable_irq p.after.irq) (call (napi_complete p.work) p.after),
      p.packets,
      rw p.returns (ground arith),
      p.within,
      omega (arith, p.counted),
      p.drained,
      ground (arith, p.same_irq, p.handed_on),
    )
    | no used ↦ (
      p.work,
      p.after,
      p.packets,
      rw p.returns (ground arith),
      p.within,
      omega (arith, p.counted),
      λ h. absurd (used h),
      ground (arith, p.handed_on),
    )
  ]

  -- Whatever the device does between the packets and whichever allocations fail, a poll over a
  -- legal buffer returns. It does no more than its budget and hands on at most as many packets as
  -- it counts. Below the budget the device's positions agree, and NAPI is completed before the
  -- interrupt is enabled; at the budget neither is done.
  pub napi_poll_lem :
      (eth : Eth)
      → IsBufSize eth.rxbuf_size
      → (work : ℕ) × (after : Eth) × (packets : List (List ℕ)) × (napi_poll device alloc budget eth
          ≡ some (work, after))
        × (work ≤ budget)
        × (length packets ≤ work)
        × (work < budget → csr_read after reg_addr_start ≡ csr_read after reg_addr_end)
        × (after.log
            ≡ (if ltb work budget then enable_irq eth.irq ∷ napi_complete work ∷ [] else [])
              ++ (map receive packets ++ eth.log))
  unfolding napi_poll
  napi_poll_lem eth v = poll_ended (loop_ends (suc budget) 0 eth v (omega arith) (omega arith))
