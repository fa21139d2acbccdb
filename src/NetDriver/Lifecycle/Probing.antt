-- ===== src/NetDriver/Lifecycle/Probing.antt =====
-- Which buffer sizes are accepted, and that a failing probe keeps nothing.
use native.Mathlib.Decide.{ℕ_discrete}
use rvcomp.Base.{
  ℕ, ◌^◌, ◌≤◌, ◌≡◌, refl, ◌≢◌, ◌↔◌, ◌⊎◌, inl, inr, Bool, true, false, Option, none, some, List, [],
  ◌∷◌, arith, ◌==◌, if◌then◌else◌, Bool-cases, Option-cases,
}
use rvcomp.Bits.{bit_and_mask}
use rvcomp.NetDriver.Tx.Queue.{IsBufSize, IsBufSize-aligned}
use rvcomp.NetDriver.State.{
  register_netdev, set_mac, random_mac, Eth, Call, alloc_netdev, free_netdev, napi_add, napi_del,
  csr_read, reg_addr_start,
}
use rvcomp.NetDriver.Lifecycle.{
  probe, ProbeEnv, Probed, probe_register, validate_buf_size, err_free, map_error, find_irq,
  probe_mapped, probe_sized, probe_found,
}

-- Whether the network device is allocated, and NAPI added, after the calls of a log.
abbrev pub netdev_held : List Call → Bool
netdev_held [] = false
netdev_held (alloc_netdev ∷ log) = true
netdev_held (free_netdev ∷ log) = false
netdev_held (c ∷ log) = netdev_held log

abbrev pub napi_held : List Call → Bool
napi_held [] = false
napi_held (napi_add ∷ log) = true
napi_held (napi_del ∷ log) = false
napi_held (c ∷ log) = napi_held log

-- A failed probe: an error, no device, and everything given back.
pub record Failed (p : Probed) : Type 0 where
  pub error : p.ret ≢ 0
  pub no_device : p.device ≡ none
  pub netdev_freed : netdev_held p.log ≡ false
  pub napi_deleted : napi_held p.log ≡ false

-- A successful one: a device with legal buffers, its start register cleared, NAPI added.
pub record Succeeded (p : Probed) : Type 0 where
  pub eth : Eth
  pub no_error : p.ret ≡ 0
  pub has_device : p.device ≡ some eth
  pub rx_size : IsBufSize eth.rxbuf_size
  pub tx_size : IsBufSize eth.txbuf_size
  pub cleared : csr_read eth reg_addr_start ≡ 0
  pub netdev_kept : netdev_held p.log ≡ true
  pub napi_kept : napi_held p.log ≡ true

err_free-Failed :
    (ret : ℕ) (log : List Call) → ret ≢ 0 → napi_held log ≡ false → Failed (err_free ret log)
err_free-Failed ret log ne h = record {
  error = ne;
  no_device = refl;
  netdev_freed = refl;
  napi_deleted = h;
}

mac_kept :
    (b : Bool)
    → netdev_held
        (register_netdev ∷ napi_add ∷ (if b then set_mac else random_mac) ∷ alloc_netdev ∷ [])
      ≡ true
mac_kept true = refl
mac_kept false = refl

probe_register_lem :
    (env : ProbeEnv) (rx tx irq : ℕ)
    → IsBufSize rx
    → IsBufSize tx
    → Failed (probe_register env rx tx irq) ⊎ Succeeded (probe_register env rx tx irq)
unfolding probe_register
probe_register_lem env rx tx irq hr ht = elim (ℕ_discrete env.register_error 0) [
  | no ne ↦
      let f : (env.register_error == 0) ≡ false = ground arith in
      rw f (inl (err_free-Failed env.register_error _ ne refl))
  | yes e ↦ rw e (
      inr (record {
        eth = _;
        no_error = refl;
        has_device = refl;
        rx_size = hr;
        tx_size = ht;
        cleared = refl;
        netdev_kept = mac_kept env.mac_valid;
        napi_kept = refl;
      }))
]

probe_mapped_lem :
    (env : ProbeEnv) (rx tx : ℕ)
    → IsBufSize rx
    → IsBufSize tx
    → Failed (probe_mapped env rx tx) ⊎ Succeeded (probe_mapped env rx tx)
probe_mapped_lem env rx tx hr ht = elim (ℕ_discrete (map_error env) 0) [
  | no ne ↦
      let f : (map_error env == 0) ≡ false = ground arith in
      rw f (inl (err_free-Failed (map_error env) _ ne refl))
  | yes e ↦
      let t : (map_error env == 0) ≡ true = ground arith in
      elim (Option-cases (find_irq env)) [
        | inl none_found ↦ rw (t, none_found) (inl (err_free-Failed 19 _ (omega arith) refl))
        | inr (irq, found) ↦ rw (t, found) (probe_register_lem env rx tx irq hr ht)
      ]
]

module _ (is_power_of_2 : ℕ → Bool)
    (power : (n : ℕ) → is_power_of_2 n ≡ true → (k : ℕ) × (n ≡ 2 ^ k))
    (is_power : (k : ℕ) → is_power_of_2 (2 ^ k) ≡ true) where
  accepted :
      (size : ℕ) {s : ℕ}
      → validate_buf_size is_power_of_2 size ≡ some s
      → (s ≡ size) × (2048 ≤ size) × (size ≤ 2 ^ 26) × (is_power_of_2 size ≡ true)
  unfolding validate_buf_size
  accepted size e = ground arith

  validate_sound :
      (size : ℕ) {s : ℕ}
      → validate_buf_size is_power_of_2 size ≡ some s
      → (s ≡ size) × IsBufSize size
  validate_sound size e =
      let a = accepted size e in
      let p = power size a.3 in
      (a.0, record { log2 = p.0; is_power = p.1; lower = a.1; upper = a.2 })

  validate_complete : (size : ℕ) → IsBufSize size → validate_buf_size is_power_of_2 size ≡ some size
  unfolding validate_buf_size
  validate_complete size v =
      let p : is_power_of_2 size ≡ true = rw v.is_power (is_power v.log2) in
      ground (arith, p, v.lower, v.upper, bit_and_mask 2 size, IsBufSize-aligned v)

  -- With is_power_of_2 true of the powers of two alone, a size is accepted, as it is, exactly when
  -- it is a power of two from 2 KiB to 64 MiB.
  pub validate_buf_size_iff :
      (size : ℕ) → (validate_buf_size is_power_of_2 size ≡ some size) ↔ IsBufSize size
  validate_buf_size_iff size = (λ e. (validate_sound size e).1, validate_complete size)

  legal : (size : ℕ) {s : ℕ} → validate_buf_size is_power_of_2 size ≡ some s → IsBufSize s
  legal size e = let v = validate_sound size e in rw v.0 v.1

  probe_sized_lem :
      (env : ProbeEnv) (rx tx : ℕ) (r t : Option ℕ)
      → validate_buf_size is_power_of_2 rx ≡ r
      → validate_buf_size is_power_of_2 tx ≡ t
      → Failed (probe_sized env r t) ⊎ Succeeded (probe_sized env r t)
  unfolding probe_sized
  probe_sized_lem env rx tx none t er et = inl (err_free-Failed 22 _ (omega arith) refl)
  probe_sized_lem env rx tx (some rx') none er et = inl (err_free-Failed 22 _ (omega arith) refl)
  probe_sized_lem env rx tx (some rx') (some tx') er et =
      probe_mapped_lem env rx' tx' (legal rx er) (legal tx et)

  probe_found_lem :
      (env : ProbeEnv) (found : Option (ℕ × ℕ))
      → Failed (probe_found is_power_of_2 env found)
        ⊎ Succeeded (probe_found is_power_of_2 env found)
  unfolding probe_found
  probe_found_lem env none = inl (err_free-Failed 19 _ (omega arith) refl)
  probe_found_lem env (some (rx, tx)) = probe_sized_lem env rx tx _ _ refl refl

  -- With is_power_of_2 true of the powers of two alone, every probe either fails with an error
  -- and gives back the network device and NAPI, or leaves a device with two legal buffer sizes
  -- and a cleared receive position.
  pub probe_lem :
      (env : ProbeEnv) → Failed (probe is_power_of_2 env) ⊎ Succeeded (probe is_power_of_2 env)
  unfolding probe
  probe_lem env = elim (Bool-cases env.alloc_ok) [
    | inl t ↦ simp t (probe_found_lem env _)
    | inr f ↦ rw f (
        inl (record {
          error = omega arith;
          no_device = refl;
          netdev_freed = refl;
          napi_deleted = refl;
        }))
  ]
