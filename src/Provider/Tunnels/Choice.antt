-- ===== src/Provider/Tunnels/Choice.antt =====
-- `chooseLocalPort` returns the first free port of its range, or none is free.
use rootcell.Prelude.{
  ℕ, zero, suc, ◌+◌, ◌≡◌, ◌≤◌, ◌<◌, refl, subst, Bool, true, false, ◌||◌, none, some, ◌==◌, ltb, ok,
  err, arith, inl, inr, ◌⊎◌, Bool-cases,
}
use rootcell.Provider.Tunnels.{no_local_port, scan_ports, choose_local_port}

module _ (port_available : ℕ → Bool) where
  -- What a scan of `left` ports from `start` on finds.
  abbrev pub IsFirstFreePort : ℕ → ℕ → ℕ → Type 0
  IsFirstFreePort start left port =
      (start ≤ port)
      × (port < start + left)
      × (port ≤ 65535)
      × (port_available port ≡ true)
      × ((p : ℕ) → start ≤ p → p < port → port_available p ≡ false)

  abbrev pub HasNoFreePort : ℕ → ℕ → Type 0
  HasNoFreePort start left =
      (p : ℕ) → start ≤ p → p < start + left → p ≤ 65535 → port_available p ≡ false

  first_or_later : (start p : ℕ) → start ≤ p → (start ≡ p) ⊎ (start + 1 ≤ p)
  first_or_later start p h = elim (Bool-cases (ltb start p)) [
    | inl more ↦ inr (ground arith)
    | inr same ↦ inl (ground arith)
  ]

  taken_first :
      (start p : ℕ)
      → port_available start ≡ false
      → (start + 1 ≤ p → port_available p ≡ false)
      → start ≤ p
      → port_available p ≡ false
  taken_first start p taken later h = elim (first_or_later start p h) [
    | inl same ↦ subst (λ q. port_available q ≡ false) same taken
    | inr more ↦ later more
  ]

  scan_ports_lem :
      (left start : ℕ)
      → ((port : ℕ) × IsFirstFreePort start left port
          × (scan_ports port_available left start ≡ some port))
        ⊎ (HasNoFreePort start left × (scan_ports port_available left start ≡ none))
  unfolding scan_ports
  scan_ports_lem zero start = inr (λ p a b _. absurd (omega arith), refl)
  scan_ports_lem (suc left) start = elim (Bool-cases (ltb 65535 start)) [
    | inl beyond ↦ inr (λ p a b c. absurd (ground arith), rw (scan_ports, beyond) refl)
    | inr within ↦ elim (Bool-cases (port_available start)) [
      | inl free ↦ inl (
        start,
        (omega arith, omega arith, ground arith, free, λ p a b. absurd (omega arith)),
        rw (scan_ports, within, free) refl,
      )
      | inr taken ↦ elim (scan_ports_lem left (start + 1)) [
        | inl (port, (above, below, small, free, earlier), e) ↦ inl (
          port,
          (
            omega arith,
            omega arith,
            small,
            free,
            λ p a b. taken_first start p taken (λ more. earlier p more b) a,
          ),
          rw (scan_ports, within, taken) e,
        )
        | inr (nothing, e) ↦ inr (
          λ p a b c. taken_first start p taken (λ more. nothing p more (omega arith) c) a,
          rw (scan_ports, within, taken) e,
        )
      ]
    ]
  ]

  -- For a preferred port from 1 to 65535 and a positive limit, the result is the first free port
  -- from the preferred one on, within the limit and below 65536, or the error that none of these
  -- ports is free.
  pub choose_local_port_lem :
      (preferred_port scan_limit : ℕ)
      → 0 < preferred_port
      → preferred_port ≤ 65535
      → 0 < scan_limit
      → ((port : ℕ) × IsFirstFreePort preferred_port scan_limit port
          × (choose_local_port port_available preferred_port scan_limit ≡ ok port))
        ⊎ (HasNoFreePort preferred_port scan_limit
            × (choose_local_port port_available preferred_port scan_limit
                ≡ err (no_local_port preferred_port)))
  unfolding choose_local_port
  choose_local_port_lem preferred_port scan_limit positive small limit =
      let valid : (preferred_port == 0 || ltb 65535 preferred_port) ≡ false = ground arith in
      let some_rounds : (scan_limit == 0) ≡ false = ground arith in
      elim (scan_ports_lem scan_limit preferred_port) [
        | inl (port, first, e) ↦
            inl (port, first, rw (choose_local_port, valid, some_rounds, e) refl)
        | inr (nothing, e) ↦ inr (nothing, rw (choose_local_port, valid, some_rounds, e) refl)
      ]
