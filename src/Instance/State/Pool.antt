-- ===== src/Instance/State/Pool.antt =====
-- What `allocateState` returns: the first free network of the pool, and when it can be read back.
use rootcell.Prelude.{
  or_else, ℕ, ◌+◌, ◌*◌, ◌/◌, ◌%◌, ◌^◌, ◌≤◌, ◌<◌, ◌≡◌, ◌↔◌, refl, sym, ap, ◌∙◌, true, List, arith,
  Text, ok, err, >>=-eq-ok, codes, Option, none, some, inl, inr, ◌⊎◌,
}
use rootcell.Instance.Error.{pool_exhausted}
use rootcell.Instance.Ipv4.{parse_ipv4, format_ipv4, is_private_ipv4}
use rootcell.Instance.Ipv4.RoundTrip.{parse-format, format-parse}
use rootcell.Instance.State.{
  InstanceState, NetworkEnv, pool_from_env, pool_fuel, allocate_state, validate_state,
}
use rootcell.Instance.State.Validity.{network_state, state_of_network_lem, validate_state_iff}
use rootcell.Instance.State.Allocation.{IsFirstFree, IsExhausted, Found, allocate_from-Found}

pub record IsPool (start end : ℕ) : Type 0 where
  pub start_whole : start % 256 ≡ 0
  pub end_whole : end % 256 ≡ 0
  pub start_private : is_private_ipv4 start ≡ true
  pub end_private : is_private_ipv4 end ≡ true
  pub ordered : start ≤ end
  pub fits : end < 2 ^ 32

pub pool_from_env-IsPool :
    (env : NetworkEnv) {start end : ℕ} → pool_from_env env ≡ ok (start, end) → IsPool start end
unfolding pool_from_env
pool_from_env-IsPool env h =
    let (s, ps, h₁) = >>=-eq-ok (parse_ipv4 (or_else env.pool_start (codes "192.168.100.0"))) _ h in
    let (e, pe, h₂) = >>=-eq-ok (parse_ipv4 (or_else env.pool_end (codes "192.168.254.0"))) _ h₁ in
    let (text, fits) = format-parse _ pe in
    record {
      start_whole = ground arith;
      end_whole = ground arith;
      start_private = ground arith;
      end_private = ground arith;
      ordered = ground arith;
      fits = ground arith;
    }

pool_fuel_enough : (start end : ℕ) → end < start + 256 * pool_fuel start end
pool_fuel_enough start end = omega arith

network_of_pool :
    (used : List Text) {start end n : ℕ}
    → IsPool start end
    → IsFirstFree used start end n
    → (n % 256 ≡ 0) × (n < 2 ^ 32)
network_of_pool used p f = omega (arith, p.start_whole, p.fits, f.above, f.below, f.step)

-- `allocateState` takes the first network of the pool that no instance uses, in the order of the
-- addresses, and it fails only if every network of the pool is used.
pub allocate_state_lem :
    (env : NetworkEnv) (used : List Text) (start end : ℕ)
    → pool_from_env env ≡ ok (start, end)
    → ((n : ℕ) × IsFirstFree used start end n × (allocate_state env used ≡ ok (network_state n)))
      ⊎ (IsExhausted used start end × (allocate_state env used ≡ err (pool_exhausted start end)))
unfolding allocate_state Found
allocate_state_lem env used start end h = rw h (
    from_found _
      (allocate_from-Found (pool_fuel start end) start end used (pool_fuel_enough start end)))
  where
    from_found :
        (r : Option InstanceState)
        → Found used start end r
        → ((n : ℕ) × IsFirstFree used start end n
            × (elim r [ none ↦ err (pool_exhausted start end) | some s ↦ ok s ]
                ≡ ok (network_state n)))
          ⊎ (IsExhausted used start end
              × (elim r [ none ↦ err (pool_exhausted start end) | some s ↦ ok s ]
                  ≡ err (pool_exhausted start end)))
    from_found none x = inr (x, refl)
    from_found (some s) (n, f, e) = inl (
      n,
      f,
      ap ok (e ∙ state_of_network_lem n (network_of_pool used (pool_from_env-IsPool env h) f).0),
    )

-- The network behind an allocated state.
pub allocate_state-eq-ok :
    (env : NetworkEnv) (used : List Text) (start end : ℕ) {state : InstanceState}
    → pool_from_env env ≡ ok (start, end)
    → allocate_state env used ≡ ok state
    → (n : ℕ) × IsFirstFree used start end n
      × (n % 256 ≡ 0)
      × (n < 2 ^ 32)
      × (state ≡ network_state n)
allocate_state-eq-ok env used start end hp h = elim (allocate_state_lem env used start end hp) [
  | inl (n, f, e) ↦
      let (whole, fits) = network_of_pool used (pool_from_env-IsPool env hp) f in
      (n, f, whole, fits, cc)
  | inr (x, e) ↦ absurd (cc)
]

network_state-injective :
    {n m : ℕ} → n < 2 ^ 32 → m < 2 ^ 32 → format_ipv4 n ≡ format_ipv4 m → n ≡ m
network_state-injective {n} {m} hn hm h = cc (parse-format n hn, parse-format m hm, ap parse_ipv4 h)

-- A network of a pool whose two ends lie in one block of RFC1918 space is private.
private_between :
    (start n end : ℕ)
    → start ≤ n
    → n ≤ end
    → start / 2 ^ 24 ≡ end / 2 ^ 24
    → end < 2 ^ 32
    → is_private_ipv4 start ≡ true
    → is_private_ipv4 end ≡ true
    → is_private_ipv4 n ≡ true
unfolding is_private_ipv4
private_between start n end a b same fits hs he = ground arith

-- A state that `allocateState` returns is accepted when it is read back exactly if its network
-- lies in private space.
pub validate-allocate_state_iff :
    (env : NetworkEnv) (used : List Text) (name : Text) (start end : ℕ) (state : InstanceState)
    → pool_from_env env ≡ ok (start, end)
    → allocate_state env used ≡ ok state
    → (n : ℕ) × IsFirstFree used start end n
      × (state ≡ network_state n)
      × ((validate_state name state ≡ ok state) ↔ (is_private_ipv4 n ≡ true))
validate-allocate_state_iff env used name start end state hp h =
    let (n, f, whole, fits, e) = allocate_state-eq-ok env used start end hp h in
    (n, f, e, (private_of n fits e, accepted n whole fits e))
  where
    private_of :
        (n : ℕ)
        → n < 2 ^ 32
        → state ≡ network_state n
        → validate_state name state ≡ ok state
        → is_private_ipv4 n ≡ true
    private_of n fits e v =
        let (_, (m, priv, e')) = (validate_state_iff name state state).0 v in
        let same = network_state-injective fits priv.fits (ap (λ s. s.subnet) (sym e ∙ e')) in
        rw same priv.private_space

    accepted :
        (n : ℕ)
        → n % 256 ≡ 0
        → n < 2 ^ 32
        → state ≡ network_state n
        → is_private_ipv4 n ≡ true
        → validate_state name state ≡ ok state
    accepted n whole fits e priv =
        (validate_state_iff name state state).1
          (refl, (n, record { whole = whole; fits = fits; private_space = priv }, e))

-- With a pool inside one /8 block, as the default pool is, every allocated state is accepted when
-- it is read back.
pub validate-allocate_state :
    (env : NetworkEnv) (used : List Text) (name : Text) (start end : ℕ) (state : InstanceState)
    → pool_from_env env ≡ ok (start, end)
    → start / 2 ^ 24 ≡ end / 2 ^ 24
    → allocate_state env used ≡ ok state
    → validate_state name state ≡ ok state
validate-allocate_state env used name start end state hp block h =
    let p = pool_from_env-IsPool env hp in
    let (n, f, e, accept) = validate-allocate_state_iff env used name start end state hp h in
    accept.1
      (private_between start n end f.above f.below block p.fits p.start_private p.end_private)
