-- ===== src/Instance/State/Allocation.antt =====
-- The loop of `allocateState` takes the first free network of the pool.
use rootcell.Prelude.{
  ℕ, zero, suc, ◌+◌, ◌-◌, ◌*◌, ◌%◌, ◌≤◌, ◌<◌, ◌≡◌, refl, true, false, List, arith, Text, ltb, leb,
  Option, none, some, Bool-cases, inl, inr, ◌⊎◌,
}
use rootcell.Instance.Ipv4.{format_ipv4}
use rootcell.Instance.State.{InstanceState, contains, state_of_network, allocate_from}

-- `network` is the first network from `start` on whose text is not among the used ones.
pub record IsFirstFree (used : List Text) (start end network : ℕ) : Type 0 where
  pub above : start ≤ network
  pub below : network ≤ end
  pub step : (network - start) % 256 ≡ 0
  pub free : contains used (format_ipv4 network) ≡ false
  pub earlier :
      (n : ℕ)
      → start ≤ n
      → n < network
      → (n - start) % 256 ≡ 0
      → contains used (format_ipv4 n) ≡ true

-- Every network from `start` to `end` is used.
abbrev pub IsExhausted : List Text → ℕ → ℕ → Type 0
IsExhausted used start end =
    (n : ℕ) → start ≤ n → n ≤ end → (n - start) % 256 ≡ 0 → contains used (format_ipv4 n) ≡ true

-- A network of the pool is its first one, or one of the pool that starts behind it.
first_or_later :
    (start n : ℕ)
    → start ≤ n
    → (n - start) % 256 ≡ 0
    → (n ≡ start) ⊎ ((start + 256 ≤ n) × ((n - (start + 256)) % 256 ≡ 0))
first_or_later start n h k = elim (Bool-cases (ltb start n)) [
  | inl more ↦ inr (ground arith, ground arith)
  | inr same ↦ inl (ground arith)
]

module _ (used : List Text) (start end : ℕ) where
  IsFirstFree-here :
      start ≤ end → contains used (format_ipv4 start) ≡ false → IsFirstFree used start end start
  IsFirstFree-here inside free = record {
    above = omega arith;
    below = inside;
    step = omega arith;
    free = free;
    earlier = λ n a b _. absurd (omega arith);
  }

  IsFirstFree-later :
      {n : ℕ}
      → contains used (format_ipv4 start) ≡ true
      → IsFirstFree used (start + 256) end n
      → IsFirstFree used start end n
  IsFirstFree-later {n} taken f = record {
    above = omega (arith, f.above);
    below = f.below;
    step = omega (arith, f.above, f.step);
    free = f.free;
    earlier = λ m a b k. elim (first_or_later start m a k) [
      | inl e ↦ rw e taken
      | inr (far, k') ↦ f.earlier m far b k'
    ];
  }

  IsExhausted-later :
      contains used (format_ipv4 start) ≡ true
      → IsExhausted used (start + 256) end
      → IsExhausted used start end
  IsExhausted-later taken x n a b k = elim (first_or_later start n a k) [
    | inl e ↦ rw e taken
    | inr (far, k') ↦ x n far b k'
  ]

-- What the loop returns: the state of the first free network, or nothing if all are used. The
-- fuel suffices if the pool holds fewer networks.
unfoldable pub Found : List Text → ℕ → ℕ → Option InstanceState → Type 0
Found used start end none = IsExhausted used start end
Found used start end (some state) =
    (n : ℕ) × IsFirstFree used start end n × (state ≡ state_of_network n)

Found-later :
    (used : List Text) (start end : ℕ) (r : Option InstanceState)
    → contains used (format_ipv4 start) ≡ true
    → Found used (start + 256) end r
    → Found used start end r
unfolding Found
Found-later used start end none taken h = IsExhausted-later used start end taken h
Found-later used start end (some state) taken (n, f, e) =
    (n, IsFirstFree-later used start end taken f, e)

pub allocate_from-Found :
    (fuel start end : ℕ) (used : List Text)
    → end < start + 256 * fuel
    → Found used start end (allocate_from fuel start end used)
unfolding allocate_from Found
allocate_from-Found zero start end used h = λ n a b k. absurd (omega arith)
allocate_from-Found (suc fuel) start end used h = elim (Bool-cases (leb start end)) [
  | inr past ↦ rw past (λ n a b k. absurd (ground arith))
  | inl inside ↦ elim (Bool-cases (contains used (format_ipv4 start))) [
    | inl taken ↦
        rw (inside, taken)
          (Found-later used start end _ taken
            (allocate_from-Found fuel (start + 256) end used (omega arith)))
    | inr free ↦
        rw (inside, free) (start, IsFirstFree-here used start end (ground arith) free, refl)
  ]
]
