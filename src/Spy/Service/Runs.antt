-- ===== src/Spy/Service/Runs.antt =====
-- Every order in which the workers go on gives the same results.
use Prim.Native.Nat.{min}
use rootcell.Prelude.{
  ℕ, suc, ◌+◌, ◌*◌, ◌≤◌, ◌≡◌, refl, sym, ap, subst, ◌∙◌, true, false, List, [], ◌∷◌, ◌++◌, map,
  Option, some, ltb, get_elem?, length, any, arith, Bool-cases, inl, inr, ◌⊎◌,
}
use rootcell.Spy.Service.Pool.{
  Worker, ready, awaiting, finished, Shared, Pool, resume, Step, resumes, Runs, starts, goes_on,
}
use rootcell.Spy.Service.Invariant.{
  is_finished, awaits, get_elem-beyond, length-middle, weights-repeat, length-repeat, any-repeat,
  ++-assoc, bool_apart, ready-finished, awaiting-finished, IsMapped, Holds, work_left, Step-Holds,
  Step-work_left,
}

module _ {T U : Type 0} (items : List T) (mapper : T → U) where
  Runs-Holds :
      (concurrency steps : ℕ) (pool : Pool U)
      → Runs items mapper concurrency steps pool
      → Holds items mapper pool
  Runs-Holds concurrency _ _ starts =
      (λ j lt. absurd (omega arith), λ e. absurd (cc (any-repeat (min concurrency (length items)))))
  Runs-Holds concurrency _ _
        (goes_on steps pool next past (resumes shared before worker after running)) =
      Step-Holds items mapper shared before worker after (Runs-Holds concurrency steps _ past)

  Runs-work_left :
      (concurrency steps : ℕ) (pool : Pool U)
      → Runs items mapper concurrency steps pool
      → steps + work_left items mapper pool ≡ 2 * length items + min concurrency (length items)
  Runs-work_left concurrency _ _ starts =
      omega (arith, weights-repeat (min concurrency (length items)))
  Runs-work_left concurrency _ _
        (goes_on steps pool next past (resumes shared before worker after running)) =
      omega (
        arith,
        Runs-work_left concurrency steps _ past,
        Step-work_left items mapper shared before worker after running,
      )

  Runs-length :
      (concurrency steps : ℕ) (pool : Pool U)
      → Runs items mapper concurrency steps pool
      → length pool.workers ≡ min concurrency (length items)
  Runs-length concurrency _ _ starts = length-repeat (min concurrency (length items))
  Runs-length concurrency _ _
        (goes_on steps pool next past (resumes shared before worker after running)) =
      length-middle before (resume items mapper worker shared).0 worker after
      ∙ Runs-length concurrency steps _ past

  -- A pool goes on, or all its workers are finished.
  pool-cases :
      (shared : Shared U) (before workers : List Worker)
      → ((next : Pool U) × Step items mapper
            (record { shared = shared; workers = before ++ workers })
            next)
        ⊎ (((workers ≡ []) ⊎ (any is_finished workers ≡ true))
            × ((j : ℕ) → any (awaits j) workers ≡ false))
  pool-cases shared before [] = inr (inl refl, λ j. refl)
  pool-cases shared before (ready ∷ workers) =
      inl (_, resumes shared before ready workers (λ e. ready-finished e))
  pool-cases shared before (awaiting index ∷ workers) =
      inl (_, resumes shared before (awaiting index) workers (λ e. awaiting-finished index e))
  pool-cases shared before (finished ∷ workers) =
      elim (pool-cases shared (before ++ finished ∷ []) workers) [
        | inl (next, step) ↦ inl (
          next,
          subst (λ ws. Step items mapper (record { shared = shared; workers = ws }) next)
              (++-assoc before (finished ∷ []) workers) step,
        )
        | inr (_, none_awaits) ↦ inr (inr refl, none_awaits)
      ]

  -- The array of the results.
  abbrev pub collected : (ℕ → Option U) → ℕ → List T → List (Option U)
  collected results n [] = []
  collected results n (x ∷ xs) = results n ∷ collected results (suc n) xs

  collected-eq :
      (results : ℕ → Option U) (n : ℕ) (xs : List T)
      → ((j : ℕ) (item : T) → get_elem? xs j ≡ some item → results (n + j) ≡ some (mapper item))
      → collected results n xs ≡ map (λ x. some (mapper x)) xs
  collected-eq results n [] h = refl
  collected-eq results n (x ∷ xs) h =
      let first : results n ≡ some (mapper x) =
        subst (λ i. results i ≡ some (mapper x)) (omega arith) (h 0 x refl) in
      rw
        (
          first,
          collected-eq results (suc n) xs (λ j item e.
              subst (λ i. results i ≡ some (mapper item)) (omega arith) (h (suc j) item e)),
        )
        refl

  finished-IsMapped :
      (concurrency steps : ℕ) (pool : Pool U)
      → 1 ≤ concurrency
      → Runs items mapper concurrency steps pool
      → (pool.workers ≡ []) ⊎ (any is_finished pool.workers ≡ true)
      → ((j : ℕ) → any (awaits j) pool.workers ≡ false)
      → (j : ℕ) → IsMapped items mapper pool.shared.results j
  finished-IsMapped concurrency steps pool some_worker runs (inl nobody) idle j item e = absurd (
      get_elem-beyond items j item
        (omega (arith, Runs-length concurrency steps pool runs, ap length nobody)) e)
  finished-IsMapped concurrency steps pool some_worker runs (inr ended) idle j item e =
      let (taken, over) = Runs-Holds concurrency steps pool runs in
      elim (Bool-cases (ltb j pool.shared.next_index)) [
        | inr beyond ↦ absurd (get_elem-beyond items j item (ground (arith, over ended)) e)
        | inl below ↦ elim (taken j (ground arith)) [
          | inl awaited ↦ absurd (bool_apart (sym (idle j) ∙ awaited))
          | inr mapped ↦ mapped item e
        ]
      ]

  -- With a concurrency of at least one, whatever worker goes on at each step, a run has at most two
  -- steps for each item and one for each worker, and at each point of it some worker can go on, or
  -- the results are those of mapping the items one after the other.
  pub map_with_concurrency-results :
      (concurrency steps : ℕ) (pool : Pool U)
      → 1 ≤ concurrency
      → Runs items mapper concurrency steps pool
      → (steps ≤ 2 * length items + min concurrency (length items))
        × (((next : Pool U) × Step items mapper pool next)
            ⊎ (collected pool.shared.results 0 items ≡ map (λ x. some (mapper x)) items))
  map_with_concurrency-results concurrency steps pool some_worker runs = (
    omega (arith, Runs-work_left concurrency steps pool runs),
    elim (pool-cases pool.shared [] pool.workers) [
      | inl next ↦ inl next
      | inr (ended, idle) ↦ inr (
          collected-eq pool.shared.results 0 items (λ j item e.
            subst (λ i. pool.shared.results i ≡ some (mapper item)) (omega arith)
              (finished-IsMapped concurrency steps pool some_worker runs ended idle j item e)))
    ],
  )
