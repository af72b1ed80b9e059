-- ===== src/Spy/Service/Pool.antt =====
-- `mapWithConcurrency` of src/spy/service.ts: workers that share the index of the next item. A step
-- is what a worker does between two of its awaits, and any worker that can go on may be the next.
-- The mapper gives what its promise resolves to; a promise that rejects is not modelled.
use Prim.Native.Nat.{min}
use rootcell.Prelude.{
  ℕ, zero, suc, ◌+◌, ◌≢◌, List, [], ◌∷◌, ◌++◌, Option, none, some, ◌==◌, ltb, if◌then◌else◌,
  get_elem?, length,
}

pub data Worker : Type 0 where
  ready : Worker
  awaiting : ℕ → Worker
  finished : Worker

-- The variables that the workers share.
pub record Shared (U : Type 0) : Type 0 where
  pub next_index : ℕ
  pub results : ℕ → Option U

pub record Pool (U : Type 0) : Type 0 where
  pub shared : Shared U
  pub workers : List Worker

abbrev pub set_result : {U : Type 0} → ℕ → U → (ℕ → Option U) → ℕ → Option U
set_result index value results i = if i == index then some value else results i

abbrev pub repeat : {A : Type 0} → ℕ → A → List A
repeat zero a = []
repeat (suc n) a = a ∷ repeat n a

module _ {T U : Type 0} (items : List T) (mapper : T → U) where
  unfoldable pub resume : Worker → Shared U → Worker × Shared U
  resume ready shared =
      let taken = record shared { next_index = shared.next_index + 1 } in
      if ltb shared.next_index (length items)
      then (awaiting shared.next_index, taken)
      else (finished, taken)
  resume (awaiting index) shared = elim (get_elem? items index) [
    | none ↦ (ready, shared)
    | some item ↦ (ready, record shared { results = set_result index (mapper item) shared.results })
  ]
  resume finished shared = (finished, shared)

  abbrev pub first_pool : ℕ → Pool U
  first_pool concurrency = record {
    shared = record { next_index = 0; results = λ _. none };
    workers = repeat (min concurrency (length items)) ready;
  }

  -- The pool after a worker has gone on.
  abbrev pub resumed : Shared U → List Worker → Worker → List Worker → Pool U
  resumed shared before worker after =
      let (next, changed) = resume worker shared in
      record { shared = changed; workers = before ++ next ∷ after }

  pub data Step : Pool U → Pool U → Type 0 where
    resumes :
        (shared : Shared U) (before : List Worker) (worker : Worker) (after : List Worker)
        → worker ≢ finished
        → Step
            (record { shared = shared; workers = before ++ worker ∷ after })
            (resumed shared before worker after)

  -- What a number of steps makes of the first pool.
  pub data Runs (concurrency : ℕ) : ℕ → Pool U → Type 0 where
    starts : Runs concurrency 0 (first_pool concurrency)
    goes_on :
        (steps : ℕ) (pool next : Pool U)
        → Runs concurrency steps pool
        → Step pool next
        → Runs concurrency (steps + 1) next
