-- ===== src/Spy/Service/Invariant.antt =====
-- What holds in every pool of workers, and the work that each step takes off.
use rootcell.Prelude.{
  ℕ, zero, suc, ◌+◌, ◌-◌, ◌*◌, ◌≤◌, ◌<◌, ◌≡◌, ◌≢◌, refl, sym, ap, ◌∙◌, Bool, true, false, ◌||◌,
  List, [], ◌∷◌, ◌++◌, Option, none, some, ◌==◌, ltb, get_elem?, length, any, arith, Bool-cases,
  Option-cases, inl, inr, ◌⊎◌,
}
use rootcell.Spy.Service.Pool.{
  Worker, ready, awaiting, finished, Shared, Pool, set_result, repeat, resume, resumed,
}

abbrev pub is_finished : Worker → Bool
is_finished finished = true
is_finished _ = false

abbrev pub awaits : ℕ → Worker → Bool
awaits j (awaiting i) = i == j
awaits j _ = false

abbrev pub weight : Worker → ℕ
weight ready = 1
weight (awaiting i) = 2
weight finished = 0

abbrev pub weights : List Worker → ℕ
weights [] = 0
weights (worker ∷ workers) = weight worker + weights workers

pub any-append :
    {A : Type 0} (p : A → Bool) (xs : List A) (y : A) (ys : List A)
    → any p (xs ++ y ∷ ys) ≡ (p y || any p (xs ++ ys))
any-append p [] y ys = refl
any-append p (x ∷ xs) y ys = ground (arith, any-append p xs y ys)

pub any-swap :
    {A : Type 0} (p : A → Bool) (xs : List A) (y z : A) (ys : List A)
    → p y ≡ p z
    → any p (xs ++ y ∷ ys) ≡ any p (xs ++ z ∷ ys)
any-swap p xs y z ys e =
    any-append p xs y ys ∙ ap (λ b. b || any p (xs ++ ys)) e ∙ sym (any-append p xs z ys)

pub get_elem-beyond :
    {A : Type 0} (xs : List A) (i : ℕ) (x : A) → length xs ≤ i → get_elem? xs i ≡ some x → ⊥
get_elem-beyond [] i x h e = cc
get_elem-beyond (y ∷ xs) zero x h e = omega arith
get_elem-beyond (y ∷ xs) (suc i) x h e = get_elem-beyond xs i x (omega arith) e

pub weights-append :
    (xs : List Worker) (y : Worker) (ys : List Worker)
    → weights (xs ++ y ∷ ys) ≡ weight y + weights (xs ++ ys)
weights-append [] y ys = refl
weights-append (x ∷ xs) y ys = omega (arith, weights-append xs y ys)

pub length-middle :
    (xs : List Worker) (y z : Worker) (ys : List Worker)
    → length (xs ++ y ∷ ys) ≡ length (xs ++ z ∷ ys)
length-middle [] y z ys = refl
length-middle (x ∷ xs) y z ys = ap suc (length-middle xs y z ys)

pub weights-repeat : (n : ℕ) → weights (repeat n ready) ≡ n
weights-repeat zero = refl
weights-repeat (suc n) = omega (arith, weights-repeat n)

pub length-repeat : (n : ℕ) → length (repeat n ready) ≡ n
length-repeat zero = refl
length-repeat (suc n) = omega (arith, length-repeat n)

pub any-repeat : (n : ℕ) → any is_finished (repeat n ready) ≡ false
any-repeat zero = refl
any-repeat (suc n) = any-repeat n

pub ++-assoc : {A : Type 0} (xs ys zs : List A) → (xs ++ ys) ++ zs ≡ xs ++ (ys ++ zs)
++-assoc [] ys zs = refl
++-assoc (x ∷ xs) ys zs = ap (λ r. x ∷ r) (++-assoc xs ys zs)

pub bool_apart : false ≡ true → ⊥
bool_apart e = cc

pub ready-finished : ready ≡ finished → ⊥
ready-finished e = cc

pub awaiting-finished : (index : ℕ) → awaiting index ≡ finished → ⊥
awaiting-finished index e = cc

module _ {T U : Type 0} (items : List T) (mapper : T → U) where
  -- The result of an index is there.
  abbrev pub IsMapped : (ℕ → Option U) → ℕ → Type 0
  IsMapped results j = (item : T) → get_elem? items j ≡ some item → results j ≡ some (mapper item)

  -- Each index that was taken is awaited or has its result, and a worker that is finished has found
  -- no index left.
  abbrev pub Holds : Pool U → Type 0
  Holds pool =
      ((j : ℕ)
        → j < pool.shared.next_index
        → (any (awaits j) pool.workers ≡ true) ⊎ IsMapped pool.shared.results j)
      × (any is_finished pool.workers ≡ true → length items ≤ pool.shared.next_index)

  abbrev pub work_left : Pool U → ℕ
  work_left pool = 2 * (length items - pool.shared.next_index) + weights pool.workers

  -- A worker that has its result.
  set_result-IsMapped :
      (index : ℕ) (item : T) (results : ℕ → Option U) (j : ℕ)
      → get_elem? items index ≡ some item
      → (index ≡ j) ⊎ IsMapped results j
      → IsMapped (set_result index (mapper item) results) j
  set_result-IsMapped index item results j e h other f = elim (Bool-cases (j == index)) [
    | inl same ↦
        let place : j ≡ index = ground arith in
        let found : some item ≡ some other = sym e ∙ sym (ap (get_elem? items) place) ∙ f in
        rw same (ap (map_mapper) found)
    | inr differs ↦ elim h [
      | inl place ↦ absurd (ground (arith, place))
      | inr mapped ↦ rw differs (mapped other f)
    ]
  ]
    where
      map_mapper : Option T → Option U
      map_mapper none = none
      map_mapper (some x) = some (mapper x)

  take-Holds :
      (shared : Shared U) (before after : List Worker)
      → Holds (record { shared = shared; workers = before ++ ready ∷ after })
      → Holds (record {
        shared = record shared { next_index = shared.next_index + 1 };
        workers = before ++ awaiting shared.next_index ∷ after;
      })
  take-Holds shared before after (taken, ended) = (
    λ j lt. elim (Bool-cases (shared.next_index == j)) [
      | inl new ↦
          inl (any-append (awaits j) before (awaiting shared.next_index) after ∙ rw new refl)
      | inr old ↦ elim (taken j (ground arith)) [
        | inl awaited ↦
            inl (any-swap (awaits j) before (awaiting shared.next_index) ready after old ∙ awaited)
        | inr mapped ↦ inr mapped
      ]
    ],
    λ e. omega (
      arith,
      ended (any-swap is_finished before ready (awaiting shared.next_index) after refl ∙ e),
    ),
  )

  end-Holds :
      (shared : Shared U) (before after : List Worker)
      → length items ≤ shared.next_index
      → Holds (record { shared = shared; workers = before ++ ready ∷ after })
      → Holds (record {
        shared = record shared { next_index = shared.next_index + 1 };
        workers = before ++ finished ∷ after;
      })
  end-Holds shared before after over (taken, ended) = (
    λ j lt. elim (Bool-cases (ltb j shared.next_index)) [
      | inl old ↦ elim (taken j (ground arith)) [
        | inl awaited ↦ inl (any-swap (awaits j) before finished ready after refl ∙ awaited)
        | inr mapped ↦ inr mapped
      ]
      | inr new ↦ inr (λ item found. absurd (get_elem-beyond items j item (ground arith) found))
    ],
    λ e. omega arith,
  )

  -- An awaited result arrives, or there was no item; the worker is ready.
  arrive-Holds :
      (shared : Shared U) (before after : List Worker) (index : ℕ) (results : ℕ → Option U)
      → ((j : ℕ) → (index ≡ j) ⊎ IsMapped shared.results j → IsMapped results j)
      → Holds (record { shared = shared; workers = before ++ awaiting index ∷ after })
      → Holds (record {
        shared = record shared { results = results };
        workers = before ++ ready ∷ after;
      })
  arrive-Holds shared before after index results keep (taken, ended) = (
    λ j lt. elim (taken j lt) [
      | inr mapped ↦ inr (keep j (inr mapped))
      | inl awaited ↦ elim (Bool-cases (index == j)) [
        | inl this ↦ inr (keep j (inl (ground arith)))
        | inr other ↦
            inl (any-swap (awaits j) before ready (awaiting index) after (sym other) ∙ awaited)
      ]
    ],
    λ e. ended (any-swap is_finished before (awaiting index) ready after refl ∙ e),
  )

  pub Step-Holds :
      (shared : Shared U) (before : List Worker) (worker : Worker) (after : List Worker)
      → Holds (record { shared = shared; workers = before ++ worker ∷ after })
      → Holds (resumed items mapper shared before worker after)
  unfolding resume
  Step-Holds shared before ready after h =
      elim (Bool-cases (ltb shared.next_index (length items))) [
        | inl e ↦ rw (resume, e) (take-Holds shared before after h)
        | inr e ↦ rw (resume, e) (end-Holds shared before after (ground arith) h)
      ]
  Step-Holds shared before (awaiting index) after h = elim (Option-cases (get_elem? items index)) [
    | inl e ↦
        rw (resume, e)
          (arrive-Holds shared before after index shared.results
            (λ j known. elim known [ inl place ↦ λ item found. absurd (cc) | inr mapped ↦ mapped ])
            h)
    | inr (item, e) ↦
        rw (resume, e)
          (arrive-Holds shared before after index (set_result index (mapper item) shared.results)
            (λ j known. set_result-IsMapped index item shared.results j e known) h)
  ]
  Step-Holds shared before finished after h = h

  pub Step-work_left :
      (shared : Shared U) (before : List Worker) (worker : Worker) (after : List Worker)
      → worker ≢ finished
      → suc (work_left (resumed items mapper shared before worker after))
        ≡ work_left (record { shared = shared; workers = before ++ worker ∷ after })
  unfolding resume
  Step-work_left shared before ready after h =
      elim (Bool-cases (ltb shared.next_index (length items))) [
        | inl e ↦
            rw (resume, e)
              (ground (
                arith,
                weights-append before (awaiting shared.next_index) after,
                weights-append before ready after,
              ))
        | inr e ↦
            rw (resume, e)
              (ground
                (arith, weights-append before finished after, weights-append before ready after))
      ]
  Step-work_left shared before (awaiting index) after h =
      elim (Option-cases (get_elem? items index)) [
        | inl e ↦
            rw (resume, e)
              (omega (
                arith,
                weights-append before (awaiting index) after,
                weights-append before ready after,
              ))
        | inr (item, e) ↦
            rw (resume, e)
              (omega (
                arith,
                weights-append before (awaiting index) after,
                weights-append before ready after,
              ))
      ]
  Step-work_left shared before finished after h = absurd (h refl)
