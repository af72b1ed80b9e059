-- ===== src/Instance/Disk/Isolation.antt =====
-- An instance gets a network that no other instance has.
use rootcell.Prelude.{
  ◌≡◌, ◌≢◌, ap, false, List, [], ◌∷◌, ◌++◌, arith, none, some, Text, text_eq_refl, Result, ok, inl,
  inr, >>=-eq-ok, throw_if-eq-ok, Result-cases, Option-cases,
}
use rootcell.Instance.Error.{Error}
use rootcell.Instance.State.{InstanceState, NetworkEnv, contains, state_from_env, allocate_state}
use rootcell.Instance.Disk.{
  StateFile, decoded, Disk, StateEntry, state_at, write_state, read_state, read_all_instance_states,
  assert_no_subnet_collisions, other_entries, subnets, checked_states, new_state, keep_state,
  create_state, ensure_instance_state,
}
use rootcell.Instance.Disk.Collisions.{
  count_subnet, count_subnet-append, assert_no_subnet_collisions_iff,
}
use rootcell.Instance.Disk.Entries.{
  Listed, state_at-write_state_ne, HasEntry, read_all-HasEntry, HasEntry-contains, HasEntry-count,
  HasEntry-other_entries, ok-injective,
}

new_state_fresh :
    (name : Text) (env : NetworkEnv) (used : List Text) {state : InstanceState}
    → new_state name env used ≡ ok state
    → contains used state.subnet ≡ false
unfolding new_state
new_state_fresh name env used h =
    let (requested, _, h₁) = >>=-eq-ok (state_from_env name env) _ h in
    let (chosen, _, h₂) =
      >>=-eq-ok (elim requested [ none ↦ allocate_state env used | some s ↦ ok s ]) _ h₁ in
    let (free, same) = throw_if-eq-ok (contains used chosen.subnet) _ _ h₂ in
    rw (← ok-injective same) free

-- No other entry has the subnet.
Apart : Text → InstanceState → List StateEntry → Type 0
Apart name state entries =
    (other : Text) (t : InstanceState)
    → other ≢ name
    → HasEntry other t entries
    → t.subnet ≢ state.subnet

abbrev done : InstanceState → Disk → Result Error InstanceState × Disk
done state disk = (ok state, disk)

module _ (name : Text) (entries : List StateEntry) where
  -- The state that is kept, checked against the other entries.
  abbrev kept : InstanceState → List StateEntry
  kept s = other_entries name entries ++ record { name = name; state = s } ∷ []

  kept-Apart :
      (s : InstanceState) → assert_no_subnet_collisions (kept s) ≡ ok tt → Apart name s entries
  unfolding Apart count_subnet
  kept-Apart s passed other t ne m p =
      let once = (assert_no_subnet_collisions_iff (kept s)).0 passed s.subnet in
      let there = HasEntry-count other _ t (HasEntry-other_entries name other entries t ne m) in
      let split =
        count_subnet-append s.subnet (other_entries name entries)
          (record { name = name; state = s } ∷ []) in
      ground (arith, text_eq_refl s.subnet, ap (λ k. count_subnet k (other_entries name entries)) p)

module _ (name : Text) (entries : List StateEntry) (disk : Disk) {state : InstanceState}
    {disk' : Disk} where
  create_state-eq-ok :
      (env : NetworkEnv)
      → create_state name env entries disk ≡ (ok state, disk')
      → (disk' ≡ write_state name state disk) × Apart name state entries
  unfolding create_state Apart
  create_state-eq-ok env h = elim (Result-cases (new_state name env (subnets entries))) [
    | inr (e, failed) ↦ absurd (cc (rw (failed, create_state) at h))
    | inl (chosen, made) ↦
        let e : done chosen (write_state name chosen disk) ≡ done state disk' =
          rw (made, create_state) at h in
        let same : chosen ≡ state = cc e in
        let free = new_state_fresh name env (subnets entries) made in
        (
          cc (e, same),
          λ other t ne m p. cc (
            HasEntry-contains other entries t m,
            ap (contains (subnets entries)) p,
            free,
            ap (λ s. contains (subnets entries) s.subnet) same,
          ),
        )
  ]

  keep_state-eq-ok :
      (file : StateFile)
      → keep_state name entries file disk ≡ (ok state, disk')
      → (disk' ≡ write_state name state disk) × Apart name state entries
  unfolding keep_state
  keep_state-eq-ok file h = elim (Result-cases (read_state name file)) [
    | inr (e, failed) ↦ absurd (cc (rw (failed, keep_state) at h))
    | inl (s, read) ↦
        let h₁ = rw (read, keep_state) at h in
        elim (Result-cases (assert_no_subnet_collisions (kept name entries s))) [
          | inr (e, failed) ↦ absurd (cc (rw failed at h₁))
          | inl (u, passed) ↦
              let e : done s (write_state name s disk) ≡ done state disk' = rw passed at h₁ in
              let same : s ≡ state = cc e in
              (cc (e, same), rw (← same) (kept-Apart name entries s passed))
        ]
  ]

checked_states-eq-ok :
    (disk : Disk) {entries : List StateEntry}
    → checked_states disk ≡ ok entries
    → read_all_instance_states disk disk ≡ ok entries
unfolding checked_states
checked_states-eq-ok disk h = ground arith

ensure-eq-ok :
    (name : Text) (env : NetworkEnv) (disk : Disk) {state : InstanceState} {disk' : Disk}
    → ensure_instance_state name env disk ≡ (ok state, disk')
    → (disk' ≡ write_state name state disk)
      × ((entries : List StateEntry) × (read_all_instance_states disk disk ≡ ok entries)
          × Apart name state entries)
unfolding ensure_instance_state
ensure-eq-ok name env disk h = elim (Result-cases (checked_states disk)) [
  | inr (e, failed) ↦ absurd (cc (rw (failed, ensure_instance_state) at h))
  | inl (entries, checked) ↦
      let read = checked_states-eq-ok disk checked in
      let h₁ = rw (checked, ensure_instance_state) at h in
      elim (Option-cases (state_at name disk)) [
        | inl absent ↦
            let (w, a) = create_state-eq-ok name entries disk env (rw absent at h₁) in
            (w, (entries, read, a))
        | inr (file, present) ↦
            let (w, a) = keep_state-eq-ok name entries disk file (rw present at h₁) in
            (w, (entries, read, a))
      ]
]

-- When `ensureInstanceState` returns a state for an instance, that state is what the disk then
-- holds for it, no other instance of the disk has the same subnet, and the state files of the
-- other instances are as before.
pub ensure_instance_state_isolates :
    (name : Text) (env : NetworkEnv) (disk : Disk) (state : InstanceState) (disk' : Disk)
    (other : Text) (t : InstanceState)
    → ensure_instance_state name env disk ≡ (ok state, disk')
    → other ≢ name
    → Listed other disk
    → state_at other disk ≡ some (decoded t)
    → (t.subnet ≢ state.subnet)
      × (state_at other disk' ≡ some (decoded t))
      × (disk' ≡ write_state name state disk)
unfolding Apart
ensure_instance_state_isolates name env disk state disk' other t h ne listed found =
    let (written, (entries, read, apart)) = ensure-eq-ok name env disk h in
    (
      apart other t ne (read_all-HasEntry other disk disk listed found read),
      rw (written, state_at-write_state_ne name other state disk ne) found,
      written,
    )
