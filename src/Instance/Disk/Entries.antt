-- ===== src/Instance/Disk/Entries.antt =====
-- What the reading of the instances directory has met.
use rootcell.Prelude.{
  ◌≤◌, ◌≡◌, ◌≢◌, refl, ap, true, false, List, [], ◌∷◌, arith, Option, none, some, Text, text_eq,
  text_eq_iff, Result, ok, err, Bool-cases, inl, inr, ◌⊎◌, ◌>>=◌,
}
use rootcell.Instance.Error.{Error}
use rootcell.Instance.State.{InstanceState, validate_state, contains}
use rootcell.Instance.State.Validity.{validate_state_iff}
use rootcell.Instance.Disk.{
  StateFile, decoded, Dir, Disk, StateEntry, read_instance_metadata_name, state_at, write_state,
  read_state, read_entry, read_all_instance_states, other_entries, subnets,
}
use rootcell.Instance.Disk.Collisions.{count_subnet}

-- Some entry of the instances directory carries this instance name.
pub data Listed (name : Text) : List Dir → Type 0 where
  here :
      (d : Dir) (ds : List Dir) → read_instance_metadata_name d ≡ some name → Listed name (d ∷ ds)
  there : (d : Dir) (ds : List Dir) → Listed name ds → Listed name (d ∷ ds)

pub state_at-write_state_ne :
    (name other : Text) (state : InstanceState) (disk : Disk)
    → other ≢ name
    → state_at other (write_state name state disk) ≡ state_at other disk
unfolding state_at write_state
state_at-write_state_ne name other state [] ne = refl
state_at-write_state_ne name other state (d ∷ ds) ne = ground (
  arith,
  text_eq_iff d.dir name,
  text_eq_iff d.dir other,
  state_at-write_state_ne name other state ds ne,
)

abbrev add_entry :
    Text
    → Result Error InstanceState
    → Result Error (List StateEntry)
    → Result Error (List StateEntry)
add_entry name read rest = do
  state ← read
  entries ← rest
  ok (record { name = name; state = state } ∷ entries)

add_entry-eq-ok :
    (name : Text) (read : Result Error InstanceState) (rest : Result Error (List StateEntry))
    {entries : List StateEntry}
    → add_entry name read rest ≡ ok entries
    → (state : InstanceState) × (read ≡ ok state)
      × (others : List StateEntry) × (rest ≡ ok others)
      × (entries ≡ record { name = name; state = state } ∷ others)
add_entry-eq-ok name (ok state) (ok others) h = (state, refl, others, refl, cc)
add_entry-eq-ok name (ok state) (err e) h = cc
add_entry-eq-ok name (err e) rest h = cc

-- The names and the states that a successful reading has met.
pub HasEntry : Text → InstanceState → List StateEntry → Type 0
HasEntry name state [] = ⊥
HasEntry name state (entry ∷ entries) =
    ((entry.name ≡ name) × (entry.state ≡ state)) ⊎ HasEntry name state entries

read_entry-listed :
    (name : Text) (disk : Disk) (rest : Result Error (List StateEntry)) {entries : List StateEntry}
    {state : InstanceState}
    → state_at name disk ≡ some (decoded state)
    → read_entry (some name) disk rest ≡ ok entries
    → HasEntry name state entries
unfolding read_entry HasEntry read_state
read_entry-listed name disk rest {state = state} found h =
    let (s, read, others, _, e) =
      add_entry-eq-ok name (validate_state name state) rest (rw (found, read_entry) at h) in
    rw e (inl (refl, ((validate_state_iff name state s).0 read).0))

-- A later entry stays.
read_entry-later :
    (read : Option Text) (disk : Disk) (rest : Result Error (List StateEntry))
    {entries : List StateEntry}
    → read_entry read disk rest ≡ ok entries
    → (others : List StateEntry) × (rest ≡ ok others)
      × ((name : Text) (state : InstanceState)
          → HasEntry name state others
          → HasEntry name state entries)
unfolding read_entry
read_entry-later none disk rest {entries} h = (entries, h, λ name state m. m)
read_entry-later (some name) disk rest {entries} h = later (state_at name disk) h
  where
    later :
        (file : Option StateFile)
        → elim file [
          | none ↦ rest
          | some f ↦ do
            state ← read_state name f
            es ← rest
            ok (record { name = name; state = state } ∷ es)
        ]
          ≡ ok entries
        → (others : List StateEntry) × (rest ≡ ok others)
          × ((n : Text) (state : InstanceState)
              → HasEntry n state others
              → HasEntry n state entries)
    later none k = (entries, k, λ n s m. m)
    later (some f) k =
        let (s, _, others, e, same) = add_entry-eq-ok name (read_state name f) rest k in
        (others, e, λ n t m. rw same (unfold HasEntry in inr m))

pub read_all-HasEntry :
    (name : Text) (dirs : List Dir) (disk : Disk) {entries : List StateEntry}
    {state : InstanceState}
    → Listed name dirs
    → state_at name disk ≡ some (decoded state)
    → read_all_instance_states dirs disk ≡ ok entries
    → HasEntry name state entries
unfolding read_all_instance_states
read_all-HasEntry name dirs disk (here d ds named) found h =
    read_entry-listed name disk (read_all_instance_states ds disk) found (rw named at h)
read_all-HasEntry name dirs disk {state = state} (there d ds l) found h =
    let (others, e, keep) =
      read_entry-later (read_instance_metadata_name d) disk (read_all_instance_states ds disk) h in
    keep name state (read_all-HasEntry name ds disk l found e)

-- The effect of an accepted `ensureInstanceState`: the state is on disk, and it was chosen among
-- the entries that the disk had.
pub HasEntry-contains :
    (name : Text) (entries : List StateEntry) (state : InstanceState)
    → HasEntry name state entries
    → contains (subnets entries) state.subnet ≡ true
unfolding HasEntry contains
HasEntry-contains name [] state h = absurd h
HasEntry-contains name (e ∷ es) state (inl (_, same)) =
    ground (arith, ap (λ s. s.subnet) same, text_eq_iff e.state.subnet state.subnet)
HasEntry-contains name (e ∷ es) state (inr later) =
    ground (arith, HasEntry-contains name es state later)

pub HasEntry-count :
    (name : Text) (entries : List StateEntry) (state : InstanceState)
    → HasEntry name state entries
    → 1 ≤ count_subnet state.subnet entries
unfolding HasEntry count_subnet
HasEntry-count name [] state h = absurd h
HasEntry-count name (e ∷ es) state (inl (_, same)) =
    ground (arith, ap (λ s. s.subnet) same, text_eq_iff e.state.subnet state.subnet)
HasEntry-count name (e ∷ es) state (inr later) = ground (arith, HasEntry-count name es state later)

pub HasEntry-other_entries :
    (name other : Text) (entries : List StateEntry) (state : InstanceState)
    → other ≢ name
    → HasEntry other state entries
    → HasEntry other state (other_entries name entries)
unfolding HasEntry other_entries
HasEntry-other_entries name other [] state ne h = h
HasEntry-other_entries name other (e ∷ es) state ne (inl (named, same)) =
    let keep : text_eq e.name name ≡ false = ground (arith, text_eq_iff e.name name) in
    rw keep (inl (named, same))
HasEntry-other_entries name other (e ∷ es) state ne (inr later) =
    let rest = HasEntry-other_entries name other es state ne later in
    elim (Bool-cases (text_eq e.name name)) [
      | inl drop ↦ rw drop rest
      | inr keep ↦ rw keep (inr rest)
    ]

pub ok-injective :
    {s t : InstanceState} → (let r : Result Error InstanceState = ok s in r) ≡ ok t → s ≡ t
ok-injective h = cc
