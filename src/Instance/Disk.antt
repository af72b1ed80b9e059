-- ===== src/Instance/Disk.antt =====
-- The instances on disk: `readInstanceMetadataName`, `readState`, `readAllInstanceStates`,
-- `assertNoSubnetCollisions`, `ensureInstanceState` and `loadRootcellInstance` of
-- src/rootcell/instance.ts. The instances directory is the list of its entries, in the order in
-- which the directory is read. A call that throws keeps what it has written.
pub mod Collisions
pub mod Entries
pub mod Isolation
use rootcell.Prelude.{
  ℕ, zero, suc, ◌+◌, Bool, true, false, not, ◌&&◌, List, [], ◌∷◌, ◌++◌, map, Option, none, some,
  ltb, if◌then◌else◌, length, Text, text_eq, Result, ok, err, throw_if, ◌>>=◌, ◌>>◌,
}
use rootcell.Instance.Error.{Error, subnet_of_many, subnet_taken, unreadable_state}
use rootcell.Instance.Name.{is_instance_name, validate_instance_name}
use rootcell.Instance.State.{
  InstanceState, NetworkEnv, validate_state, state_from_env, allocate_state, contains,
}

-- The content of a state.json: text that is no JSON object with fields of the right types, or the
-- fields.
pub data StateFile : Type 0 where
  unreadable : StateFile
  decoded : InstanceState → StateFile

-- An entry of the instances directory. `metadata` is the name in an instance.json of the right
-- schema version.
pub record Dir : Type 0 where
  pub dir : Text
  pub metadata : Option Text
  pub state : Option StateFile

abbrev pub Disk : Type 0
Disk = List Dir

pub record StateEntry : Type 0 where
  pub name : Text
  pub state : InstanceState

unfoldable pub read_instance_metadata_name : Dir → Option Text
read_instance_metadata_name d = elim d.metadata [
  | none ↦ none
  | some name ↦ if is_instance_name name then some name else none
]

-- The state file of an instance, by the name of its directory.
unfoldable pub state_at : Text → Disk → Option StateFile
state_at name [] = none
state_at name (d ∷ ds) = if text_eq d.dir name then d.state else state_at name ds

-- `writeStateIfChanged`
unfoldable pub write_state : Text → InstanceState → Disk → Disk
write_state name state [] = []
write_state name state (d ∷ ds) =
    if text_eq d.dir name
    then record d { state = some (decoded state) } ∷ ds
    else d ∷ write_state name state ds

unfoldable pub read_state : Text → StateFile → Result Error InstanceState
read_state name unreadable = err (unreadable_state name)
read_state name (decoded state) = validate_state name state

-- One round of the loop of `readAllInstanceStates`, in front of the entries of the later ones.
unfoldable pub read_entry :
    Option Text → Disk → Result Error (List StateEntry) → Result Error (List StateEntry)
read_entry none disk rest = rest
read_entry (some name) disk rest = elim (state_at name disk) [
  | none ↦ rest
  | some file ↦ do
    state ← read_state name file
    entries ← rest
    ok (record { name = name; state = state } ∷ entries)
]

unfoldable pub read_all_instance_states : List Dir → Disk → Result Error (List StateEntry)
unfolding read_entry
read_all_instance_states [] disk = ok []
read_all_instance_states (d ∷ ds) disk =
    read_entry (read_instance_metadata_name d) disk (read_all_instance_states ds disk)

-- The map from subnets to the names of the instances that have them.
abbrev pub BySubnet : Type 0
BySubnet = List (Text × List Text)

unfoldable pub add_name : Text → Text → BySubnet → BySubnet
add_name subnet name [] = (subnet, name ∷ []) ∷ []
add_name subnet name ((key, names) ∷ rest) =
    if text_eq key subnet
    then (key, names ++ name ∷ []) ∷ rest
    else (key, names) ∷ add_name subnet name rest

unfoldable pub collect_names : List StateEntry → BySubnet → BySubnet
collect_names [] by_subnet = by_subnet
collect_names (entry ∷ entries) by_subnet =
    collect_names entries (add_name entry.state.subnet entry.name by_subnet)

unfoldable pub check_names : BySubnet → Result Error (Unit {0})
check_names [] = ok tt
check_names ((subnet, names) ∷ rest) =
    if ltb 1 (length names) then err (subnet_of_many subnet names) else check_names rest

unfoldable pub assert_no_subnet_collisions : List StateEntry → Result Error (Unit {0})
assert_no_subnet_collisions entries = check_names (collect_names entries [])

-- `existingEntries.filter((entry) => entry.name !== name)`
unfoldable pub other_entries : Text → List StateEntry → List StateEntry
other_entries name [] = []
other_entries name (entry ∷ entries) =
    if text_eq entry.name name
    then other_entries name entries
    else entry ∷ other_entries name entries

abbrev pub subnets : List StateEntry → List Text
subnets [] = []
subnets (entry ∷ entries) = entry.state.subnet ∷ subnets entries

-- The states of the instances, if no two of them share a subnet.
unfoldable pub checked_states : Disk → Result Error (List StateEntry)
checked_states disk = do
  entries ← read_all_instance_states disk disk
  assert_no_subnet_collisions entries
  ok entries

-- The state of an instance that has none.
unfoldable pub new_state : Text → NetworkEnv → List Text → Result Error InstanceState
new_state name env used = do
  requested ← state_from_env name env
  state ← elim requested [ none ↦ allocate_state env used | some state ↦ ok state ]
  throw_if (contains used state.subnet) (subnet_taken state.subnet)
  ok state

-- `ensureInstanceState` where a state file is there.
unfoldable pub keep_state :
    Text → List StateEntry → StateFile → Disk → Result Error InstanceState × Disk
keep_state name entries file disk = elim (read_state name file) [
  | err e ↦ (err e, disk)
  | ok state ↦
      let written = write_state name state disk in
      elim (assert_no_subnet_collisions
        (other_entries name entries ++ record { name = name; state = state } ∷ [])) [
          | err e ↦ (err e, written)
          | ok _ ↦ (ok state, written)
        ]
]

-- `ensureInstanceState` where none is.
unfoldable pub create_state :
    Text → NetworkEnv → List StateEntry → Disk → Result Error InstanceState × Disk
create_state name env entries disk = elim (new_state name env (subnets entries)) [
  | err e ↦ (err e, disk)
  | ok state ↦ (ok state, write_state name state disk)
]

unfoldable pub ensure_instance_state : Text → NetworkEnv → Disk → Result Error InstanceState × Disk
ensure_instance_state name env disk = elim (checked_states disk) [
  | err e ↦ (err e, disk)
  | ok entries ↦ elim (state_at name disk) [
    | some file ↦ keep_state name entries file disk
    | none ↦ create_state name env entries disk
  ]
]

-- `mkdirSync(paths.dir)` and `writeInstanceMetadata`
unfoldable pub make_instance_dir : Text → Disk → Disk
make_instance_dir name [] = record { dir = name; metadata = some name; state = none } ∷ []
make_instance_dir name (d ∷ ds) =
    if text_eq d.dir name
    then record d { metadata = some name } ∷ ds
    else d ∷ make_instance_dir name ds

unfoldable pub load_rootcell_instance : Text → NetworkEnv → Disk → Result Error InstanceState × Disk
load_rootcell_instance instance_name env disk = elim (validate_instance_name instance_name) [
  | err e ↦ (err e, disk)
  | ok name ↦ ensure_instance_state name env (make_instance_dir name disk)
]
