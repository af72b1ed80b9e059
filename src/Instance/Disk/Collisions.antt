-- ===== src/Instance/Disk/Collisions.antt =====
-- `assertNoSubnetCollisions` finds every shared subnet.
use rootcell.Prelude.{
  ℕ, ◌+◌, ◌≤◌, ◌≡◌, ◌↔◌, refl, Bool, false, ◌||◌, List, [], ◌∷◌, ◌++◌, arith, if◌then◌else◌, length,
  length-append, Text, text_eq, text_eq_iff, text_eq_refl, ok,
}
use rootcell.Instance.Disk.{
  StateEntry, BySubnet, add_name, collect_names, check_names, assert_no_subnet_collisions,
}

-- How many entries have a subnet.
unfoldable pub count_subnet : Text → List StateEntry → ℕ
count_subnet subnet [] = 0
count_subnet subnet (entry ∷ entries) =
    if text_eq entry.state.subnet subnet
    then count_subnet subnet entries + 1
    else count_subnet subnet entries

count_names : Text → BySubnet → ℕ
count_names subnet [] = 0
count_names subnet ((key, names) ∷ rest) =
    if text_eq key subnet then length names else count_names subnet rest

count_names-add_name :
    (k subnet name : Text) (m : BySubnet)
    → count_names k (add_name subnet name m)
      ≡ (if text_eq subnet k then count_names k m + 1 else count_names k m)
unfolding count_names add_name
count_names-add_name k subnet name [] = ground arith
count_names-add_name k subnet name ((key, names) ∷ rest) = ground (
  arith,
  text_eq_iff key subnet,
  text_eq_iff key k,
  text_eq_iff subnet k,
  length-append names (name ∷ []),
  count_names-add_name k subnet name rest,
)

count_names-collect :
    (k : Text) (entries : List StateEntry) (m : BySubnet)
    → count_names k (collect_names entries m) ≡ count_names k m + count_subnet k entries
unfolding collect_names count_subnet
count_names-collect k [] m = omega arith
count_names-collect k (e ∷ es) m = ground (
  arith,
  count_names-add_name k e.state.subnet e.name m,
  count_names-collect k es (add_name e.state.subnet e.name m),
)

check_names_sound : (m : BySubnet) (k : Text) → check_names m ≡ ok tt → count_names k m ≤ 1
unfolding check_names count_names
check_names_sound [] k h = omega arith
check_names_sound ((key, names) ∷ rest) k h = ground (arith, check_names_sound rest k)

has_key : Text → BySubnet → Bool
has_key k [] = false
has_key k ((key, names) ∷ rest) = text_eq key k || has_key k rest

UniqueKeys : BySubnet → Type 0
UniqueKeys [] = Unit
UniqueKeys ((key, names) ∷ rest) = (has_key key rest ≡ false) × UniqueKeys rest

has_key-add_name :
    (k subnet name : Text) (m : BySubnet)
    → has_key k (add_name subnet name m) ≡ (text_eq subnet k || has_key k m)
unfolding has_key add_name
has_key-add_name k subnet name [] = refl
has_key-add_name k subnet name ((key, names) ∷ rest) =
    ground (arith, text_eq_iff key subnet, has_key-add_name k subnet name rest)

UniqueKeys-add_name :
    (subnet name : Text) (m : BySubnet) → UniqueKeys m → UniqueKeys (add_name subnet name m)
unfolding UniqueKeys add_name has_key
UniqueKeys-add_name subnet name [] u = (refl, tt)
UniqueKeys-add_name subnet name ((key, names) ∷ rest) u = ground (
  arith,
  text_eq_iff key subnet,
  text_eq_iff subnet key,
  has_key-add_name key subnet name rest,
  UniqueKeys-add_name subnet name rest,
)

UniqueKeys-collect :
    (entries : List StateEntry) (m : BySubnet) → UniqueKeys m → UniqueKeys (collect_names entries m)
unfolding collect_names
UniqueKeys-collect [] m u = u
UniqueKeys-collect (e ∷ es) m u =
    UniqueKeys-collect es (add_name e.state.subnet e.name m)
      (UniqueKeys-add_name e.state.subnet e.name m u)

count_names_no_key : (k : Text) (m : BySubnet) → has_key k m ≡ false → count_names k m ≡ 0
unfolding has_key count_names
count_names_no_key k [] h = refl
count_names_no_key k ((key, names) ∷ rest) h = ground (arith, count_names_no_key k rest)

check_names_complete :
    (m : BySubnet) → UniqueKeys m → ((k : Text) → count_names k m ≤ 1) → check_names m ≡ ok tt
unfolding check_names count_names UniqueKeys
check_names_complete [] u h = refl
check_names_complete ((key, names) ∷ rest) (fresh, u) h =
    let tail =
      check_names_complete rest u
        (λ k. ground (arith, h k, text_eq_iff key k, count_names_no_key k rest)) in
    ground (arith, h key, text_eq_refl key)

-- The collision check passes exactly if no subnet stands in two entries.
pub assert_no_subnet_collisions_iff :
    (entries : List StateEntry)
    → (assert_no_subnet_collisions entries ≡ ok tt) ↔ ((k : Text) → count_subnet k entries ≤ 1)
unfolding assert_no_subnet_collisions
assert_no_subnet_collisions_iff entries = (
  λ h k. omega (
    arith,
    check_names_sound (collect_names entries []) k h,
    count_names-collect k entries [],
    count_names_nil k,
  ),
  λ h.
      check_names_complete (collect_names entries []) (UniqueKeys-collect entries [] unique_nil)
        (λ k. omega (arith, h k, count_names-collect k entries [], count_names_nil k)),
)
  where
    count_names_nil : (k : Text) → count_names k [] ≡ 0
    count_names_nil k = unfold count_names in refl

    unique_nil : UniqueKeys []
    unique_nil = unfold UniqueKeys in tt

pub count_subnet-append :
    (k : Text) (xs ys : List StateEntry)
    → count_subnet k (xs ++ ys) ≡ count_subnet k xs + count_subnet k ys
unfolding count_subnet
count_subnet-append k [] ys = omega arith
count_subnet-append k (x ∷ xs) ys = ground (arith, count_subnet-append k xs ys)
