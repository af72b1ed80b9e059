-- ===== src/Provider/LimaVersion.antt =====
-- `compareLimaVersions` and `limaVersionSupportsSshOverVsockYaml` of
-- src/rootcell/providers/lima-version.ts. A difference is the sign of a natural number.
use rootcell.Prelude.{ℕ, ◌-◌, ◌≡◌, ◌<◌, ◌≤◌, Bool, true, false, ltb, if◌then◌else◌, arith, ◌↔◌, ◌⊎◌}

pub record LimaVersion : Type 0 where
  pub major : ℕ
  pub minor : ℕ
  pub patch : ℕ

-- `MIN_LIMA_SSH_OVER_VSOCK_YAML_VERSION`
abbrev pub min_lima_version : LimaVersion
min_lima_version = record { major = 2; minor = 0; patch = 2 }

pub data Difference : Type 0 where
  less : ℕ → Difference
  same : Difference
  more : ℕ → Difference

abbrev pub difference : ℕ → ℕ → Difference
difference a b = if ltb a b then less (b - a) else if ltb b a then more (a - b) else same

-- `diff !== 0 ? diff : next`
abbrev pub or_next : Difference → Difference → Difference
or_next same next = next
or_next (less n) next = less n
or_next (more n) next = more n

unfoldable pub compare_lima_versions : LimaVersion → LimaVersion → Difference
compare_lima_versions left right =
    or_next (difference left.major right.major)
      (or_next (difference left.minor right.minor) (difference left.patch right.patch))

abbrev pub is_not_less : Difference → Bool
is_not_less (less n) = false
is_not_less same = true
is_not_less (more n) = true

unfoldable pub lima_version_supports_ssh_over_vsock_yaml : LimaVersion → Bool
unfolding compare_lima_versions
lima_version_supports_ssh_over_vsock_yaml version =
    is_not_less (compare_lima_versions version min_lima_version)

-- The versions that are accepted are 2.0.2, the later ones of 2.0, and those of 2.1, of 3 and
-- behind.
lima_version_supports_iff :
    (version : LimaVersion)
    → (lima_version_supports_ssh_over_vsock_yaml version ≡ true)
      ↔ ((2 < version.major) ⊎ ((version.major ≡ 2) × ((0 < version.minor) ⊎ (2 ≤ version.patch))))
unfolding lima_version_supports_ssh_over_vsock_yaml compare_lima_versions
lima_version_supports_iff version = ground arith
