-- ===== src/SelfUpdate/Sums/Versions.antt =====
-- internal/selfupdate/sums.go, CheckNewer: the order of releases, and chains of updates.
use models_db.Prelude.{◌<◌, ◌≡◌, ◌≢◌, ◌↔◌, ◌⊎◌, inl, inr, some, [], ◌∷◌, arith, Option-cases}
use models_db.SelfUpdate.Sums.{Bytes, Version, ok, parse_version, newer_parts, check_newer}

-- The order of releases: by major, then minor, then patch.
abbrev pub IsBefore : Version → Version → Type 0
IsBefore a b =
    (a.major < b.major)
    ⊎ ((a.major ≡ b.major) × (a.minor < b.minor))
    ⊎ ((a.major ≡ b.major) × (a.minor ≡ b.minor) × (a.patch < b.patch))

newer_parts_iff :
    (a b : Version)
    → (newer_parts ((a.major, b.major) ∷ (a.minor, b.minor) ∷ (a.patch, b.patch) ∷ []) ≡ ok tt)
      ↔ IsBefore a b
unfolding newer_parts
newer_parts_iff a b = (λ h. ground arith, λ h. ground arith)

-- A release is accepted exactly when both versions are of the strict form and the signed one is
-- greater, by major, then minor, then patch.
pub check_newer_iff :
    (installed signed : Bytes)
    → (check_newer installed signed ≡ ok tt) ↔ (
        (a : Version) × (b : Version) × (parse_version installed ≡ some a)
        × (parse_version signed ≡ some b)
        × IsBefore a b)
unfolding check_newer
check_newer_iff installed signed = (
  λ h. elim (Option-cases (parse_version installed)) [
    | inl bad ↦ absurd (ground arith)
    | inr (a, ea) ↦ elim (Option-cases (parse_version signed)) [
      | inl bad ↦ absurd (ground arith)
      | inr (b, eb) ↦ (a, b, ea, eb, (newer_parts_iff a b).0 (ground arith))
    ]
  ],
  λ (a, b, ea, eb, before). ground (arith, (newer_parts_iff a b).1 before),
)

-- A chain of accepted updates, from one version to another.
pub data Upgrades (from : Bytes) : Bytes → Type 0 where
  first : {to : Bytes} → check_newer from to ≡ ok tt → Upgrades from to
  next : {mid to : Bytes} → Upgrades from mid → check_newer mid to ≡ ok tt → Upgrades from to

IsBefore-trans : (a b c : Version) → IsBefore a b → IsBefore b c → IsBefore a c
IsBefore-trans a b c h k = omega arith

Upgrades-IsBefore :
    {from to : Bytes}
    → Upgrades from to
    → (a : Version) × (b : Version) × (parse_version from ≡ some a)
      × (parse_version to ≡ some b)
      × IsBefore a b
Upgrades-IsBefore {from = from} (first {to = to} h) = (check_newer_iff from to).0 h
Upgrades-IsBefore (next {mid = mid} {to = to} u h) =
    let (a, b, ea, eb, ab) = Upgrades-IsBefore u in
    let (b', c, eb', ec, bc) = (check_newer_iff mid to).0 h in
    (a, c, ea, ec, IsBefore-trans a b c ab (ground arith))

-- No chain of accepted updates comes back: from its last version, neither its first one nor the same
-- one is accepted.
pub Upgrades-never_return :
    {from to : Bytes}
    → Upgrades from to
    → (check_newer to from ≢ ok tt) × (check_newer to to ≢ ok tt) × (from ≢ to)
Upgrades-never_return {from = from} {to = to} u =
    let (a, b, ea, eb, ab) = Upgrades-IsBefore u in
    (
      λ h. let (b', a', eb', ea', ba) = (check_newer_iff to from).0 h in absurd (ground arith),
      λ h. let (b', b'', eb', eb'', bb) = (check_newer_iff to to).0 h in absurd (ground arith),
      λ e. absurd (ground arith),
    )
