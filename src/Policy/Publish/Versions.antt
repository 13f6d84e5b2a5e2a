-- ===== src/Policy/Publish/Versions.antt =====
-- workers/policy/repository.py and publish.py: versions are read back from their names, and a snapshot
-- of a higher version becomes the latest.
use film_compliance_agent.Base.{
  ℕ, ◌<◌, ◌==◌, String, Option, none, some, [], ◌∷◌, ◌≡◌, refl, inl, inr, All, arith, Bool-cases,
  Option-cases, string_eq,
}
use film_compliance_agent.Base.Dict.{Dict, lookup, insert}
use film_compliance_agent.Base.Decimal.{parse_nat-print_nat}
use film_compliance_agent.Errors.{Result, ok, err}
use film_compliance_agent.Policy.Documents.{PolicySnapshot, version_of, version_number}
use film_compliance_agent.Policy.Repository.{PolicyRepository, newer, newest, latest_snapshot}

-- The number of a version is read back from its name.
pub version_number-version_of : (n : ℕ) → version_number (version_of n) ≡ some n
unfolding version_number version_of
version_number-version_of n = parse_nat-print_nat n

abbrev pub IsBelow : ℕ → Option (ℕ × PolicySnapshot) → Type 0
IsBelow n none = Unit
IsBelow n (some (m, s)) = m < n

newest_cons :
    (version : String) (s : PolicySnapshot) (d : Dict String PolicySnapshot)
    (best : Option (ℕ × PolicySnapshot))
    → newest ((version, s) ∷ d) ≡ ok best
    → (a : ℕ) × (rest : Option (ℕ × PolicySnapshot)) × (version_number version ≡ some a)
      × (newest d ≡ ok rest)
      × (best ≡ some (newer a s rest))
unfolding newest
newest_cons version s d best h = elim (Option-cases (version_number version)) [
  | inl e ↦ absurd (ground arith)
  | inr (a, e) ↦ go a (newest d) e refl
]
  where
    go :
        (a : ℕ) (r : Result (Option (ℕ × PolicySnapshot)))
        → version_number version ≡ some a
        → newest d ≡ r
        → (a : ℕ) × (rest : Option (ℕ × PolicySnapshot)) × (version_number version ≡ some a)
          × (newest d ≡ ok rest)
          × (best ≡ some (newer a s rest))
    go a (err x) e k = absurd (ground arith)
    go a (ok rest) e k = (a, rest, e, k, ground arith)

IsBelow-parts :
    (n a : ℕ) (s : PolicySnapshot) (rest : Option (ℕ × PolicySnapshot))
    → IsBelow n (some (newer a s rest))
    → (a < n) × IsBelow n rest
IsBelow-parts n a s none h = (h, tt)
IsBelow-parts n a s (some (m, t)) h = ground arith

newest-insert :
    (k : String) (n : ℕ) (s : PolicySnapshot) (d : Dict String PolicySnapshot)
    (best : Option (ℕ × PolicySnapshot))
    → version_number k ≡ some n
    → lookup k d ≡ none
    → newest d ≡ ok best
    → IsBelow n best
    → newest (insert k s d) ≡ ok (some (n, s))
unfolding newest insert lookup
newest-insert k n s [] best e fresh h below = ground arith
newest-insert k n s ((v, u) ∷ d) best e fresh h below =
    let (a, rest, number, inner, same) = newest_cons v u d best h in
    let (less, under) = IsBelow-parts n a u rest (rw same at below) in
    elim (Bool-cases (v == k)) [
      | inl clash ↦ absurd (ground arith)
      | inr other ↦
          let tail = newest-insert k n s d rest e (ground arith) inner under in ground arith
    ]

-- A new snapshot above the latest one becomes the latest.
pub latest_snapshot-insert :
    (k : String) (n m : ℕ) (s t : PolicySnapshot) (repo : PolicyRepository)
    → version_number k ≡ some n
    → lookup k repo.snapshots ≡ none
    → newest repo.snapshots ≡ ok (some (m, t))
    → m < n
    → latest_snapshot (record repo { snapshots = insert k s repo.snapshots }) ≡ ok (some s)
unfolding latest_snapshot
latest_snapshot-insert k n m s t repo e fresh h less =
    rw (newest-insert k n s repo.snapshots (some (m, t)) e fresh h less) refl

-- every snapshot is stored under its own version
abbrev pub IsOwn : String × PolicySnapshot → Type 0
IsOwn e = e.1.version ≡ e.0

newer-number :
    (a n : ℕ) (u s : PolicySnapshot) (rest : Option (ℕ × PolicySnapshot))
    → version_number u.version ≡ some a
    → ((m : ℕ) (t : PolicySnapshot) → rest ≡ some (m, t) → version_number t.version ≡ some m)
    → newer a u rest ≡ (n, s)
    → version_number s.version ≡ some n
newer-number a n u s none e below h = ground arith
newer-number a n u s (some (m, t)) e below h = ground (arith, below m t)

-- The number that finds the latest snapshot is the number of its version.
pub newest-number :
    (d : Dict String PolicySnapshot) (n : ℕ) (s : PolicySnapshot)
    → All IsOwn d
    → newest d ≡ ok (some (n, s))
    → version_number s.version ≡ some n
newest-number [] n s own h = absurd (unfold newest in cc)
newest-number ((v, u) ∷ d) n s own h =
    let (a, rest, number, inner, same) = newest_cons v u d (some (n, s)) h in
    newer-number a n u s rest (rw own.0 number) (λ m t e. newest-number d m t own.1 (rw e at inner))
      (ground arith)
