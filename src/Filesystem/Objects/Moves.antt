-- ===== src/Filesystem/Objects/Moves.antt =====
-- `MoveObject` and `MoveFolder` of internal/backend/filesystem/filesystem.go: when they are refused, and what
-- they do otherwise.
use booth_storage.Base.{
  ◌≡◌, refl, ap, subst, ◌⊎◌, inl, inr, ◌≢◌, Bool, true, false, List, [], Bytes, bytes_eq,
  Bool-cases, split, trim_suffix, ends_in, Result, ok, err, Result-cases,
}
use booth_storage.Base.Split.{split-ne-nil, trim_suffix_absent}
use booth_storage.Backend.{BackendError, not_found, conflict}
use booth_storage.Backend.Path.{slash, clean_path}
use booth_storage.Filesystem.{Trail, map_err, parents}
use booth_storage.Filesystem.Disk.{
  OsError, not_exist, exist, not_dir, not_empty, escapes, Node, stat, invalid,
}
use booth_storage.Filesystem.Objects.{
  first_disk, names_of, parent_of, move_to, has_kind, move, move_object,
}
use booth_storage.Backend.Path.Rules.{clean_path_iff, IsJoined-ends_in}
use booth_storage.Filesystem.Objects.Moved.{Moves, Works, move_free-Moves, move_free-Works}

-- Why a move is refused before it changes anything.
abbrev pub Refused : Bool → List Bytes → List Bytes → Node → BackendError → Type 0
Refused want_dir src dst root e =
    ((x : OsError) × (stat root src ≡ err x) × (e ≡ map_err x))
    ⊎ ((n : Node) × (stat root src ≡ ok n) × (has_kind want_dir n ≡ false) × (e ≡ not_found))
    ⊎ ((m : Node) × (stat root dst ≡ ok m) × (e ≡ conflict))
    ⊎ ((x : OsError) × (stat root dst ≡ err x) × (x ≢ not_exist) × (e ≡ map_err x))

-- A move was asked for a source of the right kind and a target where nothing is: then it has one of the
-- outcomes of `Moves`, and it succeeds where it `Works`, if `dir` is the target's directory; or it changes
-- nothing and is refused for one of four reasons.
abbrev pub Relocates :
    Bool
    → List Bytes
    → List Bytes
    → List Bytes
    → Node
    → Result BackendError (Unit {0}) × Trail
    → Type 0
Relocates want_dir src dst dir root outcome =
    ((n : Node) × (stat root src ≡ ok n)
      × (has_kind want_dir n ≡ true)
      × (stat root dst ≡ err not_exist)
      × Moves src dst root outcome.0 outcome.1
      × (dir ≡ parents dst → Works src dst root outcome.0))
    ⊎ ((e : BackendError) × (outcome ≡ (err e, first_disk root)) × Refused want_dir src dst root e)

module _ (want_dir : Bool) (src dst dir : List Bytes) (root n : Node) (named : src ≢ [])
    (target : dst ≢ []) (at : stat root src ≡ ok n) (kind : has_kind want_dir n ≡ true) where
  move_to-Relocates :
      (found : Result OsError Node)
      → stat root dst ≡ found
      → Relocates want_dir src dst dir root (move_to src dst dir root found)
  move_to-Relocates (ok m) there = inr (conflict, refl, inr (inr (inl (m, there, refl))))
  move_to-Relocates (err not_exist) free = inl (
    n,
    at,
    kind,
    free,
    move_free-Moves src dst dir root named target,
    λ same. rw same (move_free-Works src dst root n not_exist named target at free),
  )
  move_to-Relocates (err exist) bad = inr (_, refl, inr (inr (inr (exist, bad, (λ e. cc), refl))))
  move_to-Relocates (err not_dir) bad =
      inr (_, refl, inr (inr (inr (not_dir, bad, (λ e. cc), refl))))
  move_to-Relocates (err not_empty) bad =
      inr (_, refl, inr (inr (inr (not_empty, bad, (λ e. cc), refl))))
  move_to-Relocates (err escapes) bad =
      inr (_, refl, inr (inr (inr (escapes, bad, (λ e. cc), refl))))
  move_to-Relocates (err invalid) bad =
      inr (_, refl, inr (inr (inr (invalid, bad, (λ e. cc), refl))))

move-Relocates :
    (src dst : Bytes) (want_dir : Bool) (root : Node)
    → bytes_eq src dst ≡ false
    → Relocates want_dir
        (names_of src)
        (names_of dst)
        (parent_of dst)
        root
        (move src dst want_dir root)
unfolding move
move-Relocates src dst want_dir root apart = elim (Result-cases (stat root (names_of src))) [
  | inr (e, missing) ↦ inr (map_err e, rw (missing, move) refl, inl (e, missing, refl))
  | inl (n, at) ↦ elim (Bool-cases (has_kind want_dir n)) [
    | inr other ↦ inr (not_found, rw (at, move, other) refl, inr (inl (n, at, other, refl)))
    | inl kind ↦
        let same : move src dst want_dir root
            ≡ move_to (names_of src) (names_of dst) (parent_of dst) root
                (stat root (names_of dst)) =
          rw (at, move, kind, apart) refl in
        rw same (
          move_to-Relocates want_dir (names_of src) (names_of dst) (parent_of dst) root n
            (split-ne-nil (trim_suffix src slash) slash)
            (split-ne-nil (trim_suffix dst slash) slash) at kind (stat root (names_of dst)) refl)
  ]
]

clean_path-open : (p q : Bytes) → clean_path p ≡ ok q → ends_in q slash ≡ false
clean_path-open p q h =
    let (same, c) = (clean_path_iff p q).0 h in rw same (IsJoined-ends_in c.relative)

names-open : (p : Bytes) → ends_in p slash ≡ false → names_of p ≡ split p slash
names-open p h = ap (λ s. split s slash) (trim_suffix_absent p slash h)

parent-open : (p : Bytes) → ends_in p slash ≡ false → parent_of p ≡ parents (split p slash)
parent-open p h = rw h (ap parents (names-open p h))

-- A move of an object between two clean paths that differ. It is refused, and changes nothing, for exactly
-- these reasons: the source is not found, or is no regular file; something is at the target, or the target
-- leads through a file. Otherwise every disk it passes through has all files as before or the one file moved
-- and the others as before; it fails on one of the former, or succeeds on one of the latter; and it succeeds
-- if the target's directory is there and the target is not below the source.
pub move_object_lem :
    (from to f t : Bytes) (root : Node)
    → clean_path from ≡ ok f
    → clean_path to ≡ ok t
    → bytes_eq f t ≡ false
    → Relocates false
        (split f slash)
        (split t slash)
        (parents (split t slash))
        root
        (move_object from to root)
unfolding move_object
move_object_lem from to f t root valid valid' apart =
    let open_f = clean_path-open from f valid in
    let open_t = clean_path-open to t valid' in
    let out : Result BackendError (Unit {0}) × Trail = move f t false root in
    let near =
      subst (λ d. Relocates false (names_of f) (names_of t) d root out) (parent-open t open_t)
        (move-Relocates f t false root apart) in
    let target =
      subst (λ p. Relocates false (names_of f) p (parents (split t slash)) root out)
        (names-open t open_t) near in
    rw (valid, move_object, valid')
      (subst (λ p. Relocates false p (split t slash) (parents (split t slash)) root out)
        (names-open f open_f) target)
