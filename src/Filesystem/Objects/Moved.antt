-- ===== src/Filesystem/Objects/Moved.antt =====
-- `move` of internal/backend/filesystem/filesystem.go from the creation of the target's directory on: what the
-- disks between its steps show, and where it succeeds.
use booth_storage.Base.{
  ◌≡◌, refl, sym, ap, ◌∙◌, subst, ◌⊎◌, inl, inr, ◌≢◌, false, Option, none, some, List, [], ◌++◌,
  Bytes, All-map, refuse_if, Result, ok, err, ◌>>=◌, Result-cases, >>=-eq-ok,
}
use booth_storage.Backend.{BackendError}
use booth_storage.Filesystem.{Trail, attempt, map_err, map_write_err, parents, leaf, mkdir_all}
use booth_storage.Filesystem.Writing.{parents-leaf, Passed, mkdir_all-Passed}
use booth_storage.Filesystem.Disk.{
  OsError, Node, folder, Entries, stat, alter, put_over, drop_all, invalid,
}
use booth_storage.Filesystem.Disk.Lookup.{File, object}
use booth_storage.Filesystem.Disk.Change.{keep, Does}
use booth_storage.Filesystem.Disk.Graft.{
  strip, grafted, graft, Grafts, drop_all-Grafts, put_over-Grafts, object-append, any-none,
}
use booth_storage.Filesystem.Objects.{first_disk, mapped, is_inside, rename, move_free}
use booth_storage.Filesystem.Objects.Renames.{mkdir_all-there, rename-total}

-- Every path shows what it did.
abbrev pub Same : Node → Node → Type 0
Same root n = (q : List Bytes) → object n q ≡ object root q

-- What was at and below the source is at and below the target, the source is gone, and the rest is as before.
abbrev pub Moved : List Bytes → List Bytes → Node → Node → Type 0
Moved src dst root n =
    (q : List Bytes)
    → object n q
      ≡ graft dst (λ r. object root (src ++ r)) q (graft src (λ r. none) q (object root q))

grafted-ext :
    (m m' : List Bytes → Option File) (o : Option File) (at : Option (List Bytes))
    → ((r : List Bytes) → m r ≡ m' r)
    → grafted m o at ≡ grafted m' o at
unfolding grafted
grafted-ext m m' o none same = refl
grafted-ext m m' o (some r) same = same r

rename-Moved :
    (root n m : Node) (src dst : List Bytes)
    → src ≢ []
    → dst ≢ []
    → Same root n
    → rename src dst n ≡ ok m
    → Moved src dst root m
rename-Moved root n m src dst named target same h q =
    let (node, at, rest) =
      >>=-eq-ok (stat n src)
        (λ node. refuse_if (is_inside src dst) invalid >>= λ _.
          alter (drop_all (leaf src)) n (parents src) >>= λ without.
          alter (put_over (leaf dst) node) without (parents dst))
        h in
    let (_, _, rest) =
      >>=-eq-ok (refuse_if (is_inside src dst) invalid)
        (λ _. alter (drop_all (leaf src)) n (parents src) >>= λ without.
          alter (put_over (leaf dst) node) without (parents dst))
        rest in
    let (without, gone, added) =
      >>=-eq-ok (alter (drop_all (leaf src)) n (parents src))
        (λ without. alter (put_over (leaf dst) node) without (parents dst)) rest in
    let drops : Grafts src (λ r. none) n without =
      subst (λ p. Grafts p (λ r. none) n without) (parents-leaf src named)
        (drop_all-Grafts n without (parents src) (leaf src) gone) in
    let adds : Grafts dst (object node) without m =
      subst (λ p. Grafts p (object node) without m) (parents-leaf dst target)
        (put_over-Grafts without m node (parents dst) (leaf dst) added) in
    adds q
    ∙ ap (λ o. graft dst (object node) q o) (drops q ∙ ap (λ o. graft src (λ r. none) q o) (same q))
    ∙ grafted-ext (object node) (λ r. object root (src ++ r))
        (graft src (λ r. none) q (object root q)) (strip dst q)
        (λ r. sym (object-append n node src r at) ∙ same (src ++ r))

-- The outcome of a move from one path to another.
abbrev pub Moves : List Bytes → List Bytes → Node → Result BackendError (Unit {0}) → Trail → Type 0
Moves src dst root r d =
    ((r ≡ ok tt) × Moved src dst root d.now × Passed (λ n. Same root n ⊎ Moved src dst root n) d)
    ⊎ ((e : BackendError) × (r ≡ err e) × Passed (Same root) d)

dirs-Same :
    (root : Node) (path : List Bytes) → Passed (Same root) (mkdir_all [] path (first_disk root)).1
dirs-Same root path =
    let (now, past) =
      mkdir_all-Passed (λ s. false) root path [] (first_disk root) (λ q _. refl, tt) in
    (
      λ q. now q (any-none q),
      All-map {P = Does (λ s. false) keep root} {Q = Same root} (λ n does q. does q (any-none q))
          (mkdir_all [] path (first_disk root)).1.past past,
    )

pub move_free-Moves :
    (src dst dir : List Bytes) (root : Node)
    → src ≢ []
    → dst ≢ []
    → Moves src dst root (move_free src dst dir root).0 (move_free src dst dir root).1
unfolding move_free
move_free-Moves src dst dir root named target =
    let d : Trail = (mkdir_all [] dir (first_disk root)).1 in
    let dirs = dirs-Same root dir in
    elim (Result-cases (mkdir_all [] dir (first_disk root)).0) [
      | inr (e, bad) ↦ rw (bad, move_free) (inr (map_write_err e, refl, dirs))
      | inl (_, good) ↦ elim (Result-cases (rename src dst d.now)) [
        | inr (e, bad) ↦ rw (good, move_free, bad) (inr (map_err e, refl, dirs))
        | inl (m, renamed) ↦
            let moved = rename-Moved root d.now m src dst named target dirs.0 renamed in
            rw (good, move_free, renamed)
              (inl (
                refl,
                moved,
                (inr moved, (inl dirs.0, All-map (λ n same. inl same) d.past dirs.1)),
              ))
      ]
    ]

-- A move succeeds if the target's directory is there and the target is not at or below the source.
abbrev pub Works : List Bytes → List Bytes → Node → Result BackendError (Unit {0}) → Type 0
Works src dst root r =
    (es : Entries)
    → stat root (parents dst) ≡ ok (folder es)
    → is_inside src dst ≡ false
    → r ≡ ok tt

-- `move` behind the creation of the target's directory.
abbrev rename_behind :
    List Bytes
    → List Bytes
    → Result OsError (Unit {0}) × Trail
    → Result BackendError (Unit {0}) × Trail
rename_behind src dst (r, d) = elim r [
  | err e ↦ (err (map_write_err e), d)
  | ok _ ↦ mapped (attempt (rename src dst d.now) d)
]

pub move_free-Works :
    (src dst : List Bytes) (root n : Node) (e : OsError)
    → src ≢ []
    → dst ≢ []
    → stat root src ≡ ok n
    → stat root dst ≡ err e
    → Works src dst root (move_free src dst (parents dst) root).0
unfolding move_free
move_free-Works src dst root n e named target at free es there apart =
    let whole = parents-leaf dst target in
    let (m, renamed) =
      rename-total root n src (parents dst) (leaf dst) es e named at there
        (ap (stat root) whole ∙ free) (ap (is_inside src) whole ∙ apart) in
    let renamed' : rename src dst root ≡ ok m = ap (λ p. rename src p root) (sym whole) ∙ renamed in
    ap (λ x. (rename_behind src dst x).0)
      (mkdir_all-there (first_disk root) [] (parents dst) es there)
    ∙ ap (λ x. (mapped (attempt x (first_disk root))).0) renamed'
