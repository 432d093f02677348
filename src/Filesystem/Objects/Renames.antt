-- ===== src/Filesystem/Objects/Renames.antt =====
-- `Root.Rename` as internal/backend/filesystem/filesystem.go calls it: where it succeeds.
use booth_storage.Base.{
  ◌≡◌, ◌≢◌, refl, sym, ap, ◌∙◌, inl, inr, false, none, some, List, [], ◌∷◌, ◌++◌, Bytes, bytes_eq,
  bytes_eq_iff, Bool-cases, Option-cases, append_assoc, Result, ok, err, arith,
}
use booth_storage.Filesystem.{Trail, parents, leaf, mkdir_all, must_be_folder, made}
use booth_storage.Filesystem.Writing.{parents-leaf}
use booth_storage.Filesystem.Disk.{
  OsError, exist, Node, file, folder, special, Entries, find_entry, assign, erase, stat, alter,
  add_new, mkdir, drop_all, put_over,
}
use booth_storage.Filesystem.Disk.Lookup.{
  find-assign, find-erase, alter-vacant, alter-cons, stat-cons, ok_entries-injective,
}
use booth_storage.Filesystem.Disk.Change.{alter-total}
use booth_storage.Filesystem.Disk.Graft.{stat-parent}
use booth_storage.Filesystem.Objects.{is_inside, rename}

abbrev ok_node : Node → Result OsError Node
ok_node n = ok n

same_folder : {a b : Entries} → ok_node (folder a) ≡ ok_node (folder b) → a ≡ b
same_folder h = cc

-- What is on the way to a directory is a directory.
stat-front :
    (root : Node) (p q : List Bytes) (es : Entries)
    → stat root (p ++ q) ≡ ok (folder es)
    → (front : Entries) × (stat root p ≡ ok (folder front))
unfolding stat
stat-front (file c t) [] [] es h = cc
stat-front (file c t) [] (s ∷ q) es h = cc
stat-front special [] [] es h = cc
stat-front special [] (s ∷ q) es h = cc
stat-front (folder here) [] q es h = (here, refl)
stat-front (file c t) (s ∷ p) q es h = cc
stat-front special (s ∷ p) q es h = cc
stat-front (folder here) (s ∷ p) q es h = elim (Option-cases (find_entry s here)) [
  | inl missing ↦ cc (rw (missing, stat) at h)
  | inr (n, found) ↦
      let (front, at) = stat-front n p q es (sym (stat-cons here s n (p ++ q) found) ∙ h) in
      (front, stat-cons here s n p found ∙ at)
]

alter-refused :
    (f : Entries → Result OsError Entries) (root : Node) (dir : List Bytes) (es : Entries)
    (e : OsError)
    → stat root dir ≡ ok (folder es)
    → f es ≡ err e
    → alter f root dir ≡ err e
unfolding stat alter
alter-refused f (file c t) [] es e at h = cc
alter-refused f (file c t) (s ∷ dir) es e at h = cc
alter-refused f special [] es e at h = cc
alter-refused f special (s ∷ dir) es e at h = cc
alter-refused f (folder here) [] es e at h = rw (same_folder at, h) refl
alter-refused f (folder here) (s ∷ dir) es e at h = elim (Option-cases (find_entry s here)) [
  | inl missing ↦ cc (rw (missing, stat) at at)
  | inr (n, found) ↦
      rw (found, alter, alter-refused f n dir es e (sym (stat-cons here s n dir found) ∙ at) h) refl
]

add_new-there :
    (name : Bytes) (n m : Node) (es : Entries)
    → find_entry name es ≡ some m
    → add_new name n es ≡ err exist
unfolding add_new
add_new-there name n m es h = rw (h, add_new) refl

-- `mkdirAll` behind its first directory.
abbrev mkdir_behind :
    List Bytes → List Bytes → Result OsError (Unit {0}) × Trail → Result OsError (Unit {0}) × Trail
mkdir_behind built path (r, d) = elim r [ err e ↦ (err e, d) | ok _ ↦ mkdir_all built path d ]

-- Where the directory is there, `mkdirAll` changes nothing.
pub mkdir_all-there :
    (d : Trail) (built path : List Bytes) (es : Entries)
    → stat d.now (built ++ path) ≡ ok (folder es)
    → mkdir_all built path d ≡ (ok tt, d)
unfolding mkdir_all
mkdir_all-there d built [] es at = refl
mkdir_all-there d built (s ∷ path) es at =
    let way : stat d.now ((built ++ s ∷ []) ++ path) ≡ ok (folder es) =
      ap (stat d.now) (append_assoc built (s ∷ []) path) ∙ at in
    let (front, here) = stat-front d.now (built ++ s ∷ []) path es way in
    let (dir, above, found) = stat-parent d.now (folder front) built s here in
    let refused =
      alter-refused (add_new s (folder Entries.vacant)) d.now built dir exist above
        (add_new-there s (folder Entries.vacant) (folder front) dir found) in
    let there : made d (built ++ s ∷ []) (mkdir d.now built s) ≡ (ok tt, d) =
      ap (made d (built ++ s ∷ [])) refused ∙ ap (λ r. (must_be_folder r, d)) here in
    ap (mkdir_behind (built ++ s ∷ []) path) there ∙ mkdir_all-there d (built ++ s ∷ []) path es way

-- A directory that is not at or below what was removed is there still, with no new name in it.
abbrev Stays : List Bytes → Entries → Node → Type 0
Stays p es without =
    (after : Entries) × (stat without p ≡ ok (folder after))
    × ((k : Bytes) → find_entry k es ≡ none → find_entry k after ≡ none)

drop-here :
    (here : Entries) (name : Bytes) (p : List Bytes) (es : Entries)
    → stat (folder here) p ≡ ok (folder es)
    → is_inside (name ∷ []) p ≡ false
    → Stays p es (folder (erase name here))
unfolding is_inside stat
drop-here here name [] es at apart =
    (erase name here, refl, λ k free. ground (arith, find-erase name k here, same_folder at, free))
drop-here here name (k ∷ p) es at apart =
    let kept : find_entry k (erase name here) ≡ find_entry k here =
      ground (arith, find-erase name k here, apart) in
    elim (Option-cases (find_entry k here)) [
      | inl missing ↦ cc (rw (missing, stat) at at)
      | inr (n, found) ↦ (
        es,
        stat-cons (erase name here) k n p (kept ∙ found) ∙ sym (stat-cons here k n p found) ∙ at,
        λ j free. free,
      )
    ]

drop-below :
    (here : Entries) (name s : Bytes) (dir : List Bytes) (n n' : Node)
    → find_entry s here ≡ some n
    → alter (drop_all name) n dir ≡ ok n'
    → (p : List Bytes) (es : Entries) → stat (folder here) p ≡ ok (folder es)
    → is_inside (s ∷ dir ++ name ∷ []) p ≡ false
    → ((q : List Bytes)
        → stat n q ≡ ok (folder es)
        → is_inside (dir ++ name ∷ []) q ≡ false
        → Stays q es n')
    → Stays p es (folder (assign s n' here))
unfolding is_inside stat
drop-below here name s dir n n' found e [] es at apart below = (
  assign s n' here,
  refl,
  λ k free. ground (arith, find-assign s k n' here, same_folder at, free, found, bytes_eq_iff s k),
)
drop-below here name s dir n n' found e (k ∷ p) es at apart below =
    elim (Bool-cases (bytes_eq s k)) [
      | inl equal ↦
          let same : s ≡ k = (bytes_eq_iff s k).0 equal in
          let found' : find_entry k here ≡ some n =
            ap (λ x. find_entry x here) (sym same) ∙ found in
          let now : find_entry k (assign s n' here) ≡ some n' =
            ground (arith, find-assign s k n' here, equal) in
          let (after, at', free) =
            below p (sym (stat-cons here k n p found') ∙ at) (ground (arith, apart, equal)) in
          (after, stat-cons (assign s n' here) k n' p now ∙ at', free)
      | inr other ↦
          let kept : find_entry k (assign s n' here) ≡ find_entry k here =
            ground (arith, find-assign s k n' here, other) in
          elim (Option-cases (find_entry k here)) [
            | inl missing ↦ cc (rw (missing, stat) at at)
            | inr (m, there) ↦ (
              es,
              stat-cons (assign s n' here) k m p (kept ∙ there)
                  ∙ sym (stat-cons here k m p there)
                  ∙ at,
              λ j free. free,
            )
          ]
    ]

drop-Stays :
    (root without : Node) (name : Bytes) (dir p : List Bytes) (es : Entries)
    → alter (drop_all name) root dir ≡ ok without
    → stat root p ≡ ok (folder es)
    → is_inside (dir ++ name ∷ []) p ≡ false
    → Stays p es without
unfolding is_inside
drop-Stays (file c t) without name dir p es h at apart = unfold alter in cc
drop-Stays special without name dir p es h at apart = unfold alter in cc
drop-Stays (folder here) without name [] p es h at apart =
    let (after, e, same) = alter-vacant (drop_all name) here without h in
    let erased : after ≡ erase name here = sym (ok_entries-injective (unfold drop_all in e)) in
    rw (same, erased) (drop-here here name p es at apart)
drop-Stays (folder here) without name (s ∷ dir) p es h at apart =
    let (n, n', found, e, same) = alter-cons (drop_all name) here s dir without h in
    rw same (
      drop-below here name s dir n n' found e p es at apart
        (λ q at' apart'. drop-Stays n n' name dir q es e at' apart'))

is_inside-front :
    (src q : List Bytes) (x : Bytes) → is_inside src (q ++ x ∷ []) ≡ false → is_inside src q ≡ false
unfolding is_inside
is_inside-front [] q x h = cc
is_inside-front (s ∷ src) [] x h = refl
is_inside-front (s ∷ src) (t ∷ q) x h = ground (arith, h, is_inside-front src q x)

put_over-free :
    (name : Bytes) (n : Node) (es : Entries)
    → find_entry name es ≡ none
    → put_over name n es ≡ ok (assign name n es)
unfolding put_over
put_over-free name n es h = rw (h, put_over) refl

-- A name that leads nowhere is not in its directory.
name-free :
    (root : Node) (dir : List Bytes) (name : Bytes) (es : Entries) (e : OsError)
    → stat root dir ≡ ok (folder es)
    → stat root (dir ++ name ∷ []) ≡ err e
    → find_entry name es ≡ none
unfolding stat
name-free (file c t) [] name es e at h = cc
name-free (file c t) (s ∷ dir) name es e at h = cc
name-free special [] name es e at h = cc
name-free special (s ∷ dir) name es e at h = cc
name-free (folder here) [] name es e at h = elim (Option-cases (find_entry name here)) [
  | inl missing ↦ ap (find_entry name) (sym (same_folder at)) ∙ missing
  | inr (n, found) ↦ cc (rw (found, stat) at h)
]
name-free (folder here) (s ∷ dir) name es e at h = elim (Option-cases (find_entry s here)) [
  | inl missing ↦ cc (rw (missing, stat) at at)
  | inr (n, found) ↦
      name-free n dir name es e (sym (stat-cons here s n dir found) ∙ at)
        (sym (stat-cons here s n (dir ++ name ∷ []) found) ∙ h)
]

parents-append : (dir : List Bytes) (name : Bytes) → parents (dir ++ name ∷ []) ≡ dir
unfolding parents
parents-append [] name = refl
parents-append (s ∷ []) name = refl
parents-append (s ∷ t ∷ dir) name = ap (λ l. s ∷ l) (parents-append (t ∷ dir) name)

leaf-append : (dir : List Bytes) (name : Bytes) → leaf (dir ++ name ∷ []) ≡ name
unfolding leaf
leaf-append [] name = refl
leaf-append (s ∷ []) name = refl
leaf-append (s ∷ t ∷ dir) name = leaf-append (t ∷ dir) name

rename-steps :
    (root n without m : Node) (src dir : List Bytes) (name : Bytes)
    → stat root src ≡ ok n
    → is_inside src (dir ++ name ∷ []) ≡ false
    → alter (drop_all (leaf src)) root (parents src) ≡ ok without
    → alter (put_over name n) without dir ≡ ok m
    → rename src (dir ++ name ∷ []) root ≡ ok m
rename-steps root n without m src dir name at apart gone put =
    rw (at, apart, gone, parents-append dir name, leaf-append dir name) put

-- A rename succeeds where something is at the source, the target is free in a directory that is there, and
-- it is not at or below the source.
pub rename-total :
    (root n : Node) (src dir : List Bytes) (name : Bytes) (es : Entries) (e : OsError)
    → src ≢ []
    → stat root src ≡ ok n
    → stat root dir ≡ ok (folder es)
    → stat root (dir ++ name ∷ []) ≡ err e
    → is_inside src (dir ++ name ∷ []) ≡ false
    → (m : Node) × (rename src (dir ++ name ∷ []) root ≡ ok m)
rename-total root n src dir name es e named at there free apart =
    let whole = parents-leaf src named in
    let (here, above, found) =
      stat-parent root n (parents src) (leaf src) (ap (stat root) whole ∙ at) in
    let (without, gone, _) =
      alter-total (drop_all (leaf src)) root (parents src) here (erase (leaf src) here) above
        (unfold drop_all in refl) in
    let (after, there', bare) =
      drop-Stays root without (leaf src) (parents src) dir es gone there
        (ap (λ p. is_inside p dir) whole ∙ is_inside-front src dir name apart) in
    let (m, put, _) =
      alter-total (put_over name n) without dir after (assign name n after) there'
        (put_over-free name n after (bare name (name-free root dir name es e there free))) in
    (m, rename-steps root n without m src dir name at apart gone put)
