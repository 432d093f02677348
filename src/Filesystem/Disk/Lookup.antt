-- ===== src/Filesystem/Disk/Lookup.antt =====
-- What a change of the disk of Filesystem/Disk does to the regular files on it, by their paths.
use booth_storage.Base.{
  ℕ, ◌≡◌, refl, sym, ap, ◌∙◌, inl, inr, Option, none, some, List, [], ◌∷◌, ◌++◌, Bytes, bytes_eq,
  bytes_eq_iff, bytes_eq_refl, Bool-cases, Option-cases, Result, ok, err, >>=-eq-ok, arith,
  if◌then◌else◌,
}
use booth_storage.Filesystem.Disk.{
  OsError, Node, file, folder, special, Entries, vacant, entry, find_entry, assign, erase, stat,
  alter, add_new, drop_entry, is_vacant,
}

-- A regular file's content and time.
abbrev pub File : Type 0
File = Bytes × ℕ

-- The regular file at a path.
unfoldable pub object : Node → List Bytes → Option File
object (file content time) [] = some (content, time)
object (file content time) (s ∷ path) = none
object special path = none
object (folder es) [] = none
object (folder es) (s ∷ path) = elim (find_entry s es) [ none ↦ none | some n ↦ object n path ]

pub find-assign :
    (name k : Bytes) (n : Node) (es : Entries)
    → find_entry k (assign name n es) ≡ (if bytes_eq name k then some n else find_entry k es)
unfolding find_entry assign
find-assign name k n vacant = ground arith
find-assign name k n (entry other m es) = ground (
  arith,
  find-assign name k n es,
  bytes_eq_iff other name,
  bytes_eq_iff other k,
  bytes_eq_iff name k,
)

pub find-erase :
    (name k : Bytes) (es : Entries)
    → find_entry k (erase name es) ≡ (if bytes_eq name k then none else find_entry k es)
unfolding find_entry erase
find-erase name k vacant = ground arith
find-erase name k (entry other m es) = ground (
  arith,
  find-erase name k es,
  bytes_eq_iff other name,
  bytes_eq_iff other k,
  bytes_eq_iff name k,
)

abbrev ok_node : Node → Result OsError Node
ok_node n = ok n

ok-injective : {a b : Node} → ok_node a ≡ ok_node b → a ≡ b
ok-injective h = cc

pub alter-vacant :
    (f : Entries → Result OsError Entries) (es : Entries) (m : Node)
    → alter f (folder es) [] ≡ ok m
    → (changed : Entries) × (f es ≡ ok changed) × (m ≡ folder changed)
unfolding alter
alter-vacant f es m h =
    let (changed, e, last) = >>=-eq-ok (f es) _ h in (changed, e, sym (ok-injective last))

pub alter-cons :
    (f : Entries → Result OsError Entries) (es : Entries) (s : Bytes) (dir : List Bytes) (m : Node)
    → alter f (folder es) (s ∷ dir) ≡ ok m
    → (n n' : Node) × (find_entry s es ≡ some n)
      × (alter f n dir ≡ ok n')
      × (m ≡ folder (assign s n' es))
unfolding alter
alter-cons f es s dir m h = elim (Option-cases (find_entry s es)) [
  | inl missing ↦ cc (rw (missing, alter) at h)
  | inr (n, found) ↦
      let (n', e, last) = >>=-eq-ok (alter f n dir) _ (rw (found, alter) at h) in
      (n, n', found, e, sym (ok-injective last))
]

-- A path that begins with an entry's name leads to the entry's node.
abbrev pub descend : Option Node → List Bytes → Option File
descend none path = none
descend (some n) path = object n path

pub object-cons :
    (es : Entries) (s : Bytes) (path : List Bytes)
    → object (folder es) (s ∷ path) ≡ descend (find_entry s es) path
unfolding object
object-cons es s path = ground arith

pub stat-cons :
    (es : Entries) (s : Bytes) (n : Node) (path : List Bytes)
    → find_entry s es ≡ some n
    → stat (folder es) (s ∷ path) ≡ stat n path
unfolding stat
stat-cons es s n path h = rw (h, stat) refl

-- What is at and below the directory comes from the change of its entries.
pub alter-inside :
    (f : Entries → Result OsError Entries) (root changed : Node) (dir : List Bytes)
    → alter f root dir ≡ ok changed
    → (es after : Entries) × (f es ≡ ok after)
      × (stat root dir ≡ ok (folder es))
      × (stat changed dir ≡ ok (folder after))
      × ((path : List Bytes) → object root (dir ++ path) ≡ object (folder es) path)
      × ((path : List Bytes) → object changed (dir ++ path) ≡ object (folder after) path)
alter-inside f (file c t) changed dir h = unfold alter in cc
alter-inside f special changed dir h = unfold alter in cc
alter-inside f (folder es) changed [] h =
    let (after, e, same) = alter-vacant f es changed h in
    (
      es,
      after,
      e,
      unfold stat in refl,
      rw same (unfold stat in refl),
      λ path. refl,
      λ path. ap (λ n. object n path) same,
    )
alter-inside f (folder es) changed (s ∷ dir) h =
    let (n, n', found, e, same) = alter-cons f es s dir changed h in
    let (before, after, step, at, at', inside, inside') = alter-inside f n n' dir e in
    let there : find_entry s (assign s n' es) ≡ some n' =
      ground (arith, find-assign s s n' es, bytes_eq_refl s) in
    (
      before,
      after,
      step,
      stat-cons es s n dir found ∙ at,
      rw same (stat-cons (assign s n' es) s n' dir there ∙ at'),
      λ path.
          object-cons es s (dir ++ path) ∙ ap (λ o. descend o (dir ++ path)) found ∙ inside path,
      λ path.
          ap (λ m. object m (s ∷ dir ++ path)) same
          ∙ object-cons (assign s n' es) s (dir ++ path)
          ∙ ap (λ o. descend o (dir ++ path)) there
          ∙ inside' path,
    )

-- An object is a file that `stat` finds.
pub object-stat :
    (root : Node) (path : List Bytes) (f : File)
    → object root path ≡ some f
    → stat root path ≡ ok (file f.0 f.1)
unfolding object stat
object-stat (file c t) [] f h = cc
object-stat (file c t) (s ∷ path) f h = cc
object-stat special path f h = cc
object-stat (folder es) [] f h = cc
object-stat (folder es) (s ∷ path) f h = elim (Option-cases (find_entry s es)) [
  | inl missing ↦ cc (rw (missing, object) at h)
  | inr (n, found) ↦
      stat-cons es s n path found
      ∙ object-stat n path f (sym (object-cons es s path ∙ ap (λ o. descend o path) found) ∙ h)
]

abbrev pub ok_entries : Entries → Result OsError Entries
ok_entries es = ok es

pub ok_entries-injective : {a b : Entries} → ok_entries a ≡ ok_entries b → a ≡ b
ok_entries-injective h = cc

pub add_new-ok :
    (name : Bytes) (n : Node) (es after : Entries)
    → add_new name n es ≡ ok after
    → (find_entry name es ≡ none) × (after ≡ assign name n es)
unfolding add_new
add_new-ok name n es after h = elim (Option-cases (find_entry name es)) [
  | inl free ↦ (free, sym (ok_entries-injective (rw (free, add_new) at h)))
  | inr (m, there) ↦ cc (rw (there, add_new) at h)
]

pub drop_entry-ok :
    (name : Bytes) (es after : Entries) → drop_entry name es ≡ ok after → after ≡ erase name es
unfolding drop_entry
drop_entry-ok name es after h = elim (Option-cases (find_entry name es)) [
  | inl free ↦ cc (rw (free, drop_entry) at h)
  | inr (n, there) ↦ elim (Bool-cases (is_vacant n)) [
    | inl lone ↦ sym (ok_entries-injective (rw (there, lone, drop_entry) at h))
    | inr full ↦ cc (rw (there, full, drop_entry) at h)
  ]
]

abbrev pub seen : Result OsError Node → Option File
seen (ok (file c t)) = some (c, t)
seen (ok n) = none
seen (err e) = none

pub object-seen : (root : Node) (path : List Bytes) → object root path ≡ seen (stat root path)
unfolding object stat
object-seen (file c t) [] = refl
object-seen (file c t) (s ∷ path) = refl
object-seen special [] = refl
object-seen special (s ∷ path) = refl
object-seen (folder es) [] = refl
object-seen (folder es) (s ∷ path) = elim (Option-cases (find_entry s es)) [
  | inl missing ↦ rw (missing, object, stat) refl
  | inr (n, found) ↦ rw (found, object, stat) (object-seen n path)
]
