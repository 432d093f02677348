-- ===== src/Filesystem/Disk/Graft.antt =====
-- Whole subtrees of the disk of Filesystem/Disk that are removed or put in place.
use booth_storage.Base.{
  ◌≡◌, refl, sym, ap, ◌∙◌, subst, inl, inr, false, Option, none, some, List, [], ◌∷◌, ◌++◌, Bytes,
  bytes_eq, any, Bool-cases, Option-cases, Result, ok, if◌then◌else◌,
}
use booth_storage.Filesystem.Disk.{
  OsError, Node, file, folder, special, Entries, find_entry, assign, erase, stat, alter, put_over,
  replaces, drop_entry, drop_all,
}
use booth_storage.Filesystem.Disk.Lookup.{
  File, object, descend, object-cons, find-assign, find-erase, stat-cons, ok_entries-injective,
  drop_entry-ok,
}
use booth_storage.Filesystem.Disk.Change.{Change, under, alter-Does}

-- What is left of a path below another.
unfoldable pub strip : List Bytes → List Bytes → Option (List Bytes)
strip [] q = some q
strip (s ∷ p) [] = none
strip (s ∷ p) (k ∷ q) = let rest = strip p q in if bytes_eq s k then rest else none

-- At and below a path the objects become those of `m`.
unfoldable pub grafted :
    (List Bytes → Option File) → Option File → Option (List Bytes) → Option File
grafted m o none = o
grafted m o (some r) = m r

abbrev pub graft : List Bytes → (List Bytes → Option File) → Change
graft p m q o = grafted m o (strip p q)

pub under-graft :
    (dir p q : List Bytes) (m : List Bytes → Option File) (o : Option File)
    → under dir (graft p m) q o ≡ graft (dir ++ p) m q o
unfolding under strip grafted
under-graft [] p q m o = refl
under-graft (s ∷ dir) p [] m o = refl
under-graft (s ∷ dir) p (k ∷ q) m o = elim (Bool-cases (bytes_eq s k)) [
  | inl h ↦ rw h (under-graft dir p q m o)
  | inr h ↦ rw h refl
]

-- A path's subtree becomes this one, and nothing else changes.
abbrev pub Grafts : List Bytes → (List Bytes → Option File) → Node → Node → Type 0
Grafts p m n changed = (q : List Bytes) → object changed q ≡ graft p m q (object n q)

pub any-none : (q : List Bytes) → any (λ (s : Bytes). false) q ≡ false
any-none [] = refl
any-none (s ∷ q) = any-none q

entries-Grafts :
    (es after : Entries) (name : Bytes) (o : Option Node)
    → ((k : Bytes) → find_entry k after ≡ (if bytes_eq name k then o else find_entry k es))
    → Grafts (name ∷ []) (descend o) (folder es) (folder after)
unfolding strip grafted
entries-Grafts es after name o same [] = unfold object in refl
entries-Grafts es after name o same (k ∷ q) =
    rw (object-cons after k q, object-cons es k q, same k)
      (elim (Bool-cases (bytes_eq name k)) [ inl h ↦ rw h refl | inr h ↦ rw h refl ])

pub alter-Grafts :
    (f : Entries → Result OsError Entries) (m : List Bytes → Option File) (root changed : Node)
    (dir : List Bytes) (name : Bytes)
    → ((es after : Entries)
        → stat root dir ≡ ok (folder es)
        → f es ≡ ok after
        → Grafts (name ∷ []) m (folder es) (folder after))
    → alter f root dir ≡ ok changed
    → Grafts (dir ++ name ∷ []) m root changed
alter-Grafts f m root changed dir name does h q =
    alter-Does (λ s. false) f (graft (name ∷ []) m) root changed dir
      (λ es after at e r _. does es after at e r) h q (any-none q)
    ∙ under-graft dir (name ∷ []) q m (object root q)

abbrev ok_node : Node → Result OsError Node
ok_node n = ok n

ok-injective : {a b : Node} → ok_node a ≡ ok_node b → a ≡ b
ok-injective h = cc

erase-Grafts :
    (es : Entries) (name : Bytes)
    → Grafts (name ∷ []) (λ r. none) (folder es) (folder (erase name es))
erase-Grafts es name q = entries-Grafts es (erase name es) name none (λ k. find-erase name k es) q

pub drop_all-Grafts :
    (root changed : Node) (dir : List Bytes) (name : Bytes)
    → alter (drop_all name) root dir ≡ ok changed
    → Grafts (dir ++ name ∷ []) (λ r. none) root changed
unfolding drop_all
drop_all-Grafts root changed dir name h =
    alter-Grafts (drop_all name) (λ r. none) root changed dir name
      (λ es after _ e.
        subst (λ x. Grafts (name ∷ []) (λ r. none) (folder es) (folder x)) (ok_entries-injective e)
          (erase-Grafts es name))
      h

pub drop_entry-Grafts :
    (root changed : Node) (dir : List Bytes) (name : Bytes)
    → alter (drop_entry name) root dir ≡ ok changed
    → Grafts (dir ++ name ∷ []) (λ r. none) root changed
drop_entry-Grafts root changed dir name h =
    alter-Grafts (drop_entry name) (λ r. none) root changed dir name
      (λ es after _ e.
        subst (λ x. Grafts (name ∷ []) (λ r. none) (folder es) (folder x))
          (sym (drop_entry-ok name es after e)) (erase-Grafts es name))
      h

put_over-ok :
    (name : Bytes) (n : Node) (es after : Entries)
    → put_over name n es ≡ ok after
    → after ≡ assign name n es
unfolding put_over
put_over-ok name n es after h = elim (Option-cases (find_entry name es)) [
  | inl free ↦ sym (ok_entries-injective (rw (free, put_over) at h))
  | inr (m, there) ↦ elim (Bool-cases (replaces n m)) [
    | inl over ↦ sym (ok_entries-injective (rw (there, put_over, over) at h))
    | inr taken ↦ cc (rw (there, put_over, taken) at h)
  ]
]

pub put_over-Grafts :
    (root changed n : Node) (dir : List Bytes) (name : Bytes)
    → alter (put_over name n) root dir ≡ ok changed
    → Grafts (dir ++ name ∷ []) (object n) root changed
put_over-Grafts root changed n dir name h =
    alter-Grafts (put_over name n) (object n) root changed dir name
      (λ es after _ e.
        subst (λ x. Grafts (name ∷ []) (object n) (folder es) (folder x))
          (sym (put_over-ok name n es after e))
          (entries-Grafts es (assign name n es) name (some n) (λ k. find-assign name k n es)))
      h

-- What is below a node that `stat` finds.
pub object-append :
    (root n : Node) (path r : List Bytes)
    → stat root path ≡ ok n
    → object root (path ++ r) ≡ object n r
unfolding stat
object-append root n [] r h = ap (λ m. object m r) (ok-injective h)
object-append (file c t) n (s ∷ path) r h = cc
object-append special n (s ∷ path) r h = cc
object-append (folder es) n (s ∷ path) r h = elim (Option-cases (find_entry s es)) [
  | inl missing ↦ cc (rw (missing, stat) at h)
  | inr (m, found) ↦
      object-cons es s (path ++ r)
      ∙ ap (λ o. descend o (path ++ r)) found
      ∙ object-append m n path r (sym (stat-cons es s m path found) ∙ h)
]

-- What `stat` finds at a path is an entry of the directory that it finds at the path's parent.
pub stat-parent :
    (root n : Node) (dir : List Bytes) (name : Bytes)
    → stat root (dir ++ name ∷ []) ≡ ok n
    → (es : Entries) × (stat root dir ≡ ok (folder es)) × (find_entry name es ≡ some n)
unfolding stat
stat-parent (file c t) n [] name h = cc
stat-parent (file c t) n (s ∷ dir) name h = cc
stat-parent special n [] name h = cc
stat-parent special n (s ∷ dir) name h = cc
stat-parent (folder es) n [] name h = elim (Option-cases (find_entry name es)) [
  | inl missing ↦ cc (rw (missing, stat) at h)
  | inr (m, found) ↦ (es, refl, found ∙ ap (λ k. some k) (ok-injective (rw (found, stat) at h)))
]
stat-parent (folder es) n (s ∷ dir) name h = elim (Option-cases (find_entry s es)) [
  | inl missing ↦ cc (rw (missing, stat) at h)
  | inr (m, found) ↦
      let (below, at, there) =
        stat-parent m n dir name (sym (stat-cons es s m (dir ++ name ∷ []) found) ∙ h) in
      (below, stat-cons es s m dir found ∙ at, there)
]
