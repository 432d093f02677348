-- ===== src/Filesystem/Disk/Change.antt =====
-- What a change of one directory of the disk of Filesystem/Disk does to the regular files on it.
use booth_storage.Base.{
  ◌≡◌, refl, sym, ◌∙◌, inl, inr, Bool, true, false, ◌&&◌, Option, List, [], ◌∷◌, ◌++◌, Bytes,
  bytes_eq, bytes_eq_iff, bytes_eq_refl, any, Bool-cases, Option-cases, Result, ok, arith,
  if◌then◌else◌,
}
use booth_storage.Filesystem.Disk.{
  OsError, Node, file, folder, special, Entries, find_entry, assign, stat, alter,
}
use booth_storage.Filesystem.Disk.Lookup.{
  File, object, object-cons, alter-vacant, alter-cons, find-assign, stat-cons,
}

unfoldable pub path_eq : List Bytes → List Bytes → Bool
path_eq [] [] = true
path_eq [] (t ∷ q) = false
path_eq (s ∷ p) [] = false
path_eq (s ∷ p) (t ∷ q) = bytes_eq s t && path_eq p q

-- What becomes of the regular file at each path.
abbrev pub Change : Type 0
Change = List Bytes → Option File → Option File

abbrev pub keep : Change
keep q o = o

abbrev pub sets : List Bytes → Option File → Change
sets p new q o = if path_eq p q then new else o

-- A change below a directory.
unfoldable pub under : List Bytes → Change → Change
under [] g q o = g q o
under (s ∷ dir) g [] o = o
under (s ∷ dir) g (k ∷ q) o = if bytes_eq s k then under dir g q o else o

pub under-keep : (dir q : List Bytes) (o : Option File) → under dir keep q o ≡ o
unfolding under
under-keep [] q o = refl
under-keep (s ∷ dir) [] o = refl
under-keep (s ∷ dir) (k ∷ q) o = elim (Bool-cases (bytes_eq s k)) [
  | inl h ↦ rw h (under-keep dir q o)
  | inr h ↦ rw h refl
]

pub under-sets :
    (dir p q : List Bytes) (new o : Option File)
    → under dir (sets p new) q o ≡ sets (dir ++ p) new q o
unfolding under path_eq
under-sets [] p q new o = refl
under-sets (s ∷ dir) p [] new o = refl
under-sets (s ∷ dir) p (k ∷ q) new o = elim (Bool-cases (bytes_eq s k)) [
  | inl h ↦ rw h (under-sets dir p q new o)
  | inr h ↦ rw h refl
]

-- The change of the objects at the paths that have no segment of a secret name.
module _ (secret : Bytes → Bool) where
  abbrev pub Does : Change → Node → Node → Type 0
  Does g n m = (q : List Bytes) → any secret q ≡ false → object m q ≡ g q (object n q)

  -- The change of a directory's entries takes effect below the directory, and nowhere else.
  pub alter-Does :
      (f : Entries → Result OsError Entries) (g : Change) (root changed : Node) (dir : List Bytes)
      → ((es after : Entries)
          → stat root dir ≡ ok (folder es)
          → f es ≡ ok after
          → Does g (folder es) (folder after))
      → alter f root dir ≡ ok changed
      → Does (under dir g) root changed
  unfolding under
  alter-Does f g (file c t) changed dir does h q seen = unfold alter in cc
  alter-Does f g special changed dir does h q seen = unfold alter in cc
  alter-Does f g (folder es) changed [] does h q seen =
      let (after, e, same) = alter-vacant f es changed h in
      rw same (does es after (unfold stat in refl) e q seen)
  alter-Does f g (folder es) changed (s ∷ dir) does h [] seen =
      let (n, n', _, _, same) = alter-cons f es s dir changed h in rw same (unfold object in refl)
  alter-Does f g (folder es) changed (s ∷ dir) does h (k ∷ q) seen =
      let (n, n', found, e, same) = alter-cons f es s dir changed h in
      rw (same, object-cons es k q, object-cons (assign s n' es) k q, find-assign s k n' es)
        (elim (Bool-cases (bytes_eq s k)) [
          | inr other ↦ rw other refl
          | inl here ↦
              rw (here, ← (bytes_eq_iff s k).0 here, found)
                (alter-Does f g n n' dir
                  (λ before after at step. does before after (stat-cons es s n dir found ∙ at) step)
                  e q (ground arith))
        ])

-- Where there is a directory, a change of its entries that succeeds changes the disk.
pub alter-total :
    (f : Entries → Result OsError Entries) (root : Node) (dir : List Bytes) (es after : Entries)
    → stat root dir ≡ ok (folder es)
    → f es ≡ ok after
    → (changed : Node) × (alter f root dir ≡ ok changed) × (stat changed dir ≡ ok (folder after))
unfolding stat alter
alter-total f (file c t) [] es after at e = cc
alter-total f (file c t) (s ∷ dir) es after at e = cc
alter-total f special [] es after at e = cc
alter-total f special (s ∷ dir) es after at e = cc
alter-total f (folder here) [] es after at e =
    let same : here ≡ es = cc in (folder after, rw (same, e) refl, refl)
alter-total f (folder here) (s ∷ dir) es after at e = elim (Option-cases (find_entry s here)) [
  | inl missing ↦ cc (rw (missing, stat) at at)
  | inr (n, found) ↦
      let (m, changes, at') =
        alter-total f n dir es after (sym (stat-cons here s n dir found) ∙ at) e in
      (
        folder (assign s m here),
        rw (found, alter, changes) refl,
        stat-cons (assign s m here) s m dir
              (ground (arith, find-assign s s m here, bytes_eq_refl s))
            ∙ at',
      )
]
