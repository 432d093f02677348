-- ===== src/Backend/Flat/Memory.antt =====
-- A flat store in memory, which meets `FlatLaws`: one page holds a whole listing, and a list of
-- planned faults says which copies fail.
use booth_storage.Base.{
  ℕ, ◌≡◌, ◌⊎◌, refl, sym, Bool, true, false, Option, none, some, List, [], ◌∷◌, ◌++◌, append-nil,
  Bytes, contains, bytes_eq, bytes_eq_iff, has_prefix, Result, ok, err, Exec, arith, if◌then◌else◌,
}
use booth_storage.Backend.{BackendError, not_found, failed, ObjectInfo, ListOptions, ListResult}
use booth_storage.Backend.Path.{clean_prefix}
use booth_storage.Backend.Flat.{FlatStore, paths, page_options}
use booth_storage.Backend.Flat.Laws.{FlatLaws, is_some, after}

pub record Shelf : Type 0 where
  pub objects : List (Bytes × ℕ)
  pub copy_faults : List Bool

unfoldable pub lookup : Bytes → List (Bytes × ℕ) → Option ℕ
lookup k [] = none
lookup k ((j, v) ∷ m) = if bytes_eq j k then some v else lookup k m

unfoldable pub remove : Bytes → List (Bytes × ℕ) → List (Bytes × ℕ)
remove k [] = []
remove k ((j, v) ∷ m) = let rest = remove k m in if bytes_eq j k then rest else (j, v) ∷ rest

pub lookup-remove :
    (k j : Bytes) (m : List (Bytes × ℕ))
    → lookup j (remove k m) ≡ (if bytes_eq k j then none else lookup j m)
unfolding lookup remove
lookup-remove k j [] = ground arith
lookup-remove k j ((i, v) ∷ m) =
    ground (arith, lookup-remove k j m, bytes_eq_iff i k, bytes_eq_iff i j, bytes_eq_iff k j)

unfoldable pub info : Bytes → ObjectInfo
info k = record { path = k; size = 0; mod_time = 0; content_type = []; etag = []; is_dir = false }

unfoldable pub under : Bytes → List (Bytes × ℕ) → List ObjectInfo
under prefix [] = []
under prefix ((k, v) ∷ m) =
    let rest = under prefix m in if has_prefix k prefix then info k ∷ rest else rest

contains-under :
    (prefix k : Bytes) (m : List (Bytes × ℕ))
    → contains (paths (under prefix m)) k
      ≡ (if has_prefix k prefix then is_some (lookup k m) else false)
unfolding contains under lookup info
contains-under prefix k [] = ground arith
contains-under prefix k ((j, v) ∷ m) = ground (arith, contains-under prefix k m, bytes_eq_iff j k)

unfoldable pub shelf_list : ListOptions → Exec Shelf BackendError ListResult
shelf_list o s = (
  ok (record {
    entries = if bytes_eq o.cursor [] then under o.prefix s.objects else [];
    next_cursor = [];
  }),
  s,
)

unfoldable pub next_fault : List Bool → Bool
next_fault [] = false
next_fault (b ∷ bs) = b

unfoldable pub rest_faults : List Bool → List Bool
rest_faults [] = []
rest_faults (b ∷ bs) = bs

unfoldable pub shelf_copy : Bytes → Bytes → Exec Shelf BackendError (Unit {0})
shelf_copy from to s = elim (lookup from s.objects) [
  | none ↦ (err not_found, s)
  | some v ↦
      if next_fault s.copy_faults
      then (err (failed []), record s { copy_faults = rest_faults s.copy_faults })
      else (
        ok tt,
        record { objects = (to, v) ∷ s.objects; copy_faults = rest_faults s.copy_faults },
      )
]

unfoldable pub shelf_delete : Bytes → Exec Shelf BackendError (Unit {0})
shelf_delete k s = (ok tt, record s { objects = remove k s.objects })

unfoldable pub shelf_exists : Bytes → Exec Shelf BackendError Bool
shelf_exists k s = (ok (is_some (lookup k s.objects)), s)

abbrev pub shelf : FlatStore
shelf = record {
  State = Shelf;
  list = shelf_list;
  copy_key = shelf_copy;
  delete_key = shelf_delete;
  key_exists = shelf_exists;
}

unfoldable pub pending : Shelf → Bytes → Bytes → List Bytes
pending s prefix cursor = paths (if bytes_eq cursor [] then under prefix s.objects else [])

ok-injective : {E A : Type 0} {a b : A} → ◌≡◌ {A = Result E A} (ok a) (ok b) → a ≡ b
ok-injective h = cc

pub shelf_page :
    (prefix : Bytes) (limit : ℕ) (cursor : Bytes) (s : Shelf) (page : ListResult)
    → (shelf_list (page_options prefix limit cursor) s).0 ≡ ok page
    → pending s prefix cursor ≡ paths page.entries ++ after (pending s prefix) page.next_cursor
unfolding shelf_list pending bytes_eq
shelf_page prefix limit cursor s page h = rw (← ok-injective h) (sym (append-nil _))

pub shelf_copy_ok :
    (from to : Bytes) (s : Shelf) (k : Bytes)
    → (shelf_copy from to s).0 ≡ ok tt
    → lookup k (shelf_copy from to s).1.objects
      ≡ (if bytes_eq to k then lookup from s.objects else lookup k s.objects)
unfolding shelf_copy lookup
shelf_copy_ok from to s k h = ground arith

pub shelf_copy_err :
    (from to : Bytes) (s : Shelf) (e : BackendError) (k : Bytes)
    → (shelf_copy from to s).0 ≡ err e
    → bytes_eq to k ≡ false
    → lookup k (shelf_copy from to s).1.objects ≡ lookup k s.objects
unfolding shelf_copy
shelf_copy_err from to s e k h other = ground arith

pub shelf_delete_err :
    (key : Bytes) (s : Shelf) (e : BackendError) (k : Bytes)
    → (shelf_delete key s).0 ≡ err e
    → (lookup k (shelf_delete key s).1.objects ≡ lookup k s.objects)
      ⊎ ((bytes_eq key k ≡ true) × (lookup k (shelf_delete key s).1.objects ≡ none))
unfolding shelf_delete
shelf_delete_err key s e k h = cc

pub shelf_exists_ok :
    (key : Bytes) (s : Shelf) (b : Bool)
    → (shelf_exists key s).0 ≡ ok b
    → b ≡ is_some (lookup key s.objects)
unfolding shelf_exists
shelf_exists_ok key s b h = sym (ok-injective h)

pub shelf_complete :
    (s : Shelf) (prefix k : Bytes)
    → clean_prefix prefix ≡ ok prefix
    → contains (pending s prefix []) k
      ≡ (if has_prefix k prefix then is_some (lookup k s.objects) else false)
unfolding pending bytes_eq
shelf_complete s prefix k clean = contains-under prefix k s.objects

pub shelf_list_keeps :
    (o : ListOptions) (s : Shelf) (k : Bytes)
    → lookup k (shelf_list o s).1.objects ≡ lookup k s.objects
unfolding shelf_list
shelf_list_keeps o s k = refl

pub shelf_list_keeps_pending :
    (o : ListOptions) (s : Shelf) (prefix cursor : Bytes)
    → pending (shelf_list o s).1 prefix cursor ≡ pending s prefix cursor
unfolding shelf_list
shelf_list_keeps_pending o s prefix cursor = refl

pub shelf_delete_ok :
    (key : Bytes) (s : Shelf) (k : Bytes)
    → (shelf_delete key s).0 ≡ ok tt
    → lookup k (shelf_delete key s).1.objects
      ≡ (if bytes_eq key k then none else lookup k s.objects)
unfolding shelf_delete
shelf_delete_ok key s k h = lookup-remove key k s.objects

pub shelf_exists_keeps :
    (key : Bytes) (s : Shelf) (k : Bytes)
    → lookup k (shelf_exists key s).1.objects ≡ lookup k s.objects
unfolding shelf_exists
shelf_exists_keeps key s k = refl

abbrev pub shelf_laws : FlatLaws shelf
shelf_laws = record {
  Content = ℕ;
  object = λ s k. lookup k s.objects;
  pending = pending;
  pending_complete = shelf_complete;
  list_keeps_object = shelf_list_keeps;
  list_keeps_pending = shelf_list_keeps_pending;
  list_page = shelf_page;
  copy_ok = shelf_copy_ok;
  copy_err = shelf_copy_err;
  delete_ok = shelf_delete_ok;
  delete_err = shelf_delete_err;
  exists_keeps = shelf_exists_keeps;
  exists_ok = shelf_exists_ok;
}
