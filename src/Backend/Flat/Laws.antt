-- ===== src/Backend/Flat/Laws.antt =====
-- What the folder operations rely on of a flat store, as the comments of `FlatStore`, `Backend` and
-- `ListOptions` state it, while nobody else writes to the store: the effect of each call, and how `List`
-- pages. A prefix in its clean form is a directory boundary. A page may be empty and have more behind it; a
-- copy that failed may have left anything at its destination, and a delete that failed may have removed
-- its key.
use booth_storage.Base.{
  ℕ, ◌≡◌, ◌⊎◌, Bool, true, false, Option, none, some, List, [], ◌++◌, Bytes, contains, bytes_eq,
  has_prefix, if◌then◌else◌, ok, err,
}
use booth_storage.Backend.{BackendError, ListOptions, ListResult}
use booth_storage.Backend.Path.{clean_prefix}
use booth_storage.Backend.Flat.{FlatStore, paths, page_options}

abbrev pub is_some {ℓ} : {A : Type ℓ} → Option A → Bool
is_some none = false
is_some (some a) = true

-- What stays to be listed behind a page.
abbrev pub after : (Bytes → List Bytes) → Bytes → List Bytes
after pending cursor = if bytes_eq cursor [] then [] else pending cursor

pub record FlatLaws (F : FlatStore) : Type 1 where
  pub Content : Type 0
  -- What a key holds.
  pub object : F.State → Bytes → Option Content
  -- The keys that the listing of a prefix still gives from a cursor on.
  pub pending : F.State → Bytes → Bytes → List Bytes
  pub pending_complete :
      (s : F.State) (prefix k : Bytes)
      → clean_prefix prefix ≡ ok prefix
      → contains (pending s prefix []) k
        ≡ (if has_prefix k prefix then is_some (object s k) else false)
  pub list_keeps_object :
      (o : ListOptions) (s : F.State) (k : Bytes) → object (F.list o s).1 k ≡ object s k
  pub list_keeps_pending :
      (o : ListOptions) (s : F.State) (prefix cursor : Bytes)
      → pending (F.list o s).1 prefix cursor ≡ pending s prefix cursor
  pub list_page :
      (prefix : Bytes) (limit : ℕ) (cursor : Bytes) (s : F.State) (page : ListResult)
      → (F.list (page_options prefix limit cursor) s).0 ≡ ok page
      → pending s prefix cursor ≡ paths page.entries ++ after (pending s prefix) page.next_cursor
  pub copy_ok :
      (from to : Bytes) (s : F.State) (k : Bytes)
      → (F.copy_key from to s).0 ≡ ok tt
      → object (F.copy_key from to s).1 k ≡ (if bytes_eq to k then object s from else object s k)
  pub copy_err :
      (from to : Bytes) (s : F.State) (e : BackendError) (k : Bytes)
      → (F.copy_key from to s).0 ≡ err e
      → bytes_eq to k ≡ false
      → object (F.copy_key from to s).1 k ≡ object s k
  pub delete_ok :
      (key : Bytes) (s : F.State) (k : Bytes)
      → (F.delete_key key s).0 ≡ ok tt
      → object (F.delete_key key s).1 k ≡ (if bytes_eq key k then none else object s k)
  pub delete_err :
      (key : Bytes) (s : F.State) (e : BackendError) (k : Bytes)
      → (F.delete_key key s).0 ≡ err e
      → (object (F.delete_key key s).1 k ≡ object s k)
        ⊎ ((bytes_eq key k ≡ true) × (object (F.delete_key key s).1 k ≡ none))
  pub exists_keeps :
      (key : Bytes) (s : F.State) (k : Bytes) → object (F.key_exists key s).1 k ≡ object s k
  pub exists_ok :
      (key : Bytes) (s : F.State) (b : Bool)
      → (F.key_exists key s).0 ≡ ok b
      → b ≡ is_some (object s key)
