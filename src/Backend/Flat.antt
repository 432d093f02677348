-- ===== src/Backend/Flat.antt =====
-- internal/backend/flatstore.go: deleting and moving a folder on a store of flat keys.
-- `FlatStore` is the Go interface; a call takes the store's state and gives it back with the
-- result. Contexts are not modelled, and an error wrapped with a message is the error itself.
pub mod Laws
pub mod Listing
pub mod Delete
pub mod Move
pub mod Memory
mod Tests
use booth_storage.Base.{
  ℕ, zero, suc, ◌+◌, Bool, true, false, Option, none, some, List, [], ◌∷◌, ◌++◌, map, Bytes,
  bytes_eq, ends_in, has_prefix, trim_prefix, length, ltb, if◌then◌else◌, Result, ok, err, pos,
  Exec, and_then,
}
use booth_storage.Backend.{
  BackendError, not_found, conflict, invalid_path, into_itself, too_many_objects, ObjectInfo,
  ListOptions, ListResult,
}
use booth_storage.Backend.Path.{slash}

pub record FlatStore : Type 1 where
  pub State : Type 0
  pub list : ListOptions → Exec State BackendError ListResult
  pub copy_key : Bytes → Bytes → Exec State BackendError (Unit {0})
  pub delete_key : Bytes → Exec State BackendError (Unit {0})
  pub key_exists : Bytes → Exec State BackendError Bool

abbrev pub max_list_limit : ℕ
max_list_limit = 1000

abbrev pub max_folder_objects : ℕ
max_folder_objects = 100_000

-- Why a call ended early: the source's error, or the fuel of the page loop.
pub data Stop : Type 0 where
  fault : BackendError → Stop
  out_of_fuel : Stop

abbrev pub page_options : Bytes → ℕ → Bytes → ListOptions
page_options prefix limit cursor = record {
  prefix = prefix;
  recursive = true;
  limit = pos limit;
  cursor = cursor;
  include_folder_markers = true;
}

abbrev pub paths : List ObjectInfo → List Bytes
paths = map (λ e. e.path)

-- One round of the loop of `keysUnder`, after the call of `List`; `more` is the next round.
abbrev pub next_page :
    {S : Type 0}
    → (Bytes → List Bytes → Exec S Stop (List Bytes))
    → ℕ
    → List Bytes
    → Result BackendError ListResult
    → Exec S Stop (List Bytes)
next_page more limit keys (err e) s = (err (fault e), s)
next_page more limit keys (ok page) s =
    let seen = keys ++ paths page.entries in
    if ltb limit (length seen)
    then (err (fault (too_many_objects limit)), s)
    else if bytes_eq page.next_cursor []
    then (ok seen, s)
    else more page.next_cursor seen s

module _ (F : FlatStore) where
  open F use {State, list, copy_key, delete_key, key_exists}

  pub keys_from : ℕ → Bytes → ℕ → Bytes → List Bytes → Exec State Stop (List Bytes)
  keys_from zero prefix limit cursor keys s = (err out_of_fuel, s)
  keys_from (suc fuel) prefix limit cursor keys s =
      let (r, s') = list (page_options prefix max_list_limit cursor) s in
      next_page (keys_from fuel prefix limit) limit keys r s'

  -- `keysUnder`
  pub keys_under : ℕ → Bytes → ℕ → Exec State Stop (List Bytes)
  keys_under fuel prefix limit = keys_from fuel prefix limit [] []

  -- The loop of `DeleteFolderFlat`: how many objects went, and the error that ended it.
  pub remove_each : List Bytes → ℕ → State → ℕ × Option Stop × State
  remove_each [] removed s = (removed, none, s)
  remove_each (k ∷ ks) removed s =
      let (r, s') = delete_key k s in
      elim r [
        | err e ↦ (removed, some (fault e), s')
        | ok _ ↦ remove_each ks (if ends_in k slash then removed else removed + 1) s'
      ]

  abbrev remove_found : List Bytes → State → ℕ × Option Stop × State
  remove_found [] s = (0, some (fault not_found), s)
  remove_found (k ∷ ks) s = remove_each (k ∷ ks) 0 s

  pub delete_folder_flat : ℕ → Bytes → State → ℕ × Option Stop × State
  delete_folder_flat fuel folder s =
      let (r, s') = keys_under fuel folder max_folder_objects s in
      elim r [ err e ↦ (0, some e, s') | ok keys ↦ remove_found keys s' ]

  pub move_object_flat : Bytes → Bytes → Exec State BackendError (Unit {0})
  move_object_flat from to s =
      if bytes_eq from to
      then (ok tt, s)
      else and_then (key_exists from)
          (λ found t.
            if found
            then and_then (key_exists to)
                (λ taken u.
                  if taken
                  then (err conflict, u)
                  else and_then (copy_key from to) (λ _. delete_key from) u)
                t
            else (err not_found, t))
          s

  -- The copies of `MoveFolderFlat`: the error that ended them, and what was copied before it.
  pub copy_each :
      Bytes → Bytes → List Bytes → List Bytes → State → Option BackendError × List Bytes × State
  copy_each from to [] copied s = (none, copied, s)
  copy_each from to (k ∷ ks) copied s =
      let dst = to ++ trim_prefix k from in
      let (r, s') = copy_key k dst s in
      elim r [ err e ↦ (some e, copied, s') | ok _ ↦ copy_each from to ks (copied ++ dst ∷ []) s' ]

  -- `rollback`: every delete is tried, and its error dropped.
  pub rollback : List Bytes → State → State
  rollback [] s = s
  rollback (k ∷ ks) s = rollback ks (delete_key k s).1

  pub delete_each : List Bytes → Exec State Stop (Unit {0})
  delete_each [] s = (ok tt, s)
  delete_each (k ∷ ks) s =
      let (r, s') = delete_key k s in
      elim r [ err e ↦ (err (fault e), s') | ok _ ↦ delete_each ks s' ]

  pub copy_then_delete : Bytes → Bytes → List Bytes → Exec State Stop (Unit {0})
  copy_then_delete from to keys s =
      let (failure, copied, s') = copy_each from to keys [] s in
      elim failure [ some e ↦ (err (fault e), rollback copied s') | none ↦ delete_each keys s' ]

  -- After the probe of the destination: any entry there is a conflict.
  abbrev probed_entries : Bytes → Bytes → List Bytes → List ObjectInfo → Exec State Stop (Unit {0})
  probed_entries from to keys [] t = copy_then_delete from to keys t
  probed_entries from to keys (_ ∷ _) t = (err (fault conflict), t)

  abbrev probed :
      Bytes → Bytes → List Bytes → Result BackendError ListResult → Exec State Stop (Unit {0})
  probed from to keys (err e) t = (err (fault e), t)
  probed from to keys (ok page) t = probed_entries from to keys page.entries t

  abbrev move_found : Bytes → Bytes → List Bytes → Exec State Stop (Unit {0})
  move_found from to [] s = (err (fault not_found), s)
  move_found from to (k ∷ ks) s =
      let (r, t) = list (page_options to 1 []) s in probed from to (k ∷ ks) r t

  pub move_folder_flat : ℕ → Bytes → Bytes → Exec State Stop (Unit {0})
  move_folder_flat fuel from to s =
      if bytes_eq from to
      then (ok tt, s)
      else if has_prefix to from
      then (err (fault (invalid_path into_itself)), s)
      else and_then (keys_under fuel from max_folder_objects) (move_found from to) s
