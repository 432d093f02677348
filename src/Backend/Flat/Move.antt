-- ===== src/Backend/Flat/Move.antt =====
-- `MoveObjectFlat` and `MoveFolderFlat` of internal/backend/flatstore.go: what a move leaves behind
-- on every outcome.
pub mod Keys
pub mod Phases
pub mod Folder
pub mod Outcome
use booth_storage.Base.{
  ℕ, ◌≡◌, ◌≢◌, ◌⊎◌, refl, sym, ◌∙◌, inl, inr, Bool, true, false, Option, none, some, List, [], ◌∷◌,
  ◌++◌, Bytes, bytes_eq, bytes_eq_iff, bytes_eq_refl, has_prefix, Bool-cases, Result-cases, Result,
  ok, err, arith, if◌then◌else◌,
}
use booth_storage.Backend.{BackendError, not_found, conflict}
use booth_storage.Backend.Flat.{FlatStore, move_object_flat}
use booth_storage.Backend.Flat.Laws.{FlatLaws, is_some}
use booth_storage.Backend.Flat.Delete.{copy_step, delete_step}

module _ (F : FlatStore) (L : FlatLaws F) where
  open F use {State, copy_key, delete_key, key_exists}
  open L use {object}

  -- Over a store that keeps the laws of a flat-key store, a move of one object that
  -- succeeds under two different keys: there was an object and nothing at
  -- the destination, which now holds it; the source holds nothing, and no other key is changed.
  pub move_object_flat_done :
      (from to : Bytes) (s : State) (k : Bytes)
      → from ≢ to
      → (move_object_flat F from to s).0 ≡ ok tt
      → (is_some (object s from) ≡ true)
        × (object s to ≡ none)
        × (object (move_object_flat F from to s).1 k ≡ (
            if bytes_eq from k then none else if bytes_eq to k then object s from else object s k))
  unfolding move_object_flat
  move_object_flat_done from to s k h e =
      let t = (key_exists from s).1 in
      let u = (key_exists to t).1 in
      let v = (copy_key from to u).1 in
      ground (
        arith,
        bytes_eq_iff from to,
        L.exists_ok from s true,
        L.exists_ok to t false,
        L.exists_keeps from s from,
        L.exists_keeps from s to,
        L.exists_keeps from s k,
        L.exists_keeps to t from,
        L.exists_keeps to t k,
        L.copy_ok from to u k,
        L.delete_ok from v k,
      )

  -- Over a store that keeps the laws of a flat-key store, however a move of one
  -- object ends, an object is not lost: it stays under its key, or it is
  -- under the destination; and what the destination held before is still there.
  pub move_object_flat_safe :
      (from to : Bytes) (s : State) (k : Bytes)
      → (object (move_object_flat F from to s).1 k ≡ object s k)
        ⊎ ((bytes_eq from k ≡ true) × (object (move_object_flat F from to s).1 to ≡ object s from))
        ⊎ ((bytes_eq to k ≡ true) × (object s to ≡ none))
  unfolding move_object_flat
  move_object_flat_safe from to s k =
      let t = (key_exists from s).1 in
      let u = (key_exists to t).1 in
      let v = (copy_key from to u).1 in
      ground (
        arith,
        bytes_eq_iff from to,
        bytes_eq_iff from k,
        L.exists_ok to t false,
        L.exists_keeps from s from,
        L.exists_keeps from s to,
        L.exists_keeps from s k,
        L.exists_keeps to t from,
        L.exists_keeps to t k,
        copy_step F L from to u k,
        copy_step F L from to u to,
        bytes_eq_refl to,
        delete_step F L from v k,
        delete_step F L from v to,
      )
