-- ===== src/Backend/Flat/Delete.antt =====
-- `DeleteFolderFlat` of internal/backend/flatstore.go: what is gone afterwards, on success and on an
-- error half way.
use booth_storage.Base.{
  ℕ, suc, ◌+◌, ◌≡◌, ◌≢◌, ◌⊎◌, refl, ◌∙◌, inl, inr, true, false, Option, none, List, [], ◌∷◌, Bytes,
  contains, bytes_eq, ends_in, has_prefix, Bool-cases, Result-cases, ok, arith, if◌then◌else◌,
}
use mathlib.Core.Option.{some-ne-none}
use booth_storage.Backend.Path.{slash, clean_prefix}
use booth_storage.Backend.Flat.{
  FlatStore, keys_under, remove_each, remove_found, delete_folder_flat, max_folder_objects,
}
use booth_storage.Backend.Flat.Laws.{FlatLaws, is_some}
use booth_storage.Backend.Flat.Listing.{keys_under_object, keys_under-eq-ok}

-- The keys that are no folder placeholders.
pub count_objects : List Bytes → ℕ
count_objects [] = 0
count_objects (k ∷ ks) = if ends_in k slash then count_objects ks else suc (count_objects ks)

module _ (F : FlatStore) (L : FlatLaws F) where
  open F use {State, delete_key}
  open L use {object, pending}

  -- One delete leaves a key as it was, or removes it.
  pub delete_step :
      (key : Bytes) (s : State) (k : Bytes)
      → (object (delete_key key s).1 k ≡ object s k)
        ⊎ ((bytes_eq key k ≡ true) × (object (delete_key key s).1 k ≡ none))
  delete_step key s k = elim (Result-cases (delete_key key s).0) [
    | inl (_, done) ↦
        let gone = L.delete_ok key s k done in
        elim (Bool-cases (bytes_eq key k)) [
          | inl same ↦ inr (same, gone ∙ (rw same refl))
          | inr other ↦ inl (gone ∙ (rw other refl))
        ]
    | inr (e, failed) ↦ L.delete_err key s e k failed
  ]

  -- One copy writes the destination, or fails and changes no other key.
  pub copy_step :
      (from to : Bytes) (s : State) (k : Bytes)
      → (((F.copy_key from to s).0 ≡ ok tt)
          × (object (F.copy_key from to s).1 k
              ≡ (if bytes_eq to k then object s from else object s k)))
        ⊎ (((F.copy_key from to s).0 ≢ ok tt)
            × (bytes_eq to k ≡ false → object (F.copy_key from to s).1 k ≡ object s k))
  copy_step from to s k = elim (Result-cases (F.copy_key from to s).0) [
    | inl (_, done) ↦ inl (done, L.copy_ok from to s k done)
    | inr (e, failed) ↦ inr (rw failed (cc), L.copy_err from to s e k failed)
  ]

  remove_each_safe :
      (keys : List Bytes) (removed : ℕ) (s : State) (k : Bytes)
      → (object (remove_each F keys removed s).2 k ≡ object s k)
        ⊎ ((contains keys k ≡ true) × (object (remove_each F keys removed s).2 k ≡ none))
  unfolding remove_each contains
  remove_each_safe [] removed s k = inl refl
  remove_each_safe (x ∷ xs) removed s k =
      let later = λ (n : ℕ). remove_each_safe xs n (delete_key x s).1 k in
      elim (Result-cases (delete_key x s).0) [
        | inl (_, done) ↦ ground (arith, delete_step x s k, later removed, later (removed + 1))
        | inr (e, failed) ↦ ground (arith, delete_step x s k)
      ]

  abbrev count_one : Bytes → ℕ → ℕ
  count_one x removed = if ends_in x slash then removed else removed + 1

  remove_each-cons :
      (x : Bytes) (xs : List Bytes) (removed : ℕ) (s : State)
      → (remove_each F (x ∷ xs) removed s).1 ≡ none
      → ((delete_key x s).0 ≡ ok tt)
        × (remove_each F (x ∷ xs) removed s
            ≡ remove_each F xs (count_one x removed) (delete_key x s).1)
  unfolding remove_each
  remove_each-cons x xs removed s h = elim (Result-cases (delete_key x s).0) [
    | inl (_, done) ↦ (done, rw (done, remove_each) refl)
    | inr (e, failed) ↦ absurd (some-ne-none _ (rw (failed, remove_each) at h))
  ]

  remove_each_done :
      (keys : List Bytes) (removed : ℕ) (s : State)
      → (remove_each F keys removed s).1 ≡ none
      → ((remove_each F keys removed s).0 ≡ removed + count_objects keys)
        × ((k : Bytes)
            → object (remove_each F keys removed s).2 k
              ≡ (if contains keys k then none else object s k))
  unfolding remove_each contains count_objects
  remove_each_done [] removed s h = (omega arith, λ k. refl)
  remove_each_done (x ∷ xs) removed s h =
      let (done, next) = remove_each-cons x xs removed s h in
      let (count, gone) =
        remove_each_done xs (count_one x removed) (delete_key x s).1 (rw next at h) in
      (
        rw next (ground (arith, count)),
        λ k. rw next (gone k ∙ ground (arith, L.delete_ok x s k done)),
      )

  remove_found_safe :
      (keys : List Bytes) (s : State) (k : Bytes)
      → (object (remove_found F keys s).2 k ≡ object s k)
        ⊎ ((contains keys k ≡ true) × (object (remove_found F keys s).2 k ≡ none))
  remove_found_safe [] s k = inl refl
  remove_found_safe (x ∷ xs) s k = remove_each_safe (x ∷ xs) 0 s k

  remove_found_done :
      (keys : List Bytes) (s : State)
      → (remove_found F keys s).1 ≡ none
      → ((remove_found F keys s).0 ≡ count_objects keys)
        × ((k : Bytes)
            → object (remove_found F keys s).2 k ≡ (if contains keys k then none else object s k))
  remove_found_done [] s h = cc
  remove_found_done (x ∷ xs) s h =
      let (count, gone) = remove_each_done (x ∷ xs) 0 s h in (omega (arith, count), gone)

  -- The keys that `keysUnder` gave: those under the folder that hold something.
  pub contains-keys_under :
      (fuel : ℕ) (folder : Bytes) (keys : List Bytes) (s : State) (k : Bytes)
      → clean_prefix folder ≡ ok folder
      → (keys_under F fuel folder max_folder_objects s).0 ≡ ok keys
      → contains keys k ≡ (if has_prefix k folder then is_some (object s k) else false)
  contains-keys_under fuel folder keys s k clean h =
      rw (keys_under-eq-ok F L fuel folder max_folder_objects keys s h)
        (L.pending_complete s folder k clean)

  -- Over a store that keeps the laws of a flat-key store, whatever `DeleteFolderFlat`
  -- comes to for a folder in its clean form, an error half way included: a key outside the folder
  -- holds what it held, and a key of the folder holds what it held or is gone.
  pub delete_folder_flat_safe :
      (fuel : ℕ) (folder : Bytes) (s : State) (k : Bytes)
      → clean_prefix folder ≡ ok folder
      → (object (delete_folder_flat F fuel folder s).2 k ≡ object s k)
        ⊎ ((has_prefix k folder ≡ true) × (object (delete_folder_flat F fuel folder s).2 k ≡ none))
  unfolding delete_folder_flat
  delete_folder_flat_safe fuel folder s k clean =
      let listed = keys_under F fuel folder max_folder_objects s in
      let kept = keys_under_object F L fuel folder max_folder_objects s k in
      elim (Result-cases listed.0) [
        | inr (e, failed) ↦ inl (rw (failed, delete_folder_flat) kept)
        | inl (keys, given) ↦
            rw (given, delete_folder_flat)
              (ground (
                arith,
                remove_found_safe keys listed.1 k,
                kept,
                contains-keys_under fuel folder keys s k clean given,
              ))
      ]

  -- A key without content reads the same, removed or not.
  erased :
      (keys : List Bytes) (folder : Bytes) (s : State) (k : Bytes) {now : Option L.Content}
      → now ≡ object s k
      → contains keys k ≡ (if has_prefix k folder then is_some (object s k) else false)
      → (if contains keys k then none else now) ≡ (if has_prefix k folder then none else object s k)
  erased keys folder s k e h = ground arith

  -- Over a store that keeps the laws of a flat-key store, where `DeleteFolderFlat` of a folder in its clean
  -- form reports no error, nothing is left under the folder, every other key
  -- holds what it held, and the count is the number of listed keys that are no placeholders.
  pub delete_folder_flat_done :
      (fuel : ℕ) (folder : Bytes) (s : State)
      → clean_prefix folder ≡ ok folder
      → (delete_folder_flat F fuel folder s).1 ≡ none
      → ((delete_folder_flat F fuel folder s).0 ≡ count_objects (pending s folder []))
        × ((k : Bytes)
            → object (delete_folder_flat F fuel folder s).2 k
              ≡ (if has_prefix k folder then none else object s k))
  unfolding delete_folder_flat
  delete_folder_flat_done fuel folder s clean h =
      let listed = keys_under F fuel folder max_folder_objects s in
      elim (Result-cases listed.0) [
        | inr (e, failed) ↦ absurd (some-ne-none _ (rw (failed, delete_folder_flat) at h))
        | inl (keys, given) ↦
            let (count, gone) =
              remove_found_done keys listed.1 (rw (given, delete_folder_flat) at h) in
            rw (given, delete_folder_flat)
              (
                rw (← keys_under-eq-ok F L fuel folder max_folder_objects keys s given) count,
                λ k.
                    gone k
                    ∙ erased keys folder s k
                        (keys_under_object F L fuel folder max_folder_objects s k)
                        (contains-keys_under fuel folder keys s k clean given),
              )
      ]
