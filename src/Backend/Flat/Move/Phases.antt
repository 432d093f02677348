-- ===== src/Backend/Flat/Move/Phases.antt =====
-- The three loops of `MoveFolderFlat`: the copies, the rollback and the deletes.
use booth_storage.Base.{
  ◌≡◌, ◌≢◌, ◌⊎◌, refl, ◌∙◌, inl, inr, Bool, true, false, Option, none, List, [], ◌∷◌, ◌++◌, ◌||◌,
  map, Bytes, contains, bytes_eq, bytes_eq_iff, has_prefix, All-append, Result-cases, ok, err,
  arith, if◌then◌else◌,
}
use mathlib.Core.Option.{some-ne-none}
use booth_storage.Backend.Flat.{FlatStore, Stop, copy_each, rollback, delete_each}
use booth_storage.Backend.Flat.Laws.{FlatLaws}
use booth_storage.Backend.Flat.Delete.{delete_step}
use booth_storage.Backend.Flat.Move.Keys.{
  rebase, rebase_back, rebase_under, AllUnder, contains_under, contains-append,
}

or_assoc : (a b c : Bool) → ((a || b) || c) ≡ (a || (b || c))
or_assoc a b c = ground arith

module _ (F : FlatStore) (L : FlatLaws F) where
  open F use {State, copy_key, delete_key}
  open L use {Content, object}

  pub rollback_safe :
      (ks : List Bytes) (s : State) (j : Bytes)
      → (object (rollback F ks s) j ≡ object s j)
        ⊎ ((contains ks j ≡ true) × (object (rollback F ks s) j ≡ none))
  unfolding rollback contains
  rollback_safe [] s j = inl refl
  rollback_safe (k ∷ ks) s j =
      ground (arith, delete_step F L k s j, rollback_safe ks (delete_key k s).1 j)

  pub rollback_done :
      (ks : List Bytes) (s : State) (j : Bytes)
      → ((key : Bytes) (t : State) → (delete_key key t).0 ≡ ok tt)
      → object (rollback F ks s) j ≡ (if contains ks j then none else object s j)
  unfolding rollback contains
  rollback_done [] s j h = refl
  rollback_done (k ∷ ks) s j h =
      ground (arith, L.delete_ok k s j (h k s), rollback_done ks (delete_key k s).1 j h)

  pub delete_each_safe :
      (ks : List Bytes) (s : State) (j : Bytes)
      → (object (delete_each F ks s).1 j ≡ object s j)
        ⊎ ((contains ks j ≡ true) × (object (delete_each F ks s).1 j ≡ none))
  unfolding delete_each contains
  delete_each_safe [] s j = inl refl
  delete_each_safe (k ∷ ks) s j =
      ground (arith, delete_step F L k s j, delete_each_safe ks (delete_key k s).1 j)

  pub delete_each_done :
      (ks : List Bytes) (s : State) (j : Bytes)
      → (delete_each F ks s).0 ≡ ok tt
      → object (delete_each F ks s).1 j ≡ (if contains ks j then none else object s j)
  unfolding delete_each contains
  delete_each_done [] s j h = refl
  delete_each_done (k ∷ ks) s j h =
      ground (arith, L.delete_ok k s j, delete_each_done ks (delete_key k s).1 j)

  pub delete_each-ne-err :
      (ks : List Bytes) (s : State) (e : Stop)
      → ((key : Bytes) (t : State) → (delete_key key t).0 ≡ ok tt)
      → (delete_each F ks s).0 ≢ err e
  unfolding delete_each
  delete_each-ne-err [] s e h = cc
  delete_each-ne-err (k ∷ ks) s e h =
      ground (arith, h k s, delete_each-ne-err ks (delete_key k s).1 e h)

  module _ (from to : Bytes) (o : Bytes → Option Content)
      (apart : (j : Bytes) → has_prefix j from ≡ true → has_prefix j to ≡ false) where
    -- What the store holds once the keys `done` have been written by copies.
    abbrev pub Copied : List Bytes → State → Type 0
    Copied done s =
        (j : Bytes) → object s j ≡ (if contains done j then o (rebase to from j) else o j)

    -- The same but for one key under the destination, that of a copy that failed.
    abbrev pub Nearly : List Bytes → State → Type 0
    Nearly done s =
        (d : Bytes) × (has_prefix d to ≡ true)
        × ((j : Bytes)
            → bytes_eq d j ≡ false
            → object s j ≡ (if contains done j then o (rebase to from j) else o j))

    copy_one :
        (k : Bytes) (done : List Bytes) (s : State)
        → has_prefix k from ≡ true
        → AllUnder to done
        → Copied done s
        → (copy_key k (rebase from to k) s).0 ≡ ok tt
        → Copied (done ++ rebase from to k ∷ []) (copy_key k (rebase from to k) s).1
    copy_one k done s under all h copied j = ground (
      arith,
      L.copy_ok k (rebase from to k) s j copied,
      contains-append done (rebase from to k) j,
      bytes_eq_iff (rebase from to k) j,
      h k,
      h j,
      apart k under,
      contains_under to done k all,
      rebase_back from to k under,
    )

    pub copy_each_inv :
        (ks done : List Bytes) (s : State)
        → AllUnder from ks
        → AllUnder to done
        → Copied done s
        → (AllUnder to (copy_each F from to ks done s).1)
          × (Nearly (copy_each F from to ks done s).1 (copy_each F from to ks done s).2)
          × ((copy_each F from to ks done s).0 ≡ none
              → Copied (copy_each F from to ks done s).1 (copy_each F from to ks done s).2)
          × ((copy_each F from to ks done s).0 ≡ none
              → (j : Bytes)
              → contains (copy_each F from to ks done s).1 j
                ≡ (contains done j || contains (map (rebase from to) ks) j))
    unfolding copy_each contains
    copy_each_inv [] done s under all h =
        (all, (rebase from to [], rebase_under from to [], λ j _. h j), λ _. h, λ _ j. ground arith)
    copy_each_inv (k ∷ ks) done s (under, unders) all h =
        let dst = rebase from to k in
        elim (Result-cases (copy_key k dst s).0) [
          | inr (e, failed) ↦
              rw (failed, copy_each)
                (
                  all,
                  (
                    dst,
                    rebase_under from to k,
                    λ j other. L.copy_err k dst s e j failed other ∙ h j,
                  ),
                  λ stopped. absurd (some-ne-none _ stopped),
                  λ stopped j. absurd (some-ne-none _ stopped),
                )
          | inl (_, made) ↦
              let (all', near, copied, whole) =
                copy_each_inv ks (done ++ dst ∷ []) (copy_key k dst s).1 unders
                  (All-append _ done (dst ∷ []) all (rebase_under from to k, tt))
                  (copy_one k done s under all h made) in
              rw (made, copy_each)
                (
                  all',
                  near,
                  copied,
                  λ ended j.
                      whole ended j
                      ∙ (rw (contains-append done dst j) (
                          or_assoc (contains done j) (bytes_eq dst j)
                            (contains (map (rebase from to) ks) j))),
                )
        ]
