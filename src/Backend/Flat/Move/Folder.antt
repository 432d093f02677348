-- ===== src/Backend/Flat/Move/Folder.antt =====
-- The copies and the deletes of `MoveFolderFlat` (internal/backend/flatstore.go) taken together,
-- from a state in which its checks have passed.
use booth_storage.Base.{
  ◌≡◌, ◌≢◌, ◌⊎◌, refl, sym, inl, inr, true, false, Option, none, List, [], map, Bytes, contains,
  bytes_eq, bytes_eq_iff, has_prefix, Option-cases, ok, err, arith, if◌then◌else◌,
}
use booth_storage.Backend.Flat.{FlatStore, Stop, copy_each, copy_then_delete}
use booth_storage.Backend.Flat.Laws.{FlatLaws, is_some}
use booth_storage.Backend.Flat.Move.Keys.{
  rebase, rebase_back, rebase_under, AllUnder, contains_under, contains-map-rebase,
}
use booth_storage.Backend.Flat.Move.Phases.{
  Nearly, Copied, copy_each_inv, rollback_safe, rollback_done, delete_each_safe, delete_each_done,
  delete_each-ne-err,
}

pub ok-ne-err : {A E : Type 0} {a : A} {e : E} → ok a ≢ err e
ok-ne-err h = cc

module _ (F : FlatStore) (L : FlatLaws F) where
  open F use {State, list, delete_key}
  open L use {Content, object}

  -- What `MoveFolderFlat` has found out before it copies.
  pub record IsReady (from to : Bytes) (keys : List Bytes) (s : State) : Type 0 where
    pub apart : (j : Bytes) → has_prefix j from ≡ true → has_prefix j to ≡ false
    pub under : AllUnder from keys
    pub listed :
        (j : Bytes) → contains keys j ≡ (if has_prefix j from then is_some (object s j) else false)
    pub vacant : (j : Bytes) → has_prefix j to ≡ true → object s j ≡ none

  -- The three ways in which a key may fare.
  abbrev pub IsKept :
      Bytes → Bytes → (Bytes → Option Content) → (Bytes → Option Content) → Bytes → Type 0
  IsKept from to before now j =
      (now j ≡ before j)
      ⊎ ((has_prefix j from ≡ true) × (now (rebase from to j) ≡ before j))
      ⊎ ((has_prefix j to ≡ true) × (before j ≡ none))

  -- All is as it was but for one key under the destination, which held nothing.
  abbrev pub HoldsButOne : Bytes → (Bytes → Option Content) → (Bytes → Option Content) → Type 0
  HoldsButOne to before now =
      (d : Bytes) × (has_prefix d to ≡ true)
      × (before d ≡ none)
      × ((j : Bytes) → bytes_eq d j ≡ false → now j ≡ before j)

  module _ (from to : Bytes) (keys : List Bytes) (s : State) (r : IsReady from to keys s) where
    start :
        (AllUnder to (copy_each F from to keys [] s).1)
        × (Nearly F L from to
            (object s)
            r.apart
            (copy_each F from to keys [] s).1
            (copy_each F from to keys [] s).2)
        × ((copy_each F from to keys [] s).0 ≡ none
            → Copied F L from to
                (object s)
                r.apart
                (copy_each F from to keys [] s).1
                (copy_each F from to keys [] s).2)
        × ((copy_each F from to keys [] s).0 ≡ none
            → (j : Bytes)
            → contains (copy_each F from to keys [] s).1 j ≡ contains (map (rebase from to) keys) j)
    unfolding contains
    start =
        let (all, near, copied, whole) =
          copy_each_inv F L from to (object s) r.apart keys [] s r.under tt (λ j. refl) in
        (all, near, copied, whole)

    pub copy_then_delete_safe :
        (j : Bytes) → IsKept from to (object s) (object (copy_then_delete F from to keys s).1) j
    unfolding copy_then_delete
    copy_then_delete_safe j =
        let (failure, done, s') = copy_each F from to keys [] s in
        let (all, (d, below, near), copied, whole) = start in
        let j' = rebase from to j in
        elim (Option-cases failure) [
          | inr (e, failed) ↦
              rw (failed, copy_then_delete)
                (ground (
                  arith,
                  rollback_safe F L done s' j,
                  near j,
                  below,
                  bytes_eq_iff d j,
                  contains_under to done j all,
                  r.vacant j,
                ))
          | inl ended ↦
              rw (ended, copy_then_delete)
                (ground (
                  arith,
                  delete_each_safe F L keys s' j,
                  delete_each_safe F L keys s' j',
                  copied ended j,
                  copied ended j',
                  contains_under to done j all,
                  r.vacant j,
                  r.listed j,
                  r.listed j',
                  r.apart j',
                  rebase_under from to j,
                  rebase_back from to j,
                  whole ended j',
                  contains-map-rebase from to keys j' r.under,
                ))
        ]

    pub copy_then_delete_done :
        (j : Bytes)
        → (copy_then_delete F from to keys s).0 ≡ ok tt
        → object (copy_then_delete F from to keys s).1 j ≡ (
            if has_prefix j from
            then none
            else if has_prefix j to
            then object s (rebase to from j)
            else object s j)
    unfolding copy_then_delete
    copy_then_delete_done j h =
        let (failure, done, s') = copy_each F from to keys [] s in
        let (all, (d, below, near), copied, whole) = start in
        let k = rebase to from j in
        elim (Option-cases failure) [
          | inr (e, failed) ↦ absurd (ok-ne-err (sym (rw (failed, copy_then_delete) at h)))
          | inl ended ↦
              rw (ended, copy_then_delete)
                (ground (
                  arith,
                  delete_each_done F L keys s' j (rw (ended, copy_then_delete) at h),
                  copied ended j,
                  r.vacant j,
                  r.listed j,
                  r.listed k,
                  r.apart j,
                  rebase_under to from j,
                  whole ended j,
                  contains-map-rebase from to keys j r.under,
                ))
        ]

    pub copy_then_delete_undone :
        (e : Stop)
        → ((key : Bytes) (t : State) → (delete_key key t).0 ≡ ok tt)
        → (copy_then_delete F from to keys s).0 ≡ err e
        → HoldsButOne to (object s) (object (copy_then_delete F from to keys s).1)
    unfolding copy_then_delete
    copy_then_delete_undone e deletes h =
        let (failure, done, s') = copy_each F from to keys [] s in
        let (all, (d, below, near), copied, whole) = start in
        elim (Option-cases failure) [
          | inl ended ↦
              absurd (delete_each-ne-err F L keys s' e deletes (rw (ended, copy_then_delete) at h))
          | inr (e', failed) ↦
              rw (failed, copy_then_delete)
                (
                  d,
                  below,
                  r.vacant d below,
                  λ j other. ground (
                    arith,
                    rollback_done F L done s' j deletes,
                    near j other,
                    contains_under to done j all,
                    r.vacant j,
                  ),
                )
        ]
