-- ===== src/Filesystem/Listing/Readable.antt =====
-- `walk` of internal/backend/filesystem/filesystem.go where it can read every directory.
use booth_storage.Base.{
  ℕ, zero, suc, ◌-◌, ◌≡◌, refl, inl, inr, Bool, true, false, List, [], ◌∷◌, ◌++◌, Bytes, length,
  Bool-cases,
}
use booth_storage.Filesystem.{is_valid_path}
use booth_storage.Filesystem.Disk.{Node, file, folder, special, Entries, vacant, entry}
use booth_storage.Filesystem.Listing.{is_temp, skips, visit_at, visit_in}
use booth_storage.Filesystem.Listing.Walk.{walk_at, walk_in}

-- Every directory that has no temporary name can be read by a walk.
module _ (valid_path : Bytes → Bool) where
  abbrev pub IsValid : List Bytes → Type 0
  IsValid at = is_valid_path valid_path at ≡ true

  unfoldable mutual
    pub IsReadable : List Bytes → Node → Type 0
    IsReadable at (file content time) = Unit
    IsReadable at (folder es) = IsValid at × IsReadableIn at es
    IsReadable at special = Unit

    pub IsReadableIn : List Bytes → Entries → Type 0
    IsReadableIn at vacant = Unit
    IsReadableIn at (entry name n es) =
        (is_temp name ≡ false → IsReadable (at ++ name ∷ []) n) × IsReadableIn at es

  module _ (mime_type : Bytes → Bytes) (cursor : Bytes) where
    mutual
      unfolding visit_at visit_in walk_at walk_in IsReadable IsReadableIn

      -- A walk that can read every directory ends without an error.
      pub visit_at-walk :
          (room : ℕ) (at : List Bytes) (n : Node)
          → IsReadable at n
          → visit_at valid_path mime_type cursor room at n
            ≡ (walk_at mime_type cursor room at n, false)
      visit_at-walk room at (file c t) readable = refl
      visit_at-walk room at special readable = refl
      visit_at-walk room at (folder es) (valid, below) =
          elim (Bool-cases (skips mime_type cursor at)) [
            | inl skip ↦ rw (skip, visit_at, walk_at) refl
            | inr visit ↦ rw (visit, valid, visit_at, walk_at) (visit_in-walk room at es below)
          ]

      pub visit_in-walk :
          (room : ℕ) (at : List Bytes) (es : Entries)
          → IsReadableIn at es
          → visit_in valid_path mime_type cursor room at es
            ≡ (walk_in mime_type cursor room at es, false)
      visit_in-walk zero at es readable = refl
      visit_in-walk (suc room) at vacant readable = refl
      visit_in-walk (suc room) at (entry name n es) (here, rest) =
          elim (Bool-cases (is_temp name)) [
            | inl temp ↦ rw (temp, visit_in, walk_in) (visit_in-walk (suc room - 0) at es rest)
            | inr plain ↦
                rw
                  (
                    plain,
                    visit_in,
                    walk_in,
                    visit_at-walk (suc room) (at ++ name ∷ []) n (here plain),
                    visit_in-walk
                        (suc room
                          - length (walk_at mime_type cursor (suc room) (at ++ name ∷ []) n))
                        at es rest,
                  )
                  refl
          ]
