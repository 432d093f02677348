-- ===== src/Filesystem/Writing/Outcome.antt =====
-- `Write` of internal/backend/filesystem/filesystem.go as a whole.
use booth_storage.Base.{
  ℕ, ◌≡◌, refl, sym, ap, ◌∙◌, subst, ◌⊎◌, inl, inr, ◌≢◌, Bool, true, false, none, some, List, [],
  ◌∷◌, ◌++◌, Bytes, bytes_eq, bytes_eq_refl, any, split, Result, ok, err, Result-cases,
  if◌then◌else◌,
}
use booth_storage.Base.Split.{split-ne-nil}
use booth_storage.Backend.{BackendError, ObjectInfo, WriteOptions}
use booth_storage.Backend.Path.{slash, clean_path}
use booth_storage.Filesystem.{
  temp_prefix, Trail, parents, leaf, mkdir_all, Body, write_below, write_at, map_write_err,
  info_for, info_at, write,
}
use booth_storage.Filesystem.Disk.{Node, stat}
use booth_storage.Filesystem.Disk.Lookup.{object, object-stat}
use booth_storage.Filesystem.Disk.Change.{path_eq}
use booth_storage.Filesystem.Writing.{Passed, concat, mkdir_all-Passed, parents-leaf}
use booth_storage.Filesystem.Writing.Atomic.{write_below-Stored}

path_eq_refl : (p : List Bytes) → path_eq p p ≡ true
unfolding path_eq
path_eq_refl [] = refl
path_eq_refl (s ∷ p) = rw bytes_eq_refl (path_eq_refl p)

module _ (root : Node) (temp : Bytes) (path : List Bytes) where
  -- Every path without the temporary name shows what it showed on the first disk.
  abbrev pub Unchanged : Node → Type 0
  Unchanged n = (q : List Bytes) → any (λ s. bytes_eq temp s) q ≡ false → object n q ≡ object root q

  -- So it does, but for the written path, which shows this file.
  abbrev pub Replaced : Bytes → ℕ → Node → Type 0
  Replaced c t n =
      (q : List Bytes)
      → any (λ s. bytes_eq temp s) q ≡ false
      → object n q ≡ (if path_eq path q then some (c, t) else object root q)

  abbrev pub Stores : Bool → Bool → Bytes → ℕ → Result BackendError (Unit {0}) → Trail → Type 0
  Stores create_only broken c t r d =
      ((r ≡ ok tt)
        × (broken ≡ false)
        × Replaced c t d.now
        × Passed (λ n. Unchanged n ⊎ Replaced c t n) d
        × (create_only ≡ true → object root path ≡ none))
      ⊎ ((e : BackendError) × (r ≡ err e) × Passed Unchanged d)

-- The same of the write below a checked path.
pub write_at_atomic :
    (create_only : Bool) (path : List Bytes) (suffix : Bytes) (time : ℕ) (body : Body) (root : Node)
    → path ≢ []
    → any (λ s. bytes_eq (temp_prefix ++ suffix) s) path ≡ false
    → Stores root
        (temp_prefix ++ suffix)
        path
        create_only
        body.broken
        (concat body.pieces)
        time
        (write_at create_only path suffix time body root).0
        (write_at create_only path suffix time body root).1
unfolding write_at
write_at_atomic create_only path suffix time body root named hidden =
    let temp : Bytes = temp_prefix ++ suffix in
    let whole = parents-leaf path named in
    let first : Trail = record { now = root; past = [] } in
    let dirs =
      mkdir_all-Passed (λ s. bytes_eq temp s) root (parents path) [] first (λ q _. refl, tt) in
    elim (Result-cases (mkdir_all [] (parents path) first).0) [
      | inr (e, bad) ↦ rw (bad, write_at) (inr (map_write_err e, refl, dirs))
      | inl (_, good) ↦
          rw (good, write_at)
            (subst
              (λ p.
                Stores root temp p create_only body.broken (concat body.pieces) time
                  (write_below create_only (parents path) temp (leaf path) time body
                    (mkdir_all [] (parents path) first).1).0
                  (write_below create_only (parents path) temp (leaf path) time body
                    (mkdir_all [] (parents path) first).1).1)
              whole
              (write_below-Stored root (parents path) temp (leaf path)
                (subst (λ p. any (λ s. bytes_eq temp s) p ≡ false) (sym whole) hidden) create_only
                time body (mkdir_all [] (parents path) first).1 dirs))
    ]

-- The written path shows the file.
pub shown_at :
    (root : Node) (temp : Bytes) (path : List Bytes) (c : Bytes) (t : ℕ) (n : Node)
    → any (λ s. bytes_eq temp s) path ≡ false
    → Replaced root temp path c t n
    → object n path ≡ some (c, t)
shown_at root temp path c t n hidden new =
    new path hidden ∙ ap (λ b. if b then some (c, t) else object root path) (path_eq_refl path)

-- What `Stat` reads at a path that shows this file.
info_at-object :
    (mime_type : Bytes → Bytes) (clean : Bytes) (n : Node) (c : Bytes) (t : ℕ)
    → object n (split clean slash) ≡ some (c, t)
    → info_at mime_type clean (stat n (split clean slash)) ≡ ok (info_for mime_type clean c t)
info_at-object mime_type clean n c t h =
    ap (info_at mime_type clean) (object-stat n (split clean slash) (c, t) h)

-- The outcome of a write whose path is valid.
abbrev pub Wrote :
    (Bytes → Bytes)
    → Bytes
    → Bytes
    → ℕ
    → Bytes
    → Node
    → Bool
    → Bool
    → Result BackendError ObjectInfo
    → Trail
    → Type 0
Wrote mime_type clean temp time content root create_only broken r d =
    ((r ≡ ok (info_for mime_type clean content time))
      × (broken ≡ false)
      × Replaced root temp (split clean slash) content time d.now
      × Passed
          (λ n.
            Unchanged root temp (split clean slash) n
            ⊎ Replaced root temp (split clean slash) content time n)
          d
      × (create_only ≡ true → object root (split clean slash) ≡ none))
    ⊎ ((e : BackendError) × (r ≡ err e) × Passed (Unchanged root temp (split clean slash)) d)

-- A write to a valid path without the temporary name either succeeds or fails. When it succeeds, the
-- body was read to its end and the result describes all of it; the last disk shows the body at that path and is otherwise as the first; each
-- disk in between shows at every path without the temporary name what the first or the last one does; and
-- a write that may only create found no object at the path. When it fails, every disk that it passed
-- through shows what the first one did.
pub write_atomic :
    (mime_type : Bytes → Bytes) (opts : WriteOptions) (p clean suffix : Bytes) (time : ℕ)
    (body : Body) (root : Node)
    → clean_path p ≡ ok clean
    → any (λ s. bytes_eq (temp_prefix ++ suffix) s) (split clean slash) ≡ false
    → Wrote mime_type clean
        (temp_prefix ++ suffix)
        time
        (concat body.pieces)
        root
        opts.create_only
        body.broken
        (write mime_type opts p suffix time body root).0
        (write mime_type opts p suffix time body root).1
unfolding write
write_atomic mime_type opts p clean suffix time body root valid hidden =
    elim (write_at_atomic opts.create_only (split clean slash) suffix time body root
      (split-ne-nil clean slash) hidden) [
        | inr (e, failed, same) ↦ rw (valid, write, failed) (inr (e, refl, same))
        | inl (stored, sound, new, passed, free) ↦
            let n = (write_at opts.create_only (split clean slash) suffix time body root).1.now in
            let shown =
              shown_at root (temp_prefix ++ suffix) (split clean slash) (concat body.pieces) time n
                hidden new in
            rw (valid, write, stored)
              (inl (
                info_at-object mime_type clean
                    (write_at opts.create_only (split clean slash) suffix time body root).1.now
                    (concat body.pieces) time shown,
                sound,
                new,
                passed,
                free,
              ))
      ]
