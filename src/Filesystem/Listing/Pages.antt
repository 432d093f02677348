-- ===== src/Filesystem/Listing/Pages.antt =====
-- A client that follows the cursors of `List` of internal/backend/filesystem/filesystem.go.
use booth_storage.Base.{
  ℕ, zero, suc, ◌+◌, ◌-◌, ◌<◌, ◌≡◌, ◌≢◌, refl, sym, ap, ◌∙◌, subst, inl, inr, Bool, true, false,
  ends_in, List, [], ◌∷◌, ◌++◌, Bytes, bytes_eq, bytes_eq_iff, All, All-map, join, append_assoc,
  length, length-append, take, ltb, Bool-cases, Result, ok, err, arith, if◌then◌else◌, All-split,
}
use booth_storage.Base.Split.{join-ne-nil}
use booth_storage.Backend.{BackendError, ObjectInfo, ListOptions, ListResult}
use booth_storage.Backend.Path.{slash, clean_prefix}
use booth_storage.Backend.Options.{effective_limit, effective_limit_bounds}
use booth_storage.Filesystem.{leaf}
use booth_storage.Filesystem.Disk.{Node, folder, Entries, stat}
use booth_storage.Filesystem.Disk.Lookup.{File}
use booth_storage.Filesystem.Disk.Tidy.{IsTidy, stat-IsTidy}
use booth_storage.Filesystem.Listing.{page, list, start_of, is_temp}
use booth_storage.Filesystem.Objects.{dir_of}
use booth_storage.Filesystem.Listing.Walk.{files, infos, walk_at-take}
use booth_storage.Filesystem.Listing.Readable.{IsReadable, visit_at-walk}
use booth_storage.Filesystem.Listing.Sorted.{
  Ascending, IsNamed, files_in-IsNamed, listed, infos_first, infos_cut, files-Ascending,
}
use booth_storage.Filesystem.Listing.Cuts.{
  cut_at, listed-append, length-listed, page_last, page_more,
}

-- The listing that goes on behind a cursor.
abbrev pub with_cursor : Bytes → ListOptions → ListOptions
with_cursor cursor opts = record {
  prefix = opts.prefix;
  recursive = opts.recursive;
  limit = opts.limit;
  cursor = cursor;
  include_folder_markers = opts.include_folder_markers;
}

-- All entries that a client gets that follows the cursors, in at most so many pages.
unfoldable pub gather :
    (Bytes → Bool) → (Bytes → Bytes) → ListOptions → Node → ℕ → Bytes → List ObjectInfo
gather valid_path mime_type opts root zero cursor = []
gather valid_path mime_type opts root (suc pages) cursor =
    elim (list valid_path mime_type (with_cursor cursor opts) root) [
      | err e ↦ []
      | ok r ↦
          let rest = gather valid_path mime_type opts root pages r.next_cursor in
          if bytes_eq r.next_cursor [] then r.entries else r.entries ++ rest
    ]

module _ (valid_path : Bytes → Bool) (mime_type : Bytes → Bytes) (opts : ListOptions) (root : Node)
    (all : List (List Bytes × File)) (ascending : Ascending all) (named : All IsNamed all)
    (runs : (cursor : Bytes)
      → list valid_path mime_type (with_cursor cursor opts) root
        ≡ ok (
            page
              (effective_limit opts)
              (take (suc (effective_limit opts)) (infos mime_type cursor all)))) where
  abbrev ok_result : ListResult → Result BackendError ListResult
  ok_result r = ok r

  abbrev page_of : List ObjectInfo → Result BackendError ListResult
  page_of l = ok (page (effective_limit opts) (take (suc (effective_limit opts)) l))

  page_cut :
      (rest : List (List Bytes × File))
      → ltb (effective_limit opts) (length rest) ≡ true
      → (mid : List (List Bytes × File)) × (x : List Bytes × File) × (later : List
          (List Bytes × File))
        × (rest ≡ mid ++ x ∷ later)
        × (effective_limit opts ≡ suc (length mid))
        × (later ≢ [])
  page_cut rest further =
      let (some_limit, _, _) = effective_limit_bounds opts in
      let (mid, x, later, cut, long) = cut_at (effective_limit opts - 1) rest (ground arith) in
      let total : length rest ≡ length mid + suc (length later) =
        ap length cut ∙ length-append mid (x ∷ later) in
      (
        mid,
        x,
        later,
        cut,
        omega (arith, some_limit, long),
        λ empty. let none_left : length later ≡ 0 = ap length empty in absurd (ground arith),
      )

  page_shorter :
      (rest mid later : List (List Bytes × File)) (x : List Bytes × File)
      → rest ≡ mid ++ x ∷ later
      → (pages : ℕ) → length rest < suc pages
      → length later < pages
  page_shorter rest mid later x cut pages enough =
      let total : length rest ≡ length mid + suc (length later) =
        ap length cut ∙ length-append mid (x ∷ later) in
      omega (arith, total, enough)

  gather-rest :
      (pages : ℕ) (front rest : List (List Bytes × File)) (cursor : Bytes)
      → all ≡ front ++ rest
      → infos mime_type cursor all ≡ listed mime_type rest
      → length rest < pages
      → gather valid_path mime_type opts root pages cursor ≡ listed mime_type rest
  unfolding gather
  gather-rest zero front rest cursor same left enough = absurd (omega arith)
  gather-rest (suc pages) front rest cursor same left enough =
      elim (Bool-cases (ltb (effective_limit opts) (length rest))) [
        | inr last_page ↦
            let whole : ltb (effective_limit opts) (length (listed mime_type rest)) ≡ false =
              ap (ltb (effective_limit opts)) (length-listed mime_type rest) ∙ last_page in
            let answer =
              runs cursor
              ∙ ap page_of left
              ∙ ap ok_result
                  (page_last mime_type (effective_limit opts) (listed mime_type rest) whole) in
            rw (gather, answer) (unfold bytes_eq in refl)
        | inl further ↦
            let (mid, x, later, cut, fits, more) = page_cut rest further in
            let here : all ≡ (front ++ mid) ++ x ∷ later =
              same ∙ ap (λ l. front ++ l) cut ∙ sym (append_assoc front mid (x ∷ later)) in
            let (_, own) =
              All-split IsNamed (front ++ mid) (x ∷ later) (subst (All IsNamed) here named) in
            let some_cursor : bytes_eq (join x.0 slash) [] ≡ false = ground (
              arith,
              bytes_eq_iff (join x.0 slash) [],
              join-ne-nil x.0 slash own.0.0 (All-map (λ s n. n.0) x.0 own.0.1),
            ) in
            let answer =
              runs cursor
              ∙ ap page_of left
              ∙ ap (λ l. page_of (listed mime_type l)) cut
              ∙ ap (λ n. ok_result (page n (take (suc n) (listed mime_type (mid ++ x ∷ later)))))
                  fits
              ∙ ap ok_result (page_more mime_type mid later x more) in
            let onwards =
              gather-rest pages (front ++ mid ++ x ∷ []) later (join x.0 slash)
                (here ∙ sym (append_assoc (front ++ mid) (x ∷ []) later))
                (ap (infos mime_type (join x.0 slash)) here
                  ∙ infos_cut mime_type (front ++ mid) later x (subst Ascending here ascending)
                      (subst (All IsNamed) here named))
                (page_shorter rest mid later x cut pages enough) in
            rw (gather, answer, some_cursor, onwards)
              (sym (listed-append mime_type (mid ++ x ∷ []) later)
                ∙ ap (listed mime_type) (append_assoc mid (x ∷ []) later ∙ sym cut))
      ]

-- On a tidy disk, a page of a recursive listing of a folder is cut from the list of all its files in tree
-- order: it holds the files behind the cursor, as many as the limit allows, and the next cursor is there if
-- there are more. The folder's prefix ends in one slash, its last name is no temporary one, and every
-- directory that the walk may come to has a path that `fs.ValidPath` accepts.
pub list_page :
    (valid_path : Bytes → Bool) (mime_type : Bytes → Bytes) (opts : ListOptions) (root : Node)
    (prefix : Bytes) (es : Entries) (cursor : Bytes)
    → IsTidy root
    → clean_prefix opts.prefix ≡ ok prefix
    → ends_in (dir_of prefix) slash ≡ false
    → stat root (start_of prefix) ≡ ok (folder es)
    → IsReadable valid_path (start_of prefix) (folder es)
    → opts.recursive ≡ true
    → is_temp (leaf (start_of prefix)) ≡ false
    → list valid_path mime_type (with_cursor cursor opts) root
      ≡ ok (
          page (effective_limit opts) (
            take
              (suc (effective_limit opts))
              (infos mime_type cursor (files (start_of prefix) (folder es)))))
unfolding list effective_limit IsReadable
list_page valid_path mime_type opts root prefix es cursor tidy clean closed at readable deep plain =
    let (names, below) = stat-IsTidy root (folder es) (start_of prefix) tidy at in
    let room : ℕ = suc (effective_limit opts) in
    rw
      (
        clean,
        at,
        deep,
        closed,
        readable.0,
        plain,
        visit_at-walk valid_path mime_type cursor room (start_of prefix) (folder es) readable,
        walk_at-take mime_type cursor (effective_limit opts) (start_of prefix) (folder es) names
            below,
      )
      refl

-- A client that follows the cursors of a recursive listing of a folder on a tidy disk, with no change to the
-- disk in between, gets every file of the folder that has no temporary name on its path below it, once, in
-- tree order, as soon as it asks for more pages than there are files. The folder's prefix ends in one slash,
-- its last name is no temporary one, and every directory that the walk may come to has a path that
-- `fs.ValidPath` accepts.
pub gather_all :
    (valid_path : Bytes → Bool) (mime_type : Bytes → Bytes) (opts : ListOptions) (root : Node)
    (prefix : Bytes) (es : Entries) (pages : ℕ)
    → IsTidy root
    → clean_prefix opts.prefix ≡ ok prefix
    → ends_in (dir_of prefix) slash ≡ false
    → stat root (start_of prefix) ≡ ok (folder es)
    → IsReadable valid_path (start_of prefix) (folder es)
    → opts.recursive ≡ true
    → is_temp (leaf (start_of prefix)) ≡ false
    → length (files (start_of prefix) (folder es)) < pages
    → gather valid_path mime_type opts root pages []
      ≡ listed mime_type (files (start_of prefix) (folder es))
unfolding IsTidy files
gather_all valid_path mime_type opts root prefix es pages tidy clean closed at readable deep plain
      enough =
    let (names, below) = stat-IsTidy root (folder es) (start_of prefix) tidy at in
    let all = files (start_of prefix) (folder es) in
    gather-rest valid_path mime_type opts root all
      (files-Ascending (start_of prefix) (folder es) names below)
      (files_in-IsNamed (start_of prefix) es names below)
      (λ cursor.
        list_page valid_path mime_type opts root prefix es cursor tidy clean closed at readable deep
          plain)
      pages [] all [] refl (infos_first mime_type all) enough
