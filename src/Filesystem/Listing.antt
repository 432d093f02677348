-- ===== src/Filesystem/Listing.antt =====
-- `List` of internal/backend/filesystem/filesystem.go. A path that the walk visits is the list of its names,
-- with no name for the root, which the code writes ".".
-- Which paths `fs.ValidPath` accepts is an argument.
pub mod Order
pub mod Paths
pub mod Walk
pub mod Readable
pub mod Sorted
pub mod Cuts
pub mod Pages
use booth_storage.Base.{
  ℕ, zero, suc, ◌+◌, ◌-◌, Bool, true, false, not, ◌&&◌, ◌||◌, Option, none, some, List, [], ◌∷◌,
  ◌++◌, Bytes, codes, bytes_eq, split, join, has_prefix, ends_in, trim_suffix, length, take, ltb,
  Result, ok, err, ◌>>=◌, if◌then◌else◌,
}
use booth_storage.Base.Assoc.{bytes_lt}
use booth_storage.Backend.{BackendError, ObjectInfo, ListOptions, ListResult}
use booth_storage.Backend.Path.{slash, clean_prefix}
use booth_storage.Backend.Options.{effective_limit}
use booth_storage.Filesystem.{temp_prefix, map_err, is_valid_path, info_for, leaf}
use booth_storage.Filesystem.Objects.{dir_of, names_of}
use booth_storage.Filesystem.Disk.{
  OsError, not_exist, not_dir, invalid, Node, file, folder, special, Entries, vacant, entry, stat,
}

pub data Comparison : Type 0 where
  before level after : Comparison

-- `comparePaths` of the segments.
unfoldable pub compare_segments : List Bytes → List Bytes → Comparison
compare_segments [] [] = level
compare_segments [] (b ∷ q) = before
compare_segments (a ∷ p) [] = after
compare_segments (a ∷ p) (b ∷ q) =
    let rest = compare_segments p q in
    if bytes_lt a b then before else if bytes_lt b a then after else rest

abbrev pub segments_of : Bytes → List Bytes
segments_of p = split (trim_suffix p slash) slash

abbrev pub compare_paths : Bytes → Bytes → Comparison
compare_paths a b = compare_segments (segments_of a) (segments_of b)

abbrev pub is_after : Comparison → Bool
is_after after = true
is_after o = false

abbrev pub is_before : Comparison → Bool
is_before before = true
is_before o = false

-- `afterCursor`
abbrev pub after_cursor : Bytes → Bytes → Bool
after_cursor p cursor = bytes_eq cursor [] || is_after (compare_paths p cursor)

abbrev pub is_temp : Bytes → Bool
is_temp name = has_prefix name temp_prefix

abbrev pub info_of_folder : Bytes → ObjectInfo
info_of_folder p = record {
  path = p;
  size = 0;
  mod_time = 0;
  content_type = [];
  etag = [];
  is_dir = true;
}

module _ (mime_type : Bytes → Bytes) (cursor : Bytes) where
  -- What an entry of a directory adds to a listing of one level.
  unfoldable pub level_entry : Bytes → Bytes → Node → List ObjectInfo
  level_entry prefix name (file content time) =
      if not (is_temp name) && after_cursor (prefix ++ name) cursor
      then info_for mime_type (prefix ++ name) content time ∷ []
      else []
  level_entry prefix name (folder es) =
      if not (is_temp name) && after_cursor (prefix ++ name ++ slash ∷ []) cursor
      then info_of_folder (prefix ++ name ++ slash ∷ []) ∷ []
      else []
  level_entry prefix name special = []

  -- `listDir`, until there is no room in the page.
  unfoldable pub list_dir : ℕ → Bytes → Entries → List ObjectInfo
  list_dir zero prefix es = []
  list_dir (suc room) prefix vacant = []
  list_dir (suc room) prefix (entry name n es) =
      let here = level_entry prefix name n in here ++ list_dir (suc room - length here) prefix es

  -- A subtree that sorts entirely before the cursor is skipped, unless the cursor lives inside it.
  unfoldable pub skips : List Bytes → Bool
  skips [] = false
  skips (s ∷ at) =
      let p = join (s ∷ at) slash in
      not (bytes_eq cursor [])
      && is_before (compare_paths p cursor)
      && not (has_prefix cursor (p ++ slash ∷ []))

module _ (valid_path : Bytes → Bool) (mime_type : Bytes → Bytes) (cursor : Bytes) where
  -- The visits of `walk` below an entry, until there is no room in the page, or until a directory cannot be
  -- read: what was found, and whether the walk ended with an error.
  unfoldable mutual
    pub visit_at : ℕ → List Bytes → Node → List ObjectInfo × Bool
    visit_at room at (file content time) = (
      if after_cursor (join at slash) cursor
          then info_for mime_type (join at slash) content time ∷ []
          else [],
      false,
    )
    visit_at room at (folder es) =
        let below = visit_in room at es in
        if skips mime_type cursor at
        then ([], false)
        else if is_valid_path valid_path at
        then below
        else ([], true)
    visit_at room at special = ([], false)

    pub visit_in : ℕ → List Bytes → Entries → List ObjectInfo × Bool
    visit_in zero at es = ([], false)
    visit_in (suc room) at vacant = ([], false)
    visit_in (suc room) at (entry name n es) =
        let visit = visit_at (suc room) (at ++ name ∷ []) n in
        let here = if is_temp name then ([], false) else visit in
        let rest = visit_in (suc room - length here.0) at es in
        if here.1 then here else (here.0 ++ rest.0, rest.1)

  -- `walk` from a directory; one that is written with a slash behind it is no valid path.
  abbrev pub walk : ℕ → Bool → List Bytes → Node → List ObjectInfo × Bool
  walk room slashed start n =
      if slashed || not (is_valid_path valid_path start)
      then ([], true)
      else if is_temp (leaf start)
      then ([], false)
      else visit_at room start n

unfoldable pub last_path : List ObjectInfo → Bytes
last_path [] = []
last_path (x ∷ []) = x.path
last_path (x ∷ y ∷ xs) = last_path (y ∷ xs)

-- The page of the entries that were collected, one more than the limit if there is another page.
abbrev pub page : ℕ → List ObjectInfo → ListResult
page limit entries =
    if ltb limit (length entries)
    then record { entries = take limit entries; next_cursor = last_path (take limit entries) }
    else record { entries = entries; next_cursor = [] }

abbrev pub empty_page : ListResult
empty_page = record { entries = []; next_cursor = [] }

-- The names on the way to a folder, whose prefix may end in two slashes.
abbrev pub start_of : Bytes → List Bytes
start_of prefix = if bytes_eq (dir_of prefix) [] then [] else names_of (dir_of prefix)

abbrev pub page_unless : ℕ → List ObjectInfo × Bool → Result BackendError ListResult
page_unless limit (entries, true) = err (map_err invalid)
page_unless limit (entries, false) = ok (page limit entries)

module _ (valid_path : Bytes → Bool) (mime_type : Bytes → Bytes) (opts : ListOptions) where
  abbrev pub list_folder : Bytes → Entries → Result BackendError ListResult
  list_folder prefix es =
      let limit = effective_limit opts in
      page_unless limit (
        if opts.recursive
        then walk valid_path mime_type opts.cursor (suc limit) (ends_in (dir_of prefix) slash)
            (start_of prefix) (folder es)
        else (list_dir mime_type opts.cursor (suc limit) prefix es, false))

  -- What a listing makes of what is at its prefix.
  abbrev pub list_found : Bytes → Result OsError Node → Result BackendError ListResult
  list_found prefix (err not_exist) = ok empty_page
  list_found prefix (err not_dir) = ok empty_page
  list_found prefix (err e) = err (map_err e)
  list_found prefix (ok (folder es)) = list_folder prefix es
  list_found prefix (ok n) = ok empty_page

  -- `List`
  unfoldable pub list : Node → Result BackendError ListResult
  list root = clean_prefix opts.prefix >>= λ prefix. list_found prefix (stat root (start_of prefix))
