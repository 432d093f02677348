-- ===== src/Backend/Flat/Move/Outcome.antt =====
-- `MoveFolderFlat` of internal/backend/flatstore.go as a whole: a move that succeeds moves every
-- object, a move that fails loses none.
use booth_storage.Base.{
  ◌≡◌, ◌≢◌, ◌⊎◌, true, none, List, [], Bytes, contains, bytes_eq_iff, has_prefix, Result, ok, err,
  arith,
}
use booth_storage.Backend.{ListResult}
use booth_storage.Backend.Path.{clean_prefix}
use booth_storage.Backend.Flat.{FlatStore, Stop, copy_then_delete, page_options}
use booth_storage.Backend.Flat.Laws.{FlatLaws}
use booth_storage.Backend.Flat.Move.Folder.{IsReady}

-- Nothing is listed under the destination: the probe of `MoveFolderFlat` gave an empty page, the last one.
pub vacant_of_probe :
    (F : FlatStore) (L : FlatLaws F) (to : Bytes) (s : F.State) (page : ListResult)
    → clean_prefix to ≡ ok to
    → (F.list (page_options to 1 []) s).0 ≡ ok page
    → page.entries ≡ []
    → page.next_cursor ≡ []
    → (j : Bytes) → has_prefix j to ≡ true
    → L.object s j ≡ none
unfolding contains
vacant_of_probe F L to s page clean given empty last j under = ground (
  arith,
  L.list_page to 1 [] s page given,
  last,
  bytes_eq_iff page.next_cursor [],
  L.pending_complete s to j clean,
)

module _ (F : FlatStore) (L : FlatLaws F) where
  open F use {State, list, delete_key}
  open L use {Content, object}

  -- The probe of the destination gave an empty page with more behind it, which `MoveFolderFlat` takes for
  -- an empty folder.
  abbrev pub IsMissed : Bytes → State → Type 0
  IsMissed to s =
      (t : State) × (page : ListResult) × ((k : Bytes) → object t k ≡ object s k)
      × ((list (page_options to 1 []) t).0 ≡ ok page)
      × (page.entries ≡ [])
      × (page.next_cursor ≢ [])

  -- A move either stops at its checks, with every object in place, or gets to the copies.
  abbrev Course : Bytes → Bytes → State → Result Stop (Unit {0}) × State → Type 0
  Course from to s out =
      (((j : Bytes) → object out.1 j ≡ object s j) × ((from ≡ to) ⊎ ((e : Stop) × (out.0 ≡ err e))))
      ⊎ ((keys : List Bytes) × (t : State) × ((j : Bytes) → object t j ≡ object s j)
          × IsReady F L from to keys t
          × (out ≡ copy_then_delete F from to keys t))
