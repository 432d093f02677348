-- ===== src/Backend/Flat/Listing.antt =====
-- `keysUnder` of internal/backend/flatstore.go: what the page loop gives.
use booth_storage.Base.{
  ℕ, zero, suc, ◌≡◌, ◌≢◌, ◌⊎◌, refl, sym, ◌∙◌, ap, inl, inr, Option, List, [], ◌++◌, append_assoc,
  append-nil, Bytes, bytes_eq_iff, Exec, Result, ok, err, arith,
}
use booth_storage.Backend.{ListResult, BackendError}
use booth_storage.Backend.Flat.{
  FlatStore, Stop, paths, page_options, max_list_limit, next_page, keys_from, keys_under,
}
use booth_storage.Backend.Flat.Laws.{FlatLaws, after}

module _ {S : Type 0} (more : Bytes → List Bytes → Exec S Stop (List Bytes)) where
  -- The next round from a page, by its three ways on.
  next_page_object :
      {C : Type 0} (object : S → Bytes → Option C) (limit : ℕ) (keys : List Bytes)
      (r : Result BackendError ListResult) (s : S) (k : Bytes)
      → ((cursor : Bytes) (seen : List Bytes) → object (more cursor seen s).1 k ≡ object s k)
      → object (next_page more limit keys r s).1 k ≡ object s k
  next_page_object object limit keys (err e) s k h = refl
  next_page_object object limit keys (ok page) s k h =
      ground (arith, h page.next_cursor (keys ++ paths page.entries))

  next_page-eq-ok :
      (limit : ℕ) (keys out : List Bytes) (r : Result BackendError ListResult) (s : S)
      → (next_page more limit keys r s).0 ≡ ok out
      → (page : ListResult) × (r ≡ ok page)
        × (((page.next_cursor ≡ []) × (out ≡ keys ++ paths page.entries))
            ⊎ ((page.next_cursor ≢ [])
                × ((more page.next_cursor (keys ++ paths page.entries) s).0 ≡ ok out)))
  next_page-eq-ok limit keys out (err e) s h = cc
  next_page-eq-ok limit keys out (ok page) s h =
      (page, refl, ground (arith, bytes_eq_iff page.next_cursor []))

after_end :
    (pending : Bytes → List Bytes) (l : List Bytes) {cursor : Bytes}
    → cursor ≡ []
    → l ++ after pending cursor ≡ l
after_end pending l {cursor} h = ground (arith, bytes_eq_iff cursor [], append-nil l)

after_more :
    (pending : Bytes → List Bytes) (l : List Bytes) {cursor : Bytes}
    → cursor ≢ []
    → l ++ after pending cursor ≡ l ++ pending cursor
after_more pending l {cursor} h = ground (arith, bytes_eq_iff cursor [])

module _ (F : FlatStore) (L : FlatLaws F) where
  open F use {State, list}
  open L use {object, pending}

  keys_from_object :
      (fuel : ℕ) (prefix : Bytes) (limit : ℕ) (cursor : Bytes) (keys : List Bytes) (s : State)
      (k : Bytes)
      → object (keys_from F fuel prefix limit cursor keys s).1 k ≡ object s k
  unfolding keys_from
  keys_from_object zero prefix limit cursor keys s k = refl
  keys_from_object (suc fuel) prefix limit cursor keys s k =
      let o = page_options prefix max_list_limit cursor in
      next_page_object (keys_from F fuel prefix limit) object limit keys (list o s).0 (list o s).1 k
        (λ c seen. keys_from_object fuel prefix limit c seen (list o s).1 k)
      ∙ L.list_keeps_object o s k

  pub keys_under_object :
      (fuel : ℕ) (prefix : Bytes) (limit : ℕ) (s : State) (k : Bytes)
      → object (keys_under F fuel prefix limit s).1 k ≡ object s k
  unfolding keys_under
  keys_under_object fuel prefix limit s k = keys_from_object fuel prefix limit [] [] s k

  keys_from-eq-ok :
      (fuel : ℕ) (prefix : Bytes) (limit : ℕ) (cursor : Bytes) (keys out : List Bytes) (s : State)
      → (keys_from F fuel prefix limit cursor keys s).0 ≡ ok out
      → out ≡ keys ++ pending s prefix cursor
  unfolding keys_from
  keys_from-eq-ok zero prefix limit cursor keys out s h = cc
  keys_from-eq-ok (suc fuel) prefix limit cursor keys out s h =
      let o = page_options prefix max_list_limit cursor in
      let (page, given, ends) =
        next_page-eq-ok (keys_from F fuel prefix limit) limit keys out (list o s).0 (list o s).1
          h in
      let listed = L.list_page prefix max_list_limit cursor s page given in
      elim ends [
        | inl (last, all_seen) ↦
            all_seen
            ∙ ap (λ l. keys ++ l)
                (sym (listed ∙ after_end (pending s prefix) (paths page.entries) last))
        | inr (more, later) ↦
            keys_from-eq-ok fuel prefix limit page.next_cursor (keys ++ paths page.entries) out
              (list o s).1 later
            ∙ ap (λ l. (keys ++ paths page.entries) ++ l)
                (L.list_keeps_pending o s prefix page.next_cursor)
            ∙ append_assoc keys (paths page.entries) (pending s prefix page.next_cursor)
            ∙ ap (λ l. keys ++ l)
                (sym (listed ∙ after_more (pending s prefix) (paths page.entries) more))
      ]

  -- What `keysUnder` gives is what the listing of the prefix holds.
  pub keys_under-eq-ok :
      (fuel : ℕ) (prefix : Bytes) (limit : ℕ) (out : List Bytes) (s : State)
      → (keys_under F fuel prefix limit s).0 ≡ ok out
      → out ≡ pending s prefix []
  unfolding keys_under
  keys_under-eq-ok fuel prefix limit out s h = keys_from-eq-ok fuel prefix limit [] [] out s h
