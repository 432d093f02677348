-- ===== src/Filesystem/Writing/Steps.antt =====
-- `Write` of internal/backend/filesystem/filesystem.go: the steps on the temporary file.
use booth_storage.Base.{
  ℕ, ◌≡◌, refl, ◌∙◌, inl, inr, Option, some, List, [], ◌∷◌, ◌++◌, Bytes, bytes_eq, bytes_eq_refl,
  append-nil, append_assoc, Result, ok, Result-cases,
}
use booth_storage.Filesystem.{Trail, step, fill, remove_temp}
use booth_storage.Filesystem.Disk.{
  OsError, Node, file, folder, Entries, find_entry, assign, stat, alter, add_new, refill,
  drop_entry,
}
use booth_storage.Filesystem.Disk.Lookup.{File, object, find-assign, alter-inside, add_new-ok}
use booth_storage.Filesystem.Disk.Change.{keep, under-keep, Does, alter-Does, alter-total}
use booth_storage.Filesystem.Writing.{
  Passed, concat, entries-keep, Only, refill-Only, drop_entry-Only,
}

module _ (root : Node) (dir : List Bytes) (temp : Bytes) where
  -- The objects at the paths without the temporary name, against those of the first disk.
  abbrev pub Shows : (List Bytes → Option File → Option File) → Node → Type 0
  Shows g n = Does (λ s. bytes_eq temp s) g root n

  -- The temporary file is there, with this content.
  abbrev pub Holds : Bytes → ℕ → Node → Type 0
  Holds c t n =
      (es : Entries) × (stat n dir ≡ ok (folder es)) × (find_entry temp es ≡ some (file c t))

  pub temp-Shows :
      (f : Entries → Result OsError Entries) (g : List Bytes → Option File → Option File)
      (n m : Node)
      → Only temp f
      → alter f n dir ≡ ok m
      → Shows g n
      → Shows g m
  temp-Shows f g n m only h shows q seen =
      alter-Does (λ s. bytes_eq temp s) f keep n m dir
        (λ es after _ e. entries-keep (λ s. bytes_eq temp s) es after (only es after e)) h q seen
      ∙ under-keep dir q (object n q)
      ∙ shows q seen

  pub add_new-Holds :
      (time : ℕ) (n m : Node) → alter (add_new temp (file [] time)) n dir ≡ ok m → Holds [] time m
  add_new-Holds time n m h =
      let (es, after, e, _, at, _, _) = alter-inside (add_new temp (file [] time)) n m dir h in
      let (_, same) = add_new-ok temp (file [] time) es after e in
      (after, at, rw (same, find-assign temp temp (file [] time) es, bytes_eq_refl temp) refl)

  pub fill-Shows :
      (g : List Bytes → Option File → Option File) (time : ℕ) (pieces : List Bytes)
      (content : Bytes) (d : Trail)
      → Holds content time d.now
      → Passed (Shows g) d
      → Holds (content ++ concat pieces) time (fill dir temp time content pieces d).now
        × Passed (Shows g) (fill dir temp time content pieces d)
  unfolding fill concat
  fill-Shows g time [] content d holds h = (rw append-nil holds, h)
  fill-Shows g time (piece ∷ pieces) content d (es, at, there) h =
      let next : Bytes = content ++ piece in
      let (m, e, at') =
        alter-total (refill temp next time) d.now dir es (assign temp (file next time) es) at
          (unfold refill in refl) in
      rw (fill, concat, e, ← append_assoc)
        (fill-Shows g time pieces next (step m d)
          (
            assign temp (file next time) es,
            at',
            rw (find-assign temp temp (file next time) es, bytes_eq_refl temp) refl,
          )
          (temp-Shows (refill temp next time) g d.now m (refill-Only temp next time) e h.0, h))

  pub remove_temp-Passed :
      (P : Node → Type 0) (g : List Bytes → Option File → Option File) (d : Trail)
      → ((n : Node) → Shows g n → P n)
      → Shows g d.now
      → Passed P d
      → Passed P (remove_temp dir temp d) × Shows g (remove_temp dir temp d).now
  remove_temp-Passed P g d good shows h = elim (Result-cases (alter (drop_entry temp) d.now dir)) [
    | inl (m, e) ↦
        let after : Shows g m =
          temp-Shows (drop_entry temp) g d.now m (drop_entry-Only temp) e shows in
        rw (e, remove_temp) ((good m after, h), after)
    | inr (_, e) ↦ rw (e, remove_temp) (h, shows)
  ]
