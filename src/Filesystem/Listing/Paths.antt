-- ===== src/Filesystem/Listing/Paths.antt =====
-- Paths as text and as names, and the rule by which `walk` of internal/backend/filesystem/filesystem.go
-- skips a subtree.
use booth_storage.Base.{
  ℕ, zero, suc, ◌-◌, ◌≡◌, ◌≢◌, refl, sym, ap, ◌∙◌, subst, ◌⊎◌, inl, inr, Bool, true, false, not,
  ◌&&◌, List, [], ◌∷◌, ◌++◌, Bytes, All, All-map, join, trim_suffix, ends_in, has_prefix,
  has_prefix-append, append_assoc, length, take, Bool-cases, arith,
}
use booth_storage.Base.Assoc.{bytes_lt, bytes_lt_total}
use booth_storage.Base.Split.{
  join-split, split-join, ends_in-join, trim_suffix_absent, trim_suffix_present,
}
use booth_storage.Backend.Path.{slash}
use booth_storage.Filesystem.Disk.Tidy.{IsName}
use booth_storage.Filesystem.Listing.{
  Comparison, before, level, after, compare_segments, segments_of, is_before,
}

-- A path as the code compares it.
pub segments-join : (p : List Bytes) → p ≢ [] → All IsName p → segments_of (join p slash) ≡ p
segments-join p named names =
    rw
      (trim_suffix_absent (join p slash) slash
        (ends_in-join p slash (All-map (λ s n. n.0) p names) (All-map (λ s n. n.1) p names)))
      (split-join p slash named (All-map (λ s n. n.1) p names))

pub take-nil {ℓ} : {A : Type ℓ} (n : ℕ) → take {A = A} n [] ≡ []
take-nil zero = refl
take-nil (suc n) = refl

pub take-append {ℓ} :
    {A : Type ℓ} (n : ℕ) (xs ys : List A)
    → take n (xs ++ ys) ≡ take n xs ++ take (n - length (take n xs)) ys
take-append zero xs ys = refl
take-append (suc n) [] ys = let same : suc n ≡ suc n - 0 = omega arith in ap (λ k. take k ys) same
take-append (suc n) (x ∷ xs) ys =
    let same : n - length (take n xs) ≡ suc n - suc (length (take n xs)) = omega arith in
    ap (λ l. x ∷ l) (take-append n xs ys ∙ ap (λ k. take n xs ++ take k ys) same)

-- What is before another path stays so when it is extended, unless the other one begins with it.
pub compare-extend :
    (p c : List Bytes)
    → compare_segments p c ≡ before
    → ((r : List Bytes) × (r ≢ []) × (c ≡ p ++ r))
      ⊎ ((r : List Bytes) → compare_segments (p ++ r) c ≡ before)
unfolding compare_segments
compare-extend [] [] h = cc
compare-extend [] (b ∷ c) h = inl (b ∷ c, λ e. cc, refl)
compare-extend (a ∷ p) [] h = cc
compare-extend (a ∷ p) (b ∷ c) h = elim (Bool-cases (bytes_lt a b)) [
  | inl less ↦ inr (λ r. rw less refl)
  | inr more ↦ elim (Bool-cases (bytes_lt b a)) [
    | inl wrong ↦ cc (rw (more, wrong) at h)
    | inr even ↦ elim (compare-extend p c (rw (more, even) at h)) [
      | inl (r, named, same) ↦
          inl (r, named, rw (← bytes_lt_total a b more even) (ap (λ q. a ∷ q) same))
      | inr all_before ↦ inr (λ r. rw (more, even) (all_before r))
    ]
  ]
]

pub join-append :
    (p r : List Bytes)
    → p ≢ []
    → r ≢ []
    → join (p ++ r) slash ≡ join p slash ++ slash ∷ join r slash
unfolding join
join-append [] r h k = absurd (h refl)
join-append (s ∷ []) [] h k = absurd (k refl)
join-append (s ∷ []) (t ∷ r) h k = refl
join-append (s ∷ t ∷ p) r h k =
    rw (join-append (t ∷ p) r (λ e. cc) k)
      (sym (append_assoc s (slash ∷ join (t ∷ p) slash) (slash ∷ join r slash)))

pub skip-parts :
    (a b c : Bool) → not a && b && not c ≡ true → (a ≡ false) × (b ≡ true) × (c ≡ false)
skip-parts a b c h = ground arith

pub is_before-eq : (o : Comparison) → is_before o ≡ true → o ≡ before
is_before-eq before h = refl
is_before-eq level h = cc
is_before-eq after h = cc

-- A cursor whose names begin with those of a folder begins with the folder's path and a slash.
pub prefix-inside :
    (p r : List Bytes) (cursor : Bytes)
    → p ≢ []
    → r ≢ []
    → segments_of cursor ≡ p ++ r
    → has_prefix cursor (join p slash ++ slash ∷ []) ≡ true
prefix-inside p r cursor named more same =
    let front : Bytes = join p slash ++ slash ∷ [] in
    let whole : trim_suffix cursor slash ≡ front ++ join r slash =
      sym (join-split (trim_suffix cursor slash) slash)
      ∙ ap (λ q. join q slash) same
      ∙ join-append p r named more
      ∙ sym (append_assoc (join p slash) (slash ∷ []) (join r slash)) in
    elim (Bool-cases (ends_in cursor slash)) [
      | inr open_end ↦
          subst (λ c. has_prefix c front ≡ true)
            (sym whole ∙ trim_suffix_absent cursor slash open_end)
            (has_prefix-append front (join r slash))
      | inl closed ↦
          subst (λ c. has_prefix c front ≡ true)
            (sym (append_assoc front (join r slash) (slash ∷ []))
              ∙ ap (λ c. c ++ slash ∷ []) (sym whole)
              ∙ trim_suffix_present cursor slash closed)
            (has_prefix-append front (join r slash ++ slash ∷ []))
    ]
