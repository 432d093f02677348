-- ===== src/Backend/Path/Prefix.antt =====
-- `CleanPrefix` and `CleanFolder`: which folder prefixes they give, and what they let through.
use booth_storage.Base.{
  ℕ, ◌≤◌, ◌<◌, ◌+◌, All, All-append, length-append, ◌≡◌, ◌≢◌, ◌↔◌, ◌⊎◌, refl, sym, ap, ◌∙◌,
  append_assoc, inl, inr, true, [], ◌∷◌, ◌++◌, Bytes, arith, bytes_eq, bytes_eq_iff, ends_in,
  trim_suffix, length, Bool-cases, ok,
}
use booth_storage.Base.Split.{trim_suffix_absent, trim_suffix_present, trim_suffix-append}
use booth_storage.Backend.Path.{slash, max_path_len, check_segments, clean_prefix, clean_folder}
use booth_storage.Backend.Path.Rules.{
  IsChecked, IsClean, IsAllowed, IsJoined-ends_in, IsJoined-ne-nil, IsClean-IsChecked,
  check_segments_iff,
}

-- The text without one slash at its end.
abbrev pub stem : Bytes → Bytes
stem p = trim_suffix p slash

clean_prefix_parts :
    (p q : Bytes)
    → (clean_prefix p ≡ ok q) ↔ (
        ((stem p ≡ []) × (q ≡ []))
        ⊎ ((stem p ≢ []) × (check_segments (stem p) ≡ ok tt) × (q ≡ stem p ++ slash ∷ [])))
unfolding clean_prefix
clean_prefix_parts p q = ground (arith, bytes_eq_iff (stem p) [])

root_prefix : clean_prefix [] ≡ ok []
unfolding clean_prefix trim_suffix bytes_eq
root_prefix = refl

-- A second normalisation changes nothing.
pub clean_prefix_idem : (p q : Bytes) → clean_prefix p ≡ ok q → clean_prefix q ≡ ok q
clean_prefix_idem p q h = elim ((clean_prefix_parts p q).0 h) [
  | inl (_, root) ↦ rw root root_prefix
  | inr (named, checked, same) ↦
      let again : stem q ≡ stem p = rw same (trim_suffix-append (stem p) slash) in
      (clean_prefix_parts q q).1 (inr (rw again named, rw again checked, rw again same))
]

length-trim_suffix : (s : Bytes) (c : ℕ) → length (trim_suffix s c) ≤ length s
unfolding trim_suffix
length-trim_suffix [] c = omega arith
length-trim_suffix (a ∷ []) c = ground arith
length-trim_suffix (a ∷ b ∷ s) c = omega (arith, length-trim_suffix (b ∷ s) c)

All-trim_suffix : (P : ℕ → Type 0) (s : Bytes) (c : ℕ) → All P s → All P (trim_suffix s c)
unfolding trim_suffix
All-trim_suffix P [] c _ = tt
All-trim_suffix P (a ∷ []) c h = ground arith
All-trim_suffix P (a ∷ b ∷ s) c (h, k) = (h, All-trim_suffix P (b ∷ s) c k)

IsClean-stem : {p : Bytes} → IsChecked p → IsClean (stem p)
IsClean-stem {p} c = record {
  short = omega (arith, length-trim_suffix p slash);
  allowed = All-trim_suffix IsAllowed p slash c.allowed;
  relative = c.relative;
}

-- The root, or an object path with one slash behind it, or with two.
abbrev pub IsPrefix : Bytes → Type 0
IsPrefix q =
    (q ≡ []) ⊎ ((t : Bytes) × IsClean t × ((q ≡ t ++ slash ∷ []) ⊎ (q ≡ t ++ slash ∷ slash ∷ [])))

reopen : (s : Bytes) → ends_in s slash ≡ true → stem s ++ slash ∷ slash ∷ [] ≡ s ++ slash ∷ []
reopen s h =
    sym (append_assoc (stem s) (slash ∷ []) (slash ∷ []))
    ∙ ap (λ r. r ++ slash ∷ []) (trim_suffix_present s slash h)

-- A prefix that `CleanPrefix` gives is the root, or an object path with one or two slashes behind
-- it.
pub clean_prefix-IsPrefix : (p q : Bytes) → clean_prefix p ≡ ok q → IsPrefix q
clean_prefix-IsPrefix p q h = elim ((clean_prefix_parts p q).0 h) [
  | inl (_, root) ↦ inl root
  | inr (_, checked, same) ↦
      let clean = IsClean-stem ((check_segments_iff (stem p)).0 checked) in
      inr (
        stem (stem p),
        clean,
        elim (Bool-cases (ends_in (stem p) slash)) [
          | inl closed ↦ inr (same ∙ sym (reopen (stem p) closed))
          | inr bare ↦
              inl (same ∙ ap (λ r. r ++ slash ∷ []) (sym (trim_suffix_absent (stem p) slash bare)))
        ],
      )
]

length-close : (t : Bytes) → length (t ++ slash ∷ []) ≡ length t + 1
length-close t = omega (arith, length-append {0} t (slash ∷ []))

close-ne-nil : (t : Bytes) (c : ℕ) → t ++ c ∷ [] ≢ []
close-ne-nil [] c = cc
close-ne-nil (a ∷ t) c = cc

IsChecked-close : {t : Bytes} → IsClean t → length t < max_path_len → IsChecked (t ++ slash ∷ [])
IsChecked-close {t} c h = record {
  short = omega (arith, length-close t);
  allowed = All-append IsAllowed t (slash ∷ []) c.allowed ((omega arith, omega arith), tt);
  relative = rw (trim_suffix-append t slash) c.relative;
}

-- The path rules refuse an empty segment, yet `CleanPrefix` gives every object path with two
-- slashes behind it back as it is, if the path has less than 1024 bytes.
pub clean_prefix_double :
    (t : Bytes)
    → IsClean t
    → length t < max_path_len
    → clean_prefix (t ++ slash ∷ slash ∷ []) ≡ ok (t ++ slash ∷ slash ∷ [])
clean_prefix_double t c h =
    let one = t ++ slash ∷ [] in
    let two : t ++ slash ∷ slash ∷ [] ≡ one ++ slash ∷ [] =
      sym (append_assoc t (slash ∷ []) (slash ∷ [])) in
    let closed : stem (t ++ slash ∷ slash ∷ []) ≡ one = rw two (trim_suffix-append one slash) in
    (clean_prefix_parts _ _).1 (
      inr (
        rw closed (close-ne-nil t slash),
        rw closed ((check_segments_iff one).1 (IsChecked-close c h)),
        rw closed two,
      ))

-- `CleanFolder` refuses exactly the root among the prefixes.
pub clean_folder_iff :
    (p q : Bytes) → (clean_folder p ≡ ok q) ↔ ((clean_prefix p ≡ ok q) × (q ≢ []))
unfolding clean_folder
clean_folder_iff p q = ground (arith, bytes_eq_iff q [])

-- A clean folder ends with its slash.
pub clean_folder-closed :
    (p q : Bytes) → clean_folder p ≡ ok q → trim_suffix q slash ++ slash ∷ [] ≡ q
clean_folder-closed p q h =
    let (prefix, named) = (clean_folder_iff p q).0 h in
    elim ((clean_prefix_parts p q).0 prefix) [
      | inl (_, empty) ↦ absurd (named empty)
      | inr (_, _, same) ↦ rw (same, trim_suffix-append) refl
    ]

clean_prefix_of_stem :
    (p : Bytes) {t : Bytes} → stem p ≡ t → IsClean t → clean_prefix p ≡ ok (t ++ slash ∷ [])
clean_prefix_of_stem p {t} e c = (clean_prefix_parts p _).1 (
    inr (
      rw e (IsJoined-ne-nil c.relative),
      rw e ((check_segments_iff t).1 (IsClean-IsChecked c)),
      rw e refl,
    ))

-- An object path names the same folder with one slash behind it and with none, and this is the
-- prefix that `CleanFolder` gives.
pub clean_folder_of_clean :
    (t : Bytes)
    → IsClean t
    → (clean_folder t ≡ ok (t ++ slash ∷ []))
      × (clean_folder (t ++ slash ∷ []) ≡ ok (t ++ slash ∷ []))
clean_folder_of_clean t c =
    let open_end = trim_suffix_absent t slash (IsJoined-ends_in c.relative) in
    let to_folder = λ (p : Bytes) (e : stem p ≡ t).
      (clean_folder_iff p (t ++ slash ∷ [])).1 (clean_prefix_of_stem p e c, close-ne-nil t slash) in
    (to_folder t open_end, to_folder (t ++ slash ∷ []) (trim_suffix-append t slash))
