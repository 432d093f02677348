-- ===== src/UploadGrant/Extensions.antt =====
-- `ValidateExtensions` and `HasExtension` of internal/uploadgrant/model.go.
use booth_storage.Base.{
  ℕ, ◌≡◌, ◌≢◌, ◌↔◌, refl, ap, ◌∙◌, inl, inr, true, false, ◌||◌, none, some, List, [], ◌∷◌, ◌++◌,
  Bytes, ◌==◌, bytes_eq, bytes_eq_iff, contains, after_last, to_lower, Lacks, map, All, All-append,
  Option-cases, Bool-cases, Result, ok, arith, if◌then◌else◌,
}
use booth_storage.UploadGrant.{
  is_extension, normalize_extension, collect_extensions, validate_extensions, has_extension,
}

-- No entry occurs twice.
abbrev pub Distinct : List Bytes → Type 0
Distinct [] = Unit
Distinct (x ∷ xs) = (contains xs x ≡ false) × Distinct xs

contains-append :
    (xs : List Bytes) (y x : Bytes) → contains (xs ++ y ∷ []) x ≡ (contains xs x || bytes_eq y x)
unfolding contains
contains-append [] y x = ground arith
contains-append (z ∷ xs) y x = ground (arith, contains-append xs y x)

Distinct-append :
    (xs : List Bytes) (y : Bytes) → Distinct xs → contains xs y ≡ false → Distinct (xs ++ y ∷ [])
unfolding contains
Distinct-append [] y _ _ = (refl, tt)
Distinct-append (x ∷ xs) y (fresh, d) h = (
  ground (arith, contains-append xs y x, bytes_eq_iff x y, bytes_eq_iff y x),
  Distinct-append xs y d (ground arith),
)

abbrev IsValidList : List Bytes → Type 0
IsValidList = All (λ e. is_extension e ≡ true)

abbrev pub normalized : List Bytes → List Bytes
normalized = map normalize_extension

ok-injective : {E A : Type 0} {a b : A} → ◌≡◌ {A = Result E A} (ok a) (ok b) → a ≡ b
ok-injective h = cc

collect_sound :
    (out exts result : List Bytes)
    → collect_extensions out exts ≡ ok result
    → IsValidList out
    → Distinct out
    → IsValidList result
      × Distinct result
      × ((x : Bytes) → contains result x ≡ (contains out x || contains (normalized exts) x))
unfolding collect_extensions contains
collect_sound out [] result h v d =
    let same = ok-injective h in (rw (← same) v, rw (← same) d, λ x. rw (← same) (ground arith))
collect_sound out (e ∷ es) result h v d =
    let ext = normalize_extension e in
    elim (Bool-cases (is_extension ext)) [
      | inr bad ↦ cc (rw (bad, collect_extensions) at h)
      | inl good ↦ elim (Bool-cases (contains out ext)) [
        | inl listed ↦
            let (v', d', all_of) = collect_sound out es result (rw (good, listed) at h) v d in
            (v', d', λ x. all_of x ∙ ground (arith, listed, bytes_eq_iff ext x))
        | inr fresh ↦
            let (v', d', all_of) =
              collect_sound (out ++ ext ∷ []) es result (rw (good, fresh) at h)
                (All-append _ out (ext ∷ []) v (good, tt)) (Distinct-append out ext d fresh) in
            (v', d', λ x. all_of x ∙ ground (arith, contains-append out ext x))
      ]
    ]

collect_complete :
    (out exts : List Bytes)
    → All (λ e. is_extension (normalize_extension e) ≡ true) exts
    → (result : List Bytes) × (collect_extensions out exts ≡ ok result)
unfolding collect_extensions
collect_complete out [] _ = (out, refl)
collect_complete out (e ∷ es) (h, k) =
    let (result, done) =
      collect_complete
        (if contains out (normalize_extension e) then out else out ++ normalize_extension e ∷ []) es
        k in
    (result, rw h done)

-- An accepted list holds valid extensions, none twice, and exactly the normalised ones of the input.
pub validate_extensions_sound :
    (exts result : List Bytes)
    → validate_extensions exts ≡ ok result
    → (exts ≢ [])
      × All (λ e. is_extension e ≡ true) result
      × Distinct result
      × ((x : Bytes) → contains result x ≡ contains (normalized exts) x)
unfolding validate_extensions
validate_extensions_sound [] result h = cc
validate_extensions_sound (e ∷ es) result h =
    let (valid, distinct, all_of) = collect_sound [] (e ∷ es) result h tt tt in
    (cc, valid, distinct, unfold contains in all_of)

after_last-none : (s : Bytes) (c : ℕ) → after_last s c ≡ none → Lacks c s
unfolding after_last
after_last-none [] c h = tt
after_last-none (a ∷ s) c h = (ground arith, after_last-none s c (ground arith))

after_last-Lacks : (s : Bytes) (c : ℕ) → Lacks c s → after_last s c ≡ none
unfolding after_last
after_last-Lacks [] c _ = refl
after_last-Lacks (a ∷ s) c (h, k) = ground (arith, after_last-Lacks s c k)

after_last_sound :
    (s : Bytes) (c : ℕ) (r : Bytes)
    → after_last s c ≡ some r
    → (l : Bytes) × (s ≡ l ++ c ∷ r) × Lacks c r
unfolding after_last
after_last_sound [] c r h = cc
after_last_sound (a ∷ s) c r h = elim (Option-cases (after_last s c)) [
  | inr (r', found) ↦
      let (l, text, lacks) = after_last_sound s c r (found ∙ (rw (found, after_last) at h)) in
      (a ∷ l, ap (λ t. a ∷ t) text, lacks)
  | inl missing ↦
      let lacks = after_last-none s c missing in
      let here : (if a == c then some s else none) ≡ some r = rw (missing, after_last) at h in
      let same : s ≡ r = ground arith in ([], ground arith, rw (← same) lacks)
]

after_last-append : (l : Bytes) (c : ℕ) (r : Bytes) → Lacks c r → after_last (l ++ c ∷ r) c ≡ some r
unfolding after_last
after_last-append [] c r h = ground (arith, after_last-Lacks r c h)
after_last-append (a ∷ l) c r h = rw (after_last-append l c r h) refl

after_last_iff :
    (s : Bytes) (c : ℕ) (r : Bytes)
    → (after_last s c ≡ some r) ↔ ((l : Bytes) × (s ≡ l ++ c ∷ r) × Lacks c r)
after_last_iff s c r =
    (after_last_sound s c r, λ (l, text, lacks). rw text (after_last-append l c r lacks))

-- A name has an allowed extension exactly if it ends in a dot and a text without a dot that is not
-- empty and whose lower case is listed.
pub has_extension_iff :
    (name : Bytes) (exts : List Bytes)
    → (has_extension name exts ≡ true) ↔ (
        (l : Bytes) × (ext : Bytes) × (name ≡ l ++ b'.' ∷ ext)
        × Lacks b'.' ext
        × (ext ≢ [])
        × (contains exts (to_lower ext) ≡ true))
unfolding has_extension
has_extension_iff name exts = (
  λ h. elim (Option-cases (after_last name b'.')) [
    | inl missing ↦ cc (rw (missing, has_extension) at h)
    | inr (ext, found) ↦
        let (l, text, lacks) = (after_last_iff name b'.' ext).0 found in
        let listed : (if bytes_eq ext [] then false else contains exts (to_lower ext)) ≡ true =
          rw (found, has_extension) at h in
        (l, ext, text, lacks, ground (arith, bytes_eq_iff ext []), ground arith)
  ],
  λ (l, ext, text, lacks, some_text, listed).
      rw ((after_last_iff name b'.' ext).1 (l, text, lacks), has_extension)
        (ground (arith, bytes_eq_iff ext [])),
)
