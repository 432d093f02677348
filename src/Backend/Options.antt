-- ===== src/Backend/Options.antt =====
-- internal/backend/backend.go: the page limit of a listing and the quoting of entity tags.
use booth_storage.Base.{
  ℕ, ◌≤◌, ◌≡◌, ◌≢◌, refl, ap, ◌∙◌, inl, inr, ℤ, pos, negsuc, false, [], ◌∷◌, ◌++◌, Bytes, bytes_eq,
  bytes_eq_iff, ltb, ◌==◌, arith, Bool-cases, if◌then◌else◌,
}
use booth_storage.Backend.{ListOptions}

abbrev pub default_list_limit : ℕ
default_list_limit = 200

abbrev pub max_list_limit : ℕ
max_list_limit = 1000

abbrev clamp_limit : ℤ → ℕ
clamp_limit (negsuc n) = default_list_limit
clamp_limit (pos n) =
    if n == 0 then default_list_limit else if ltb max_list_limit n then max_list_limit else n

-- `ListOptions.EffectiveLimit`
unfoldable pub effective_limit : ListOptions → ℕ
effective_limit o = clamp_limit o.limit

clamp_limit_bounds : (l : ℤ) → (1 ≤ clamp_limit l) × (clamp_limit l ≤ max_list_limit)
clamp_limit_bounds (negsuc n) = omega arith
clamp_limit_bounds (pos n) = ground arith

clamp_limit_kept : (n : ℕ) → 1 ≤ n → n ≤ max_list_limit → clamp_limit (pos n) ≡ n
clamp_limit_kept n lo hi = ground arith

-- The limit of a page lies in 1 to 1000, and a limit that lies there is taken as it is.
pub effective_limit_bounds :
    (o : ListOptions)
    → (1 ≤ effective_limit o)
      × (effective_limit o ≤ max_list_limit)
      × ((n : ℕ) → o.limit ≡ pos n → 1 ≤ n → n ≤ max_list_limit → effective_limit o ≡ n)
unfolding effective_limit
effective_limit_bounds o =
    let (low, high) = clamp_limit_bounds o.limit in
    (low, high, λ n e lo hi. rw e (clamp_limit_kept n lo hi))

-- `strings.Trim` for one byte: first the left end, then the right.
unfoldable pub trim_left : ℕ → Bytes → Bytes
trim_left c [] = []
trim_left c (a ∷ s) = let rest = trim_left c s in if a == c then rest else a ∷ s

unfoldable pub trim_right : ℕ → Bytes → Bytes
trim_right c [] = []
trim_right c (a ∷ s) =
    let rest = trim_right c s in
    if a == c then (if bytes_eq rest [] then [] else a ∷ rest) else a ∷ rest

unfoldable pub trim : ℕ → Bytes → Bytes
trim c s = trim_right c (trim_left c s)

abbrev pub quote : ℕ
quote = 34

unfoldable pub quote_etag : Bytes → Bytes
quote_etag raw =
    let bare = trim quote raw in if bytes_eq bare [] then [] else (quote ∷ []) ++ bare ++ quote ∷ []

-- The text does not begin with the byte.
abbrev Opens : ℕ → Bytes → Type 0
Opens c [] = Unit
Opens c (a ∷ s) = a ≢ c

trim_left-Opens : (c : ℕ) (s : Bytes) → Opens c (trim_left c s)
unfolding trim_left
trim_left-Opens c [] = tt
trim_left-Opens c (a ∷ s) = elim (Bool-cases (a == c)) [
  | inl same ↦ rw same (trim_left-Opens c s)
  | inr other ↦ rw other (ground arith)
]

trim_right-Opens : (c : ℕ) (s : Bytes) → Opens c s → Opens c (trim_right c s)
unfolding trim_right
trim_right-Opens c [] h = tt
trim_right-Opens c (a ∷ s) h = let other : (a == c) ≡ false = ground arith in rw other h

trim_left_own : (c : ℕ) (s : Bytes) → trim_left c (c ∷ s) ≡ trim_left c s
unfolding trim_left
trim_left_own c s = ground arith

trim_left-append : (c : ℕ) (s t : Bytes) → Opens c s → s ≢ [] → trim_left c (s ++ t) ≡ s ++ t
unfolding trim_left
trim_left-append c [] t h n = absurd (n refl)
trim_left-append c (a ∷ s) t h n = ground arith

trim_right-append : (c : ℕ) (s : Bytes) → trim_right c (s ++ c ∷ []) ≡ trim_right c s
unfolding trim_right
trim_right-append c [] = ground (arith, bytes_eq_iff [] [])
trim_right-append c (a ∷ s) = rw (trim_right-append c s)

trim_right_idem : (c : ℕ) (s : Bytes) → trim_right c (trim_right c s) ≡ trim_right c s
unfolding trim_right
trim_right_idem c [] = refl
trim_right_idem c (a ∷ s) = ground (arith, trim_right_idem c s, bytes_eq_iff (trim_right c s) [])

trim-nil : trim quote [] ≡ []
unfolding trim trim_left trim_right
trim-nil = refl

trim-quoted :
    (c : ℕ) (raw : Bytes) → trim c raw ≢ [] → trim c ((c ∷ []) ++ trim c raw ++ c ∷ []) ≡ trim c raw
unfolding trim
trim-quoted c raw n =
    let bare = trim_right c (trim_left c raw) in
    ap (trim_right c) (
      trim_left_own c (bare ++ c ∷ [])
      ∙ trim_left-append c bare (c ∷ []) (trim_right-Opens c _ (trim_left-Opens c raw)) n)
    ∙ trim_right-append c bare
    ∙ trim_right_idem c (trim_left c raw)

-- An entity tag that was quoted once stays as it is when it is quoted again.
pub quote_etag_idem : (raw : Bytes) → quote_etag (quote_etag raw) ≡ quote_etag raw
unfolding quote_etag
quote_etag_idem raw =
    ground (arith, bytes_eq_iff (trim quote raw) [], trim-quoted quote raw, trim-nil)
