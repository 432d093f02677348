-- ===== src/Base/Text.antt =====
-- Go strings as byte sequences, and the operations of package strings that the program calls.
use Prim.Native.Nat.{ℕ, ◌+◌}
use Prim.Native.Char.{code}
use Prim.Native.String.{String}
use mathlib.Core.Path.{◌≡◌, refl, sym}
use mathlib.Core.Logic.{◌↔◌, ◌≢◌, inl, inr}
use mathlib.Core.Bool.{Bool, true, false, ◌&&◌, ◌||◌}
use mathlib.Core.Option.{Option, none, some}
use mathlib.Core.List.{List, [], ◌∷◌, ◌++◌}
use native.Mathlib.Omega.{arith}
use booth_storage.Base.Tests.{◌==◌, leb, if◌then◌else◌, Option-cases}
use booth_storage.Base.Lists.{All}

abbrev pub Bytes : Type 0
Bytes = List ℕ

-- The bytes of an ASCII literal.
abbrev pub codes : String → Bytes
codes String.[] = []
codes (String.◌∷◌ c s) = code c ∷ codes s

unfoldable pub bytes_eq : Bytes → Bytes → Bool
bytes_eq [] [] = true
bytes_eq [] (_ ∷ _) = false
bytes_eq (_ ∷ _) [] = false
bytes_eq (a ∷ s) (b ∷ t) = a == b && bytes_eq s t

pub bytes_eq_iff : (s t : Bytes) → (bytes_eq s t ≡ true) ↔ (s ≡ t)
unfolding bytes_eq
bytes_eq_iff [] [] = (λ _. refl, λ _. refl)
bytes_eq_iff [] (b ∷ t) = ground arith
bytes_eq_iff (a ∷ s) [] = ground arith
bytes_eq_iff (a ∷ s) (b ∷ t) = ground (arith, bytes_eq_iff s t)

pub bytes_eq_refl : (s : Bytes) → bytes_eq s s ≡ true
bytes_eq_refl s = (bytes_eq_iff s s).1 refl

-- `strings.CutPrefix(s, prefix)`, the rest only where the prefix is there.
unfoldable pub cut_prefix : Bytes → Bytes → Option Bytes
cut_prefix s [] = some s
cut_prefix [] (_ ∷ _) = none
cut_prefix (a ∷ s) (b ∷ t) = if a == b then cut_prefix s t else none

pub cut_prefix_iff : (s t r : Bytes) → (cut_prefix s t ≡ some r) ↔ (s ≡ t ++ r)
unfolding cut_prefix
cut_prefix_iff s [] r = ground arith
cut_prefix_iff [] (b ∷ t) r = ground arith
cut_prefix_iff (a ∷ s) (b ∷ t) r = ground (arith, cut_prefix_iff s t r)

-- `strings.HasPrefix(s, prefix)`
unfoldable pub has_prefix : Bytes → Bytes → Bool
has_prefix s [] = true
has_prefix [] (_ ∷ _) = false
has_prefix (a ∷ s) (b ∷ t) = a == b && has_prefix s t

pub has_prefix-append : (t r : Bytes) → has_prefix (t ++ r) t ≡ true
unfolding has_prefix
has_prefix-append [] r = refl
has_prefix-append (b ∷ t) r = ground (arith, has_prefix-append t r)

-- `strings.TrimPrefix(s, prefix)`
unfoldable pub trim_prefix : Bytes → Bytes → Bytes
trim_prefix s t = elim (cut_prefix s t) [ none ↦ s | some r ↦ r ]

has_prefix-ne-none : (s t : Bytes) → has_prefix s t ≡ true → cut_prefix s t ≢ none
unfolding has_prefix cut_prefix
has_prefix-ne-none s [] h = ground arith
has_prefix-ne-none [] (b ∷ t) h = ground arith
has_prefix-ne-none (a ∷ s) (b ∷ t) h = ground (arith, has_prefix-ne-none s t)

pub append-trim_prefix : (s t : Bytes) → has_prefix s t ≡ true → t ++ trim_prefix s t ≡ s
unfolding trim_prefix
append-trim_prefix s t h = elim (Option-cases (cut_prefix s t)) [
  | inl missing ↦ absurd (has_prefix-ne-none s t h missing)
  | inr (r, found) ↦ rw (found, trim_prefix) (sym ((cut_prefix_iff s t r).0 found))
]

-- `strings.HasSuffix(s, c)` for a suffix of one byte.
unfoldable pub ends_in : Bytes → ℕ → Bool
ends_in [] c = false
ends_in (a ∷ []) c = a == c
ends_in (_ ∷ b ∷ s) c = ends_in (b ∷ s) c

-- `strings.TrimSuffix(s, c)` for a suffix of one byte.
unfoldable pub trim_suffix : Bytes → ℕ → Bytes
trim_suffix [] c = []
trim_suffix (a ∷ []) c = if a == c then [] else a ∷ []
trim_suffix (a ∷ b ∷ s) c = a ∷ trim_suffix (b ∷ s) c

-- `strings.Split(s, sep)` for a separator of one byte.
abbrev pub extend : ℕ → List Bytes → List Bytes
extend c [] = (c ∷ []) ∷ []
extend c (p ∷ ps) = (c ∷ p) ∷ ps

unfoldable pub split : Bytes → ℕ → List Bytes
split [] sep = [] ∷ []
split (c ∷ s) sep = let rest = split s sep in if c == sep then [] ∷ rest else extend c rest

-- `strings.Join(parts, sep)` for a separator of one byte.
unfoldable pub join : List Bytes → ℕ → Bytes
join [] sep = []
join (p ∷ []) sep = p
join (p ∷ q ∷ ps) sep = p ++ sep ∷ join (q ∷ ps) sep

abbrev pub Lacks : ℕ → Bytes → Type 0
Lacks b = All (λ c. c ≢ b)

unfoldable pub contains : List Bytes → Bytes → Bool
contains [] k = false
contains (x ∷ xs) k = bytes_eq x k || contains xs k

-- `strings.Cut(s, sep)` for a separator of one byte: the text before it and the text behind it.
unfoldable pub cut : Bytes → ℕ → Option (Bytes × Bytes)
cut [] c = none
cut (a ∷ s) c = elim (a == c) [
  | true ↦ some ([], s)
  | false ↦ elim (cut s c) [ none ↦ none | some (l, r) ↦ some (a ∷ l, r) ]
]

pub cut_sound :
    (s : Bytes) (c : ℕ) (l r : Bytes) → cut s c ≡ some (l, r) → (s ≡ l ++ c ∷ r) × Lacks c l
unfolding cut
cut_sound [] c l r h = cc
cut_sound (a ∷ s) c [] r h = ground arith
cut_sound (a ∷ s) c (b ∷ l) r h = ground (arith, cut_sound s c l r)

pub cut_complete : (c : ℕ) (l r : Bytes) → Lacks c l → cut (l ++ c ∷ r) c ≡ some (l, r)
unfolding cut
cut_complete c [] r _ = ground arith
cut_complete c (a ∷ l) r (h, k) = ground (arith, cut_complete c l r k)

-- ASCII white space, and `strings.TrimSpace` on text whose white space is ASCII.
abbrev pub is_space : ℕ → Bool
is_space c = c == b' ' || (leb 9 c && leb c 13)

unfoldable pub drop_space : Bytes → Bytes
drop_space [] = []
drop_space (a ∷ s) = let rest = drop_space s in if is_space a then rest else a ∷ s

unfoldable pub drop_space_end : Bytes → Bytes
drop_space_end [] = []
drop_space_end (a ∷ s) =
    let rest = drop_space_end s in
    if is_space a then (if bytes_eq rest [] then [] else a ∷ rest) else a ∷ rest

unfoldable pub trim_space : Bytes → Bytes
unfolding drop_space drop_space_end bytes_eq
trim_space s = drop_space_end (drop_space s)

-- `strings.ToLower` on ASCII text.
abbrev pub to_lower_byte : ℕ → ℕ
to_lower_byte c = if leb b'A' c && leb c b'Z' then c + 32 else c

abbrev pub to_lower : Bytes → Bytes
to_lower [] = []
to_lower (c ∷ s) = to_lower_byte c ∷ to_lower s

-- `strings.HasSuffix(s, suffix)`
unfoldable pub has_suffix : Bytes → Bytes → Bool
has_suffix [] t = bytes_eq [] t
has_suffix (a ∷ s) t = bytes_eq (a ∷ s) t || has_suffix s t

-- The text behind the last byte `c`, found as `strings.LastIndexByte` does.
unfoldable pub after_last : Bytes → ℕ → Option Bytes
after_last [] c = none
after_last (a ∷ s) c = elim (after_last s c) [
  | some r ↦ some r
  | none ↦ if a == c then some s else none
]
