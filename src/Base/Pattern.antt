-- ===== src/Base/Pattern.antt =====
-- The pieces of the program's regular expressions: workspace slugs, and a text of the form prefix,
-- slug, separator, rest.
use Prim.Native.Nat.{ℕ}
use mathlib.Core.Path.{◌≡◌, refl, sym, ◌∙◌}
use mathlib.Core.Logic.{◌↔◌, inl, inr}
use mathlib.Core.Bool.{Bool, true, false, not, ◌&&◌, ◌||◌, false≢true}
use mathlib.Core.Option.{Option, none, some}
use mathlib.Core.List.{[], ◌∷◌, ◌++◌}
use mathlib.Core.Option.{none-ne-some}
use native.Mathlib.Omega.{arith}
use booth_storage.Base.Tests.{◌==◌, leb, if◌then◌else◌, Option-cases}
use booth_storage.Base.Lists.{all}
use booth_storage.Base.Text.{
  Bytes, bytes_eq, cut_prefix, cut_prefix_iff, cut, cut_sound, cut_complete, Lacks,
}

-- `[a-z0-9]` and `[a-z0-9-]`
abbrev pub is_lower_digit : ℕ → Bool
is_lower_digit c = (leb b'a' c && leb c b'z') || (leb b'0' c && leb c b'9')

abbrev pub is_slug_byte : ℕ → Bool
is_slug_byte c = is_lower_digit c || c == b'-'

-- `^[a-z0-9-]+$`
unfoldable pub is_slug : Bytes → Bool
is_slug s = not (bytes_eq s []) && all is_slug_byte s

and-left : (a b : Bool) → (a && b) ≡ true → a ≡ true
and-left a b h = ground arith

pub all-Lacks : (p : ℕ → Bool) (c : ℕ) (s : Bytes) → p c ≡ false → all p s ≡ true → Lacks c s
all-Lacks p c [] h k = tt
all-Lacks p c (a ∷ s) h k =
    (λ e. false≢true (sym h ∙ (rw (← e) (and-left _ _ k))), all-Lacks p c s h (ground arith))

pub is_slug-Lacks : (c : ℕ) (s : Bytes) → is_slug_byte c ≡ false → is_slug s ≡ true → Lacks c s
unfolding is_slug
is_slug-Lacks c s h k = all-Lacks is_slug_byte c s h (ground arith)

-- `^prefix([a-z0-9-]+)sep(.*)$` for a separator that no slug holds.
unfoldable pub slug_then : Bytes → ℕ → Bytes → Option (Bytes × Bytes)
slug_then prefix sep s = elim (cut_prefix s prefix) [
  | none ↦ none
  | some rest ↦ elim (cut rest sep) [
    | none ↦ none
    | some (slug, last) ↦ if is_slug slug then some (slug, last) else none
  ]
]

slug_then_sound :
    (prefix : Bytes) (sep : ℕ) (s slug last : Bytes)
    → slug_then prefix sep s ≡ some (slug, last)
    → (s ≡ prefix ++ (slug ++ sep ∷ last)) × (is_slug slug ≡ true)
unfolding slug_then
slug_then_sound prefix sep s slug last h = elim (Option-cases (cut_prefix s prefix)) [
  | inl missing ↦ absurd (none-ne-some _ (rw (missing, slug_then) at h))
  | inr (rest, found) ↦ elim (Option-cases (cut rest sep)) [
    | inl missing ↦ absurd (none-ne-some _ (rw (found, missing, slug_then) at h))
    | inr ((a, b), parts) ↦
        let chosen : (if is_slug a then some (a, b) else none) ≡ some (slug, last) =
          rw (found, parts, slug_then) at h in
        ground
          (arith, chosen, (cut_prefix_iff s prefix rest).0 found, (cut_sound rest sep a b parts).0)
  ]
]

slug_then_complete :
    (prefix : Bytes) (sep : ℕ) (slug last : Bytes)
    → is_slug_byte sep ≡ false
    → is_slug slug ≡ true
    → slug_then prefix sep (prefix ++ (slug ++ sep ∷ last)) ≡ some (slug, last)
unfolding slug_then
slug_then_complete prefix sep slug last h k = rw (
  (cut_prefix_iff (prefix ++ (slug ++ sep ∷ last)) prefix (slug ++ sep ∷ last)).1 refl,
  cut_complete sep slug last (is_slug-Lacks sep slug h k),
  k,
  slug_then,
)

-- The texts that match are the prefix, a slug, the separator and the rest, and these are the parts.
pub slug_then_iff :
    (prefix : Bytes) (sep : ℕ) (s slug last : Bytes)
    → is_slug_byte sep ≡ false
    → (slug_then prefix sep s ≡ some (slug, last))
      ↔ ((s ≡ prefix ++ (slug ++ sep ∷ last)) × (is_slug slug ≡ true))
slug_then_iff prefix sep s slug last h = (
  slug_then_sound prefix sep s slug last,
  λ (e, k). rw e (slug_then_complete prefix sep slug last h k),
)
