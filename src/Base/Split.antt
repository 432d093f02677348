-- ===== src/Base/Split.antt =====
-- The laws of `split` and `join`: they are inverse to each other where no part holds the separator.
use Prim.Native.Nat.{ℕ}
use mathlib.Core.Path.{◌≡◌, refl}
use mathlib.Core.Logic.{◌≢◌, inl, inr}
use mathlib.Core.Bool.{true, false}
use mathlib.Core.List.{List, [], ◌∷◌, ◌++◌}
use native.Mathlib.Omega.{arith}
use booth_storage.Base.Tests.{◌==◌, Bool-cases}
use booth_storage.Base.Lists.{All}
use booth_storage.Base.Text.{Bytes, extend, split, join, ends_in, trim_suffix, Lacks}

pub split-ne-nil : (s : Bytes) (sep : ℕ) → split s sep ≢ []
unfolding split
split-ne-nil [] sep = cc
split-ne-nil (c ∷ s) sep = ground (arith, split-ne-nil s sep)

join-extend :
    (c : ℕ) (ps : List Bytes) (sep : ℕ) → ps ≢ [] → join (extend c ps) sep ≡ c ∷ join ps sep
unfolding join
join-extend c [] sep h = absurd (h refl)
join-extend c (p ∷ []) sep h = refl
join-extend c (p ∷ q ∷ ps) sep h = refl

join-nil-cons : (ps : List Bytes) (sep : ℕ) → ps ≢ [] → join ([] ∷ ps) sep ≡ sep ∷ join ps sep
unfolding join
join-nil-cons [] sep h = absurd (h refl)
join-nil-cons (p ∷ ps) sep h = refl

pub join-split : (s : Bytes) (sep : ℕ) → join (split s sep) sep ≡ s
unfolding split
join-split [] sep = unfold join in refl
join-split (c ∷ s) sep = ground (
  arith,
  join-split s sep,
  join-extend c (split s sep) sep (split-ne-nil s sep),
  join-nil-cons (split s sep) sep (split-ne-nil s sep),
)

extend-Lacks :
    (c : ℕ) (ps : List Bytes) (sep : ℕ)
    → c ≢ sep
    → All (Lacks sep) ps
    → All (Lacks sep) (extend c ps)
extend-Lacks c [] sep h _ = ((h, tt), tt)
extend-Lacks c (p ∷ ps) sep h (k, ks) = ((h, k), ks)

pub split-Lacks : (s : Bytes) (sep : ℕ) → All (Lacks sep) (split s sep)
unfolding split
split-Lacks [] sep = (tt, tt)
split-Lacks (c ∷ s) sep = elim (Bool-cases (c == sep)) [
  | inl same ↦ rw same (tt, split-Lacks s sep)
  | inr other ↦ rw other (extend-Lacks c (split s sep) sep (ground arith) (split-Lacks s sep))
]

split-part : (p : Bytes) (sep : ℕ) → Lacks sep p → split p sep ≡ p ∷ []
unfolding split
split-part [] sep _ = refl
split-part (c ∷ p) sep (h, k) = ground (arith, split-part p sep k)

split-append : (p s : Bytes) (sep : ℕ) → Lacks sep p → split (p ++ sep ∷ s) sep ≡ p ∷ split s sep
unfolding split
split-append [] s sep _ = ground arith
split-append (c ∷ p) s sep (h, k) = ground (arith, split-append p s sep k)

pub split-join :
    (ps : List Bytes) (sep : ℕ) → ps ≢ [] → All (Lacks sep) ps → split (join ps sep) sep ≡ ps
unfolding join
split-join [] sep h _ = absurd (h refl)
split-join (p ∷ []) sep h (k, _) = split-part p sep k
split-join (p ∷ q ∷ ps) sep h (k, ks) =
    rw (split-append p (join (q ∷ ps) sep) sep k) (rw (split-join (q ∷ ps) sep (cc) ks))

pub trim_suffix_absent : (s : Bytes) (c : ℕ) → ends_in s c ≡ false → trim_suffix s c ≡ s
unfolding ends_in trim_suffix
trim_suffix_absent [] c h = refl
trim_suffix_absent (a ∷ []) c h = ground arith
trim_suffix_absent (a ∷ b ∷ s) c h = ground (arith, trim_suffix_absent (b ∷ s) c)

pub trim_suffix_present : (s : Bytes) (c : ℕ) → ends_in s c ≡ true → trim_suffix s c ++ c ∷ [] ≡ s
unfolding ends_in trim_suffix
trim_suffix_present [] c h = cc
trim_suffix_present (a ∷ []) c h = ground arith
trim_suffix_present (a ∷ b ∷ s) c h = ground (arith, trim_suffix_present (b ∷ s) c)

pub ends_in-append : (s : Bytes) (c : ℕ) → ends_in (s ++ c ∷ []) c ≡ true
unfolding ends_in
ends_in-append [] c = ground arith
ends_in-append (a ∷ []) c = ground arith
ends_in-append (a ∷ b ∷ s) c = ends_in-append (b ∷ s) c

pub trim_suffix-append : (s : Bytes) (c : ℕ) → trim_suffix (s ++ c ∷ []) c ≡ s
unfolding trim_suffix
trim_suffix-append [] c = ground arith
trim_suffix-append (a ∷ []) c = ground arith
trim_suffix-append (a ∷ b ∷ s) c = rw (trim_suffix-append (b ∷ s) c)

pub ends_in-Lacks : (s : Bytes) (c : ℕ) → Lacks c s → ends_in s c ≡ false
unfolding ends_in
ends_in-Lacks [] c _ = refl
ends_in-Lacks (a ∷ []) c (h, _) = ground arith
ends_in-Lacks (a ∷ b ∷ s) c (_, k) = ends_in-Lacks (b ∷ s) c k

ends_in-append_cons :
    (p : Bytes) (sep : ℕ) (s : Bytes) → s ≢ [] → ends_in (p ++ sep ∷ s) sep ≡ ends_in s sep
unfolding ends_in
ends_in-append_cons p sep [] h = absurd (h refl)
ends_in-append_cons [] sep (a ∷ s) h = refl
ends_in-append_cons (a ∷ []) sep (b ∷ s) h = refl
ends_in-append_cons (a ∷ c ∷ p) sep (b ∷ s) h = ends_in-append_cons (c ∷ p) sep (b ∷ s) h

pub join-ne-nil : (ps : List Bytes) (sep : ℕ) → ps ≢ [] → All (λ p. p ≢ []) ps → join ps sep ≢ []
unfolding join
join-ne-nil [] sep h _ = absurd (h refl)
join-ne-nil (p ∷ []) sep h (k, _) = k
join-ne-nil ([] ∷ q ∷ ps) sep h k = cc
join-ne-nil ((c ∷ p) ∷ q ∷ ps) sep h k = cc

pub ends_in-join :
    (ps : List Bytes) (sep : ℕ)
    → All (λ p. p ≢ []) ps
    → All (Lacks sep) ps
    → ends_in (join ps sep) sep ≡ false
unfolding join
ends_in-join [] sep _ _ = unfold ends_in in refl
ends_in-join (p ∷ []) sep _ (k, _) = ends_in-Lacks p sep k
ends_in-join (p ∷ q ∷ ps) sep (_, h) (_, k) =
    rw (ends_in-append_cons p sep (join (q ∷ ps) sep) (join-ne-nil (q ∷ ps) sep (cc) h))
      (ends_in-join (q ∷ ps) sep h k)
