-- ===== src/Base/Assoc.antt =====
-- A Go map with string keys, the list of its entries, one for each key; and the order of strings.
use mathlib.Core.Path.{◌≡◌, refl}
use mathlib.Core.Logic.{inl, inr}
use mathlib.Core.Bool.{Bool, true, false, ◌||◌, ◌&&◌}
use mathlib.Core.Option.{Option, none, some}
use mathlib.Core.List.{List, [], ◌∷◌}
use native.Mathlib.Omega.{arith}
use booth_storage.Base.{Bytes, bytes_eq, bytes_eq_iff, ltb, ◌==◌, Bool-cases, if◌then◌else◌}

abbrev pub Assoc {ℓ} : Type ℓ → Type ℓ
Assoc A = List (Bytes × A)

-- The order of Go's strings, byte by byte.
unfoldable pub bytes_lt : Bytes → Bytes → Bool
bytes_lt s [] = false
bytes_lt [] (b ∷ t) = true
bytes_lt (a ∷ s) (b ∷ t) = ltb a b || (a == b && bytes_lt s t)

pub bytes_lt_irrefl : (a : Bytes) → bytes_lt a a ≡ false
unfolding bytes_lt
bytes_lt_irrefl [] = refl
bytes_lt_irrefl (x ∷ a) = ground (arith, bytes_lt_irrefl a)

pub bytes_lt_trans :
    (a b c : Bytes) → bytes_lt a b ≡ true → bytes_lt b c ≡ true → bytes_lt a c ≡ true
unfolding bytes_lt
bytes_lt_trans [] b [] h k = cc
bytes_lt_trans [] b (z ∷ c) h k = refl
bytes_lt_trans (x ∷ a) [] c h k = cc
bytes_lt_trans (x ∷ a) (y ∷ b) [] h k = cc
bytes_lt_trans (x ∷ a) (y ∷ b) (z ∷ c) h k = ground (arith, bytes_lt_trans a b c)

pub bytes_lt_total : (a b : Bytes) → bytes_lt a b ≡ false → bytes_lt b a ≡ false → a ≡ b
unfolding bytes_lt
bytes_lt_total [] [] h k = refl
bytes_lt_total [] (y ∷ b) h k = cc
bytes_lt_total (x ∷ a) [] h k = cc
bytes_lt_total (x ∷ a) (y ∷ b) h k = ground (arith, bytes_lt_total a b)

pub bytes_lt_asym : (a b : Bytes) → bytes_lt a b ≡ true → bytes_lt b a ≡ false
bytes_lt_asym a b h = elim (Bool-cases (bytes_lt b a)) [
  | inr no_more ↦ no_more
  | inl back ↦
      let loop : bytes_lt a a ≡ true = bytes_lt_trans a b a h back in
      let never = bytes_lt_irrefl a in cc
]

module _ {ℓ} {A : Type ℓ} where
  unfoldable pub find : Bytes → Assoc A → Option A
  find k [] = none
  find k ((name, value) ∷ m) = if bytes_eq name k then some value else find k m

  unfoldable pub remove : Bytes → Assoc A → Assoc A
  remove k [] = []
  remove k ((name, value) ∷ m) =
      let rest = remove k m in if bytes_eq name k then rest else (name, value) ∷ rest

  abbrev pub put : Bytes → A → Assoc A → Assoc A
  put k value m = (k, value) ∷ remove k m

  -- What a removal leaves.
  pub find-remove :
      (k k' : Bytes) (m : Assoc A)
      → find k' (remove k m) ≡ (if bytes_eq k k' then none else find k' m)
  unfolding find remove
  find-remove k k' [] = ground arith
  find-remove k k' ((name, value) ∷ m) =
      ground
        (arith, find-remove k k' m, bytes_eq_iff name k, bytes_eq_iff name k', bytes_eq_iff k k')

  pub find-put :
      (k k' : Bytes) (value : A) (m : Assoc A)
      → find k' (put k value m) ≡ (if bytes_eq k k' then some value else find k' m)
  unfolding find
  find-put k k' value m = ground (arith, find-remove k k' m)
