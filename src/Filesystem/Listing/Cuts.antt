-- ===== src/Filesystem/Listing/Cuts.antt =====
-- Pages as parts of a list of files, for `List` of internal/backend/filesystem/filesystem.go.
use booth_storage.Base.{
  ℕ, zero, suc, ◌+◌, ◌<◌, ◌≤◌, ◌≡◌, ◌≢◌, refl, sym, ap, ◌∙◌, true, false, List, [], ◌∷◌, ◌++◌,
  Bytes, join, append_assoc, length, length-append, take, ltb, arith,
}
use booth_storage.Backend.{ObjectInfo}
use booth_storage.Backend.Path.{slash}
use booth_storage.Filesystem.{info_for}
use booth_storage.Filesystem.Disk.Lookup.{File}
use booth_storage.Filesystem.Listing.{page, last_path}
use booth_storage.Filesystem.Listing.Sorted.{listed}
use booth_storage.Filesystem.Listing.Paths.{take-nil}

pub take_less {ℓ} : {A : Type ℓ} (n : ℕ) (xs : List A) → take n (take (suc n) xs) ≡ take n xs
take_less zero xs = refl
take_less (suc n) [] = refl
take_less (suc n) (x ∷ xs) = ap (λ l. x ∷ l) (take_less n xs)

pub take_short {ℓ} : {A : Type ℓ} (n : ℕ) (xs : List A) → length xs ≤ n → take n xs ≡ xs
take_short n [] h = take-nil n
take_short zero (x ∷ xs) h = absurd (omega arith)
take_short (suc n) (x ∷ xs) h = ap (λ l. x ∷ l) (take_short n xs (omega arith))

pub length-take_more {ℓ} :
    {A : Type ℓ} (n : ℕ) (xs : List A) → ltb n (length (take (suc n) xs)) ≡ ltb n (length xs)
length-take_more zero [] = refl
length-take_more zero (x ∷ xs) = ground arith
length-take_more (suc n) [] = refl
length-take_more (suc n) (x ∷ xs) = ground (arith, length-take_more n xs)

pub length-ne-zero {ℓ} : {A : Type ℓ} (xs : List A) → xs ≢ [] → length xs ≢ 0
length-ne-zero [] h = λ _. h refl
length-ne-zero (x ∷ xs) h = omega arith

-- A list that is longer than a positive number, cut behind that many elements.
pub cut_at {ℓ} :
    {A : Type ℓ} (n : ℕ) (xs : List A)
    → suc n < length xs
    → (front : List A) × (x : A) × (rest : List A) × (xs ≡ front ++ x ∷ rest) × (length front ≡ n)
cut_at n [] h = absurd (omega arith)
cut_at zero (x ∷ xs) h = ([], x, xs, refl, refl)
cut_at (suc n) (y ∷ xs) h =
    let (front, x, rest, same, long) = cut_at n xs (omega arith) in
    (y ∷ front, x, rest, ap (λ l. y ∷ l) same, omega (arith, long))

pub take-front {ℓ} : {A : Type ℓ} (xs ys : List A) → take (length xs) (xs ++ ys) ≡ xs
take-front [] ys = refl
take-front (x ∷ xs) ys = ap (λ l. x ∷ l) (take-front xs ys)

pub last_path-append : (xs : List ObjectInfo) (x : ObjectInfo) → last_path (xs ++ x ∷ []) ≡ x.path
unfolding last_path
last_path-append [] x = refl
last_path-append (y ∷ []) x = refl
last_path-append (y ∷ z ∷ xs) x = last_path-append (z ∷ xs) x

module _ (mime_type : Bytes → Bytes) where
  pub listed-append :
      (xs ys : List (List Bytes × File))
      → listed mime_type (xs ++ ys) ≡ listed mime_type xs ++ listed mime_type ys
  unfolding listed
  listed-append [] ys = refl
  listed-append ((at, (c, t)) ∷ xs) ys =
      ap (λ l. info_for mime_type (join at slash) c t ∷ l) (listed-append xs ys)

  pub length-listed : (xs : List (List Bytes × File)) → length (listed mime_type xs) ≡ length xs
  unfolding listed
  length-listed [] = refl
  length-listed ((at, (c, t)) ∷ xs) = omega (arith, length-listed xs)

  pub listed-last :
      (xs : List (List Bytes × File)) (x : List Bytes × File)
      → last_path (listed mime_type (xs ++ x ∷ [])) ≡ join x.0 slash
  unfolding listed info_for
  listed-last xs (at, (c, t)) =
      ap last_path (listed-append xs ((at, (c, t)) ∷ []))
      ∙ last_path-append (listed mime_type xs) (info_for mime_type (join at slash) c t)

  -- The page that holds all that is left.
  pub page_last :
      (limit : ℕ) (xs : List ObjectInfo)
      → ltb limit (length xs) ≡ false
      → page limit (take (suc limit) xs) ≡ record { entries = xs; next_cursor = [] }
  page_last limit xs h =
      rw (length-take_more limit xs, h, take_short (suc limit) xs (ground arith)) refl

  pub long_page :
      (front : List (List Bytes × File)) (x : List Bytes × File)
      → suc (length front) ≡ length (listed mime_type (front ++ x ∷ []))
  long_page front x = omega (arith, length-listed (front ++ x ∷ []), length-append front (x ∷ []))

  -- A page with more behind it.
  pub page_more :
      (front rest : List (List Bytes × File)) (x : List Bytes × File)
      → rest ≢ []
      → page
          (suc (length front))
          (take (suc (suc (length front))) (listed mime_type (front ++ x ∷ rest)))
        ≡ record { entries = listed mime_type (front ++ x ∷ []); next_cursor = join x.0 slash }
  page_more front rest x more =
      let limit : ℕ = suc (length front) in
      let all = listed mime_type (front ++ x ∷ rest) in
      let some_rest : length rest ≢ 0 = length-ne-zero rest more in
      let long : length all ≡ length front + suc (length rest) =
        length-listed (front ++ x ∷ rest) ∙ length-append front (x ∷ rest) in
      let further : ltb limit (length all) ≡ true = ground arith in
      let taken : take limit all ≡ listed mime_type (front ++ x ∷ []) =
        ap (λ n. take n all) (long_page front x)
        ∙ ap (take (length (listed mime_type (front ++ x ∷ [])))) (
            ap (listed mime_type) (sym (append_assoc front (x ∷ []) rest))
            ∙ listed-append (front ++ x ∷ []) rest)
        ∙ take-front (listed mime_type (front ++ x ∷ [])) (listed mime_type rest) in
      rw (length-take_more limit all, further, take_less limit all, taken, listed-last front x) refl
