-- ===== src/Filesystem/Objects/Reading.antt =====
-- `Read` and `ReadRange` of internal/backend/filesystem/filesystem.go: what they give.
use booth_storage.Base.{
  ℕ, zero, suc, ◌+◌, ◌-◌, ◌≤◌, ◌<◌, ◌≡◌, refl, sym, ap, ◌∙◌, inl, inr, false, some, List, [], ◌∷◌,
  ◌++◌, Bytes, bytes_eq, any, split, length, take, drop, Result, ok, err, arith,
}
use booth_storage.Backend.{BackendError, invalid_range, ObjectInfo, ByteRange, WriteOptions}
use booth_storage.Backend.Path.{slash, clean_path}
use booth_storage.Filesystem.{temp_prefix, Body, info_for, write}
use booth_storage.Filesystem.Disk.{Node}
use booth_storage.Filesystem.Disk.Lookup.{object, object-stat}
use booth_storage.Filesystem.Writing.{concat}
use booth_storage.Filesystem.Writing.Outcome.{write_atomic, shown_at}
use booth_storage.Filesystem.Objects.{read, range_of, read_range}

read-object :
    (mime_type : Bytes → Bytes) (p clean c : Bytes) (t : ℕ) (root : Node)
    → clean_path p ≡ ok clean
    → object root (split clean slash) ≡ some (c, t)
    → read mime_type p root ≡ ok (c, info_for mime_type clean c t)
unfolding read
read-object mime_type p clean c t root valid there =
    rw (valid, object-stat root (split clean slash) (c, t) there) refl

abbrev ok_info : ObjectInfo → Result BackendError ObjectInfo
ok_info i = ok i

ok_info-injective : {a b : ObjectInfo} → ok_info a ≡ ok_info b → a ≡ b
ok_info-injective h = cc

-- What a write to a valid path without the temporary name stored, if it succeeds, is what a read of the disk
-- behind it gives: the pieces of the body in their order, described as the write described them.
pub read-write :
    (mime_type : Bytes → Bytes) (opts : WriteOptions) (p clean suffix : Bytes) (time : ℕ)
    (body : Body) (root : Node) (info : ObjectInfo)
    → clean_path p ≡ ok clean
    → any (λ s. bytes_eq (temp_prefix ++ suffix) s) (split clean slash) ≡ false
    → (write mime_type opts p suffix time body root).0 ≡ ok info
    → read mime_type p (write mime_type opts p suffix time body root).1.now
      ≡ ok (concat body.pieces, info)
read-write mime_type opts p clean suffix time body root info valid hidden stored =
    elim (write_atomic mime_type opts p clean suffix time body root valid hidden) [
      | inr (e, failed, _) ↦ cc
      | inl (result, _, new, _, _) ↦
          read-object mime_type p clean (concat body.pieces) time
            (write mime_type opts p suffix time body root).1.now valid
            (shown_at root (temp_prefix ++ suffix) (split clean slash) (concat body.pieces) time
              (write mime_type opts p suffix time body root).1.now hidden new)
          ∙ ap (λ i. ok (concat body.pieces, i)) (ok_info-injective (sym result ∙ stored))
    ]

length-take {ℓ} : {A : Type ℓ} (n : ℕ) (xs : List A) → n ≤ length xs → length (take n xs) ≡ n
length-take zero xs h = refl
length-take (suc n) [] h = absurd (omega arith)
length-take (suc n) (x ∷ xs) h = omega (arith, length-take n xs)

length-drop {ℓ} : {A : Type ℓ} (n : ℕ) (xs : List A) → length (drop n xs) ≡ length xs - n
length-drop zero xs = omega arith
length-drop (suc n) [] = omega arith
length-drop (suc n) (x ∷ xs) = omega (arith, length-drop n xs)

-- A range of an object at a valid path: where it lies within the object, its bytes, as many as it spans, and otherwise
-- the error of a range.
pub read_range_lem :
    (mime_type : Bytes → Bytes) (p clean c : Bytes) (t : ℕ) (rg : ByteRange) (root : Node)
    → clean_path p ≡ ok clean
    → object root (split clean slash) ≡ some (c, t)
    → (rg.start ≤ rg.end
        → rg.end < length c
        → (read_range mime_type p rg root
            ≡ ok (take (rg.end - rg.start + 1) (drop rg.start c), info_for mime_type clean c t))
          × (length (take (rg.end - rg.start + 1) (drop rg.start c)) ≡ rg.end - rg.start + 1))
      × (rg.end < rg.start → read_range mime_type p rg root ≡ err invalid_range)
      × (length c ≤ rg.end → read_range mime_type p rg root ≡ err invalid_range)
unfolding read_range range_of
read_range_lem mime_type p clean c t rg root valid there =
    let found = object-stat root (split clean slash) (c, t) there in
    (
      λ order within. (
        rw (valid, found) (ground arith),
        length-take (rg.end - rg.start + 1) (drop rg.start c)
            (ground (arith, length-drop rg.start c)),
      ),
      λ order. rw (valid, found) (ground arith),
      λ beyond. rw (valid, found) (ground arith),
    )
