-- ===== src/Filesystem/Abstract/Steps.antt =====
-- One command of internal/backend/filesystem/filesystem.go against the map of objects.
use booth_storage.Base.{
  ℕ, ◌≡◌, refl, sym, ap, ◌∙◌, subst, inl, inr, Bool, true, false, ◌||◌, none, List, [], ◌∷◌, ◌++◌,
  Bytes, bytes_eq, bytes_eq_iff, any, has_prefix, has_prefix-append, split, Bool-cases,
  Option-cases, Result, ok, err, Result-cases, arith, bytes_eq_refl,
}
use booth_storage.Backend.{BackendError, WriteOptions}
use booth_storage.Backend.Path.{slash, clean_path}
use booth_storage.Filesystem.{temp_prefix, Trail, Body, write}
use booth_storage.Filesystem.Disk.{Node, stat}
use booth_storage.Filesystem.Disk.Lookup.{object}
use booth_storage.Filesystem.Disk.Graft.{strip, grafted}
use booth_storage.Filesystem.Writing.Outcome.{write_atomic}
use booth_storage.Filesystem.Objects.{
  delete_object, move_object, first_disk, names_of, move, has_kind,
}
use booth_storage.Filesystem.Objects.Removal.{delete_object_lem, strip-append}
use booth_storage.Filesystem.Objects.Moves.{move_object_lem}
use booth_storage.Filesystem.Abstract.{
  Objects, Command, put_object, drop_object, move_one, effect, result_of, run, has_temp,
}
use booth_storage.Backend.Path.Rules.{clean_path_iff}

temp-has_temp :
    (suffix : Bytes) (path : List Bytes)
    → has_temp path ≡ false
    → any (λ s. bytes_eq (temp_prefix ++ suffix) s) path ≡ false
temp-has_temp suffix [] h = refl
temp-has_temp suffix (s ∷ path) h = elim (Bool-cases (bytes_eq (temp_prefix ++ suffix) s)) [
  | inl same ↦
      let front : has_prefix s temp_prefix ≡ true =
        subst (λ x. has_prefix x temp_prefix ≡ true)
          ((bytes_eq_iff (temp_prefix ++ suffix) s).0 same)
          (has_prefix-append temp_prefix suffix) in
      absurd (ground (arith, front, h))
  | inr other ↦ rw other (temp-has_temp suffix path (ground arith))
]

pub has_temp-append : (p q : List Bytes) → has_temp (p ++ q) ≡ has_temp p || has_temp q
has_temp-append [] q = refl
has_temp-append (s ∷ p) q = ground (arith, has_temp-append p q)

clean_path-same : (p c : Bytes) → clean_path p ≡ ok c → c ≡ p
clean_path-same p c h = ((clean_path_iff p c).0 h).0

-- The two show the same objects at the paths without a temporary name.
abbrev pub Agrees : Objects → Objects → Type 0
Agrees m m' = (q : List Bytes) → has_temp q ≡ false → m q ≡ m' q

-- The paths of a command have no temporary name.
unfoldable pub IsPlain : Command → Type 0
IsPlain (put_object opts p suffix time body) = has_temp (split p slash) ≡ false
IsPlain (drop_object p) = Unit
IsPlain (move_one from to) = has_temp (split from slash) ≡ false

abbrev pub outcome : Command → Bool → Objects → Objects
outcome c true m = effect c m
outcome c false m = m

module _ {A : Type 0} where
  result_of-ok :
      (x : Result BackendError A × Trail) (a : A) → x.0 ≡ ok a → result_of x ≡ (true, x.1.now)
  result_of-ok (ok b, d) a h = refl
  result_of-ok (err e, d) a h = cc

  result_of-err :
      (x : Result BackendError A × Trail) (e : BackendError)
      → x.0 ≡ err e
      → result_of x ≡ (false, x.1.now)
  result_of-err (ok b, d) e h = cc
  result_of-err (err f, d) e h = refl

write-bad :
    (mime_type : Bytes → Bytes) (opts : WriteOptions) (p suffix : Bytes) (time : ℕ) (body : Body)
    (root : Node) (e : BackendError)
    → clean_path p ≡ err e
    → write mime_type opts p suffix time body root ≡ (err e, first_disk root)
unfolding write
write-bad mime_type opts p suffix time body root e bad = rw (write, bad) refl

delete-bad :
    (p : Bytes) (root : Node) (e : BackendError)
    → clean_path p ≡ err e
    → delete_object p root ≡ (err e, first_disk root)
unfolding delete_object
delete-bad p root e bad = rw (delete_object, bad) refl

pub run-put :
    (mime_type : Bytes → Bytes) (opts : WriteOptions) (p suffix : Bytes) (time : ℕ) (body : Body)
    (root : Node)
    → has_temp (split p slash) ≡ false
    → Agrees (object (run mime_type (put_object opts p suffix time body) root).1) (
        outcome
          (put_object opts p suffix time body)
          (run mime_type (put_object opts p suffix time body) root).0
          (object root))
unfolding run effect
run-put mime_type opts p suffix time body root plain q seen = elim (Result-cases (clean_path p)) [
  | inr (e, bad) ↦ rw (write-bad mime_type opts p suffix time body root e bad) refl
  | inl (c, valid) ↦
      let valid' : clean_path p ≡ ok p =
        subst (λ x. clean_path p ≡ ok x) (clean_path-same p c valid) valid in
      elim (write_atomic mime_type opts p p suffix time body root valid'
        (temp-has_temp suffix (split p slash) plain)) [
          | inl (stored, _, new, _, _) ↦
              rw (result_of-ok (write mime_type opts p suffix time body root) _ stored)
                (new q (temp-has_temp suffix q seen))
          | inr (e, failed, same) ↦
              rw (result_of-err (write mime_type opts p suffix time body root) e failed)
                (same.0 q (temp-has_temp suffix q seen))
        ]
]

pub run-drop :
    (mime_type : Bytes → Bytes) (p : Bytes) (root : Node)
    → Agrees
        (object (run mime_type (drop_object p) root).1)
        (outcome (drop_object p) (run mime_type (drop_object p) root).0 (object root))
unfolding run effect
run-drop mime_type p root q seen = elim (Result-cases (clean_path p)) [
  | inr (e, bad) ↦ rw (delete-bad p root e bad) refl
  | inl (c, valid) ↦
      let valid' : clean_path p ≡ ok p =
        subst (λ x. clean_path p ≡ ok x) (clean_path-same p c valid) valid in
      elim (delete_object_lem p p root valid') [
        | inl (f, _, d, same, after) ↦ rw same (after q)
        | inr (_, same) ↦ rw same refl
      ]
]

move-bad_source :
    (from to : Bytes) (root : Node) (e : BackendError)
    → clean_path from ≡ err e
    → move_object from to root ≡ (err e, first_disk root)
unfolding move_object
move-bad_source from to root e bad = rw (move_object, bad) refl

move-bad_target :
    (from to f : Bytes) (root : Node) (e : BackendError)
    → clean_path from ≡ ok f
    → clean_path to ≡ err e
    → move_object from to root ≡ (err e, first_disk root)
unfolding move_object
move-bad_target from to f root e valid bad = rw (valid, move_object, bad) refl

move_self : (p : Bytes) (root : Node) → (result_of (move p p false root)).1 ≡ root
unfolding move
move_self p root = elim (Result-cases (stat root (names_of p))) [
  | inr (e, missing) ↦ rw (move, missing) refl
  | inl (n, at) ↦ elim (Bool-cases (has_kind false n)) [
    | inl kind ↦ rw (move, at, kind, bytes_eq_refl p) refl
    | inr other ↦ rw (move, at, other) refl
  ]
]

-- A move of an object to its own path changes nothing.
move-same :
    (p : Bytes) (root : Node) → clean_path p ≡ ok p → (result_of (move_object p p root)).1 ≡ root
unfolding move_object
move-same p root valid =
    let same : move_object p p root ≡ move p p false root = rw (valid, move_object, valid) refl in
    ap (λ x. (result_of x).1) same ∙ move_self p root

grafted-same :
    (m : Objects) (p q : List Bytes)
    → grafted (λ r. m (p ++ r)) (grafted (λ r. none) (m q) (strip p q)) (strip p q) ≡ m q
unfolding grafted
grafted-same m p q = elim (Option-cases (strip p q)) [
  | inl out ↦ rw out refl
  | inr (r, below) ↦ rw below (ap m (sym (strip-append p q r below)))
]

unmoved : (p : Bytes) (b : Bool) (m : Objects) (q : List Bytes) → outcome (move_one p p) b m q ≡ m q
unfolding effect
unmoved p true m q = grafted-same m (split p slash) q
unmoved p false m q = refl

pub run-move :
    (mime_type : Bytes → Bytes) (from to : Bytes) (root : Node)
    → Agrees
        (object (run mime_type (move_one from to) root).1)
        (outcome (move_one from to) (run mime_type (move_one from to) root).0 (object root))
unfolding run effect
run-move mime_type from to root q seen = elim (Result-cases (clean_path from)) [
  | inr (e, bad) ↦ rw (move-bad_source from to root e bad) refl
  | inl (f, valid) ↦ elim (Result-cases (clean_path to)) [
    | inr (e, bad) ↦ rw (move-bad_target from to f root e valid bad) refl
    | inl (t, valid') ↦
        let own : clean_path from ≡ ok from =
          subst (λ x. clean_path from ≡ ok x) (clean_path-same from f valid) valid in
        let own' : clean_path to ≡ ok to =
          subst (λ x. clean_path to ≡ ok x) (clean_path-same to t valid') valid' in
        elim (Bool-cases (bytes_eq from to)) [
          | inl same ↦
              subst
                (λ t.
                  object (result_of (move_object from t root)).1 q
                  ≡ outcome (move_one from t) (result_of (move_object from t root)).0 (object root)
                      q)
                ((bytes_eq_iff from to).0 same)
                (ap (λ n. object n q) (move-same from root own)
                  ∙ sym (unmoved from (result_of (move_object from from root)).0 (object root) q))
          | inr apart ↦ elim (move_object_lem from to from to root own own' apart) [
            | inr (e, refused, _) ↦ rw refused refl
            | inl (_, _, _, _, moves, _) ↦ elim moves [
              | inl (good, moved, _) ↦
                  rw (result_of-ok (move_object from to root) tt good) (moved q)
              | inr (e, failed, passed) ↦
                  rw (result_of-err (move_object from to root) e failed) (passed.0 q)
            ]
          ]
        ]
  ]
]
