-- ===== src/Filesystem/Abstract/Refines.antt =====
-- The disk of internal/backend/filesystem/filesystem.go against the map of its objects.
use booth_storage.Base.{
  ◌≡◌, refl, sym, ap, ◌∙◌, inl, inr, Bool, true, false, ◌||◌, none, some, List, [], ◌∷◌, ◌++◌,
  Bytes, split, Option-cases, arith, if◌then◌else◌, All,
}
use booth_storage.Backend.Path.{slash}
use booth_storage.Filesystem.Disk.{Node}
use booth_storage.Filesystem.Disk.Lookup.{object}
use booth_storage.Filesystem.Disk.Change.{path_eq}
use booth_storage.Filesystem.Disk.Graft.{strip, grafted}
use booth_storage.Filesystem.Writing.{concat}
use booth_storage.Filesystem.Objects.Removal.{strip-append}
use booth_storage.Filesystem.Abstract.{
  Objects, Command, put_object, drop_object, move_one, effect, run, run_all, effects, has_temp,
}
use booth_storage.Filesystem.Abstract.Steps.{
  Agrees, IsPlain, outcome, run-put, run-drop, run-move, has_temp-append,
}

run-Agrees :
    (mime_type : Bytes → Bytes) (c : Command) (root : Node)
    → IsPlain c
    → Agrees (object (run mime_type c root).1) (outcome c (run mime_type c root).0 (object root))
unfolding IsPlain
run-Agrees mime_type (put_object opts p suffix time body) root plain =
    run-put mime_type opts p suffix time body root plain
run-Agrees mime_type (drop_object p) root plain = run-drop mime_type p root
run-Agrees mime_type (move_one from to) root plain = run-move mime_type from to root

-- What a path shows behind a command depends on such paths only.
effect-Agrees :
    (c : Command) (m m' : Objects) → IsPlain c → Agrees m m' → Agrees (effect c m) (effect c m')
unfolding effect IsPlain grafted
effect-Agrees (put_object opts p suffix time body) m m' plain same q seen =
    ap (λ o. if path_eq (split p slash) q then some (concat body.pieces, time) else o) (same q seen)
effect-Agrees (drop_object p) m m' plain same q seen =
    ap (λ o. if path_eq (split p slash) q then none else o) (same q seen)
effect-Agrees (move_one from to) m m' plain same q seen =
    elim (Option-cases (strip (split to slash) q)) [
      | inl out ↦
          rw out (ap (λ o. grafted (λ r. none) o (strip (split from slash) q)) (same q seen))
      | inr (r, below) ↦
          let apart : has_temp (split to slash) || has_temp r ≡ false =
            sym (has_temp-append (split to slash) r)
            ∙ ap has_temp (sym (strip-append (split to slash) q r below))
            ∙ seen in
          rw below (
            same (split from slash ++ r)
              (has_temp-append (split from slash) r ∙ ground (arith, plain, apart)))
    ]

effects-Agrees :
    (cs : List Command) (goods : List Bool) (m m' : Objects)
    → All IsPlain cs
    → Agrees m m'
    → Agrees (effects cs goods m) (effects cs goods m')
unfolding effects
effects-Agrees [] goods m m' _ same = same
effects-Agrees (c ∷ cs) [] m m' _ same = same
effects-Agrees (c ∷ cs) (true ∷ goods) m m' (plain, plains) same =
    effects-Agrees cs goods (effect c m) (effect c m') plains (effect-Agrees c m m' plain same)
effects-Agrees (c ∷ cs) (false ∷ goods) m m' (_, plains) same =
    effects-Agrees cs goods m m' plains same

effects-cons :
    (c : Command) (cs : List Command) (b : Bool) (goods : List Bool) (m : Objects)
    → effects (c ∷ cs) (b ∷ goods) m ≡ effects cs goods (outcome c b m)
unfolding effects
effects-cons c cs true goods m = refl
effects-cons c cs false goods m = refl

-- Writes, deletions and moves of objects on the disk do to what its paths show what the commands that
-- succeed do to a plain map from paths to files, and a command that fails does nothing. The paths, the
-- written ones and the sources of moves among them, are those without a temporary name.
pub run_all-Agrees :
    (mime_type : Bytes → Bytes) (cs : List Command) (root : Node)
    → All IsPlain cs
    → Agrees
        (object (run_all mime_type cs root).1)
        (effects cs (run_all mime_type cs root).0 (object root))
unfolding run_all
run_all-Agrees mime_type [] root _ q seen = unfold effects in refl
run_all-Agrees mime_type (c ∷ cs) root (plain, plains) q seen =
    let (good, next) = run mime_type c root in
    let goods = (run_all mime_type cs next).0 in
    run_all-Agrees mime_type cs next plains q seen
    ∙ effects-Agrees cs goods (object next) (outcome c good (object root)) plains
        (run-Agrees mime_type c root plain) q seen
    ∙ ap (λ m. m q) (sym (effects-cons c cs good goods (object root)))
