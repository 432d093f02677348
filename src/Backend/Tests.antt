-- ===== src/Backend/Tests.antt =====
-- Runs and instances of the theorems about paths, options and flat stores.
use booth_storage.Base.{
  ◌≡◌, ◌↔◌, refl, [], ◌∷◌, ◌++◌, codes, bytes_eq, split, trim_suffix, ends_in, ok, err, arith,
}
use booth_storage.Backend.{
  invalid_path, path_empty, empty_segment, dot_segment, trailing_slash, folder_required,
}
use booth_storage.Backend.Path.{
  slash, check_each, check_segments, clean_path, clean_prefix, clean_folder,
}
use booth_storage.Backend.Path.Rules.{IsClean, clean_path_iff}
use booth_storage.Backend.Path.Prefix.{clean_prefix_double}

paths : Unit {0}
unfolding clean_path clean_prefix clean_folder check_segments check_each bytes_eq split trim_suffix
    ends_in
paths = tt

path_tests :
    (clean_path (codes "a/b.csv") ≡ ok (codes "a/b.csv"))
    × (clean_path [] ≡ err (invalid_path path_empty))
    × (clean_path (codes "/a") ≡ err (invalid_path empty_segment))
    × (clean_path (codes "a/../b") ≡ err (invalid_path dot_segment))
    × (clean_path (codes "a/") ≡ err (invalid_path trailing_slash))
    × (clean_prefix (codes "a/b") ≡ ok (codes "a/b/"))
    × (clean_prefix (codes "/") ≡ ok [])
    × (clean_prefix (codes "a//") ≡ ok (codes "a//"))
    × (clean_folder (codes "/") ≡ err (invalid_path folder_required))
unfolding paths
path_tests = (refl, refl, refl, refl, refl, refl, refl, refl, refl)

clean_path_iff_example :
    (clean_path (codes "a/b") ≡ ok (codes "a/b"))
    ↔ ((codes "a/b" ≡ codes "a/b") × IsClean (codes "a/b"))
clean_path_iff_example = clean_path_iff (codes "a/b") (codes "a/b")

report_IsClean : IsClean (codes "in/report")
unfolding paths
report_IsClean = ((clean_path_iff (codes "in/report") (codes "in/report")).0 refl).1

clean_prefix_double_example :
    clean_prefix (codes "in/report" ++ slash ∷ slash ∷ []) ≡ ok (codes "in/report//")
clean_prefix_double_example = clean_prefix_double (codes "in/report") report_IsClean (omega arith)
