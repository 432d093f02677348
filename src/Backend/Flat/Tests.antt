-- ===== src/Backend/Flat/Tests.antt =====
-- Runs and instances of the theorems about folder operations, on the store in memory.
use booth_storage.Base.{
  ◌≡◌, ◌≢◌, refl, true, false, none, [], ◌∷◌, Bytes, codes, bytes_eq, has_prefix, trim_prefix,
  trim_suffix, split, cut_prefix, ends_in, ok, arith, if◌then◌else◌,
}
use booth_storage.Backend.Path.{check_each, check_segments, clean_prefix}
use booth_storage.Backend.Flat.{
  keys_from, keys_under, remove_each, delete_folder_flat, move_object_flat, copy_each, rollback,
  delete_each, copy_then_delete, move_folder_flat,
}
use booth_storage.Backend.Flat.Laws.{is_some}
use booth_storage.Backend.Flat.Delete.{count_objects, delete_folder_flat_done}
use booth_storage.Backend.Flat.Move.{move_object_flat_done}
use booth_storage.Backend.Flat.Memory.{
  Shelf, lookup, remove, under, shelf_list, shelf_copy, shelf_delete, shelf_exists, shelf,
  shelf_laws, next_fault, rest_faults, info,
}

flat : Unit {0}
unfolding keys_from keys_under remove_each delete_folder_flat move_object_flat copy_each rollback
    delete_each copy_then_delete move_folder_flat lookup remove under shelf_list shelf_copy
    shelf_delete shelf_exists next_fault rest_faults info bytes_eq has_prefix trim_prefix cut_prefix
    ends_in
flat = tt

paths_too : Unit {0}
unfolding clean_prefix check_segments check_each trim_suffix split bytes_eq
paths_too = tt

abbrev full : Shelf
full = record {
  objects = (codes "a/x", 1) ∷ (codes "a/", 0) ∷ (codes "a/y", 2) ∷ (codes "c", 3) ∷ [];
  copy_faults = [];
}

abbrev faulty : Shelf
faulty = record full { copy_faults = false ∷ true ∷ [] }

a_clean : clean_prefix (codes "a/") ≡ ok (codes "a/")
unfolding paths_too
a_clean = refl

deleted : (delete_folder_flat shelf 3 (codes "a/") full).1 ≡ none
unfolding flat
deleted = refl

delete_folder_flat_done_example :
    ((delete_folder_flat shelf 3 (codes "a/") full).0
      ≡ count_objects (shelf_laws.pending full (codes "a/") []))
    × ((k : Bytes)
        → lookup k (delete_folder_flat shelf 3 (codes "a/") full).2.objects
          ≡ (if has_prefix k (codes "a/") then none else lookup k full.objects))
delete_folder_flat_done_example =
    delete_folder_flat_done shelf shelf_laws 3 (codes "a/") full a_clean deleted

a_ne_d : codes "a/x" ≢ codes "d"
a_ne_d = ground arith

object_moved : (move_object_flat shelf (codes "a/x") (codes "d") full).0 ≡ ok tt
unfolding flat
object_moved = refl

move_object_flat_done_example :
    (is_some (lookup (codes "a/x") full.objects) ≡ true)
    × (lookup (codes "d") full.objects ≡ none)
    × (lookup (codes "d") (move_object_flat shelf (codes "a/x") (codes "d") full).1.objects ≡ (
        if bytes_eq (codes "a/x") (codes "d")
        then none
        else if bytes_eq (codes "d") (codes "d")
        then lookup (codes "a/x") full.objects
        else lookup (codes "d") full.objects))
move_object_flat_done_example =
    move_object_flat_done shelf shelf_laws (codes "a/x") (codes "d") full (codes "d") a_ne_d
      object_moved

abbrev moved_object : Shelf
moved_object = (move_object_flat shelf (codes "a/x") (codes "d") full).1
