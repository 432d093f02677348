-- ===== src/Filesystem/Tests.antt =====
-- Concrete runs of the filesystem backend.
use booth_storage.Base.{
  ℕ, ◌≡◌, refl, Bool, true, false, none, some, [], ◌∷◌, ◌++◌, Bytes, codes, bytes_eq, any, split,
  trim_suffix, ends_in, take, has_prefix, pos, ok, err, ◌⊎◌, suc, ◌==◌, Lacks, arith, ◌+◌, ◌-◌, ◌≤◌,
  ◌<◌, drop, length, List,
}
use booth_storage.Base.Assoc.{bytes_lt}
use booth_storage.Backend.{ListOptions, WriteOptions, not_found, ByteRange, invalid_range}
use booth_storage.Backend.Path.{slash, clean_path, clean_prefix, check_segments, check_each}
use booth_storage.Backend.Options.{effective_limit}
use booth_storage.Filesystem.{
  temp_prefix, Body, write, leaf, Trail, info_for, write_at, write_below, write_temp, fill,
  mkdir_all, parents, link_in,
}
use booth_storage.Filesystem.Disk.{
  Node, file, folder, Entries, vacant, entry, stat, alter, add_new, find_entry, assign, refill,
  drop_entry, erase,
}
use booth_storage.Filesystem.Disk.Lookup.{object, File}
use booth_storage.Filesystem.Disk.Tidy.{IsTidy, IsTidyIn, IsAbove}
use booth_storage.Filesystem.Writing.{concat}
use booth_storage.Filesystem.Writing.Outcome.{Wrote, write_atomic}
use booth_storage.Filesystem.Objects.{delete_object, move_object, first_disk, read, read_range}
use booth_storage.Filesystem.Objects.Moves.{Relocates, move_object_lem}
use booth_storage.Filesystem.Listing.{list, page, start_of}
use booth_storage.Filesystem.Listing.Walk.{files, infos}
use booth_storage.Filesystem.Listing.Readable.{IsReadable, IsReadableIn}
use booth_storage.Filesystem.Listing.Sorted.{listed}
use booth_storage.Filesystem.Listing.Pages.{with_cursor, gather, list_page, gather_all}
use booth_storage.Filesystem.Objects.Removal.{Deleted, delete_object_lem}
use booth_storage.Filesystem.Objects.Reading.{read-write, read_range_lem}
use booth_storage.Filesystem.Abstract.{Command, put_object, drop_object, move_one, run_all, effects}
use booth_storage.Filesystem.Abstract.Refines.{run_all-Agrees}
use booth_storage.Filesystem.Abstract.Steps.{Agrees, IsPlain}

abbrev no_type : Bytes → Bytes
no_type p = []

any_text : Bytes → Bool
any_text p = true

-- "a", "d/b" and a temporary file.
abbrev inner_es : Entries
inner_es = entry (codes "b") (file (codes "yy") 2) vacant

abbrev rest_es : Entries
rest_es = entry (codes "a") (file (codes "x") 1) (entry (codes "d") (folder inner_es) vacant)

abbrev small_root : Node
small_root = folder (entry (codes ".booth-tmp-1") (file [] 3) rest_es)

abbrev two_pieces : Body
two_pieces = record { pieces = codes "hel" ∷ codes "lo" ∷ []; broken = false }

abbrev only_new : WriteOptions
only_new = record { content_type = []; create_only = true }

write_atomic_example :
    Wrote no_type
      (codes "e/f")
      (temp_prefix ++ codes "00")
      9
      (concat two_pieces.pieces)
      small_root
      true
      false
      (write no_type only_new (codes "e/f") (codes "00") 9 two_pieces small_root).0
      (write no_type only_new (codes "e/f") (codes "00") 9 two_pieces small_root).1
unfolding clean_path check_segments check_each split trim_suffix ends_in bytes_eq
write_atomic_example =
    write_atomic no_type only_new (codes "e/f") (codes "e/f") (codes "00") 9 two_pieces small_root
      refl refl

move_object_lem_example :
    Relocates false
      (split (codes "a") slash)
      (split (codes "d/c") slash)
      (parents (split (codes "d/c") slash))
      small_root
      (move_object (codes "a") (codes "d/c") small_root)
unfolding clean_path check_segments check_each split trim_suffix ends_in bytes_eq
move_object_lem_example =
    move_object_lem (codes "a") (codes "d/c") (codes "a") (codes "d/c") small_root refl refl refl

all_files : ListOptions
all_files = record {
  prefix = [];
  recursive = true;
  limit = pos 1;
  cursor = [];
  include_folder_markers = false;
}

delete_object_lem_example :
    ((f : File) × (object small_root (split (codes "a") slash) ≡ some f)
      × (d : Trail) × (delete_object (codes "a") small_root ≡ (ok tt, d))
      × Deleted (split (codes "a") slash) small_root d.now)
    ⊎ ((object small_root (split (codes "a") slash) ≡ none)
        × (delete_object (codes "a") small_root ≡ (err not_found, first_disk small_root)))
unfolding clean_path check_segments check_each split trim_suffix ends_in bytes_eq
delete_object_lem_example = delete_object_lem (codes "a") (codes "a") small_root refl

Lacks-any : (c : ℕ) (s : Bytes) → any (λ b. b == c) s ≡ false → Lacks c s
Lacks-any c [] h = tt
Lacks-any c (b ∷ s) h = (ground arith, Lacks-any c s (ground arith))

small_root-IsTidy : IsTidy small_root
unfolding IsTidy IsTidyIn IsAbove bytes_lt
small_root-IsTidy = (
  (λ e. cc, Lacks-any slash (codes ".booth-tmp-1") refl),
  tt,
  (refl, (refl, tt)),
  (
    (λ e. cc, Lacks-any slash (codes "a") refl),
    tt,
    (refl, tt),
    (
      (λ e. cc, Lacks-any slash (codes "d") refl),
      ((λ e. cc, Lacks-any slash (codes "b") refl), tt, tt, tt),
      tt,
      tt,
    ),
  ),
)

small_root-IsReadable : IsReadable any_text [] small_root
unfolding IsReadable IsReadableIn has_prefix any_text
small_root-IsReadable = (refl, (λ h. tt, (λ h. tt, (λ h. (refl, (λ h. tt, tt)), tt))))

list_page_example :
    list any_text no_type (with_cursor (codes "a") all_files) small_root
    ≡ ok (
        page (effective_limit all_files) (
          take
            (suc (effective_limit all_files))
            (infos no_type (codes "a") (files (start_of []) small_root))))
unfolding clean_prefix trim_suffix ends_in bytes_eq has_prefix leaf stat all_files
list_page_example =
    list_page any_text no_type all_files small_root []
      (entry (codes ".booth-tmp-1") (file [] 3) rest_es) (codes "a") small_root-IsTidy refl refl
      refl small_root-IsReadable refl refl

gather_all_example :
    gather any_text no_type all_files small_root 3 []
    ≡ listed no_type (files (start_of []) small_root)
unfolding clean_prefix trim_suffix ends_in bytes_eq has_prefix leaf stat files all_files
gather_all_example =
    gather_all any_text no_type all_files small_root []
      (entry (codes ".booth-tmp-1") (file [] 3) rest_es) 3 small_root-IsTidy refl refl refl
      small_root-IsReadable refl refl (omega arith)

-- A file for each suffix.
write_runs :
    (write no_type only_new (codes "e/f") (codes "00") 9 two_pieces small_root).0
    ≡ ok (info_for no_type (codes "e/f") (codes "hello") 9)
unfolding write write_at write_below write_temp fill mkdir_all parents leaf alter add_new find_entry
    assign refill link_in drop_entry erase concat stat bytes_lt clean_path check_segments check_each
    split trim_suffix ends_in bytes_eq
write_runs = refl

read-write_example :
    read no_type
      (codes "e/f")
      (write no_type only_new (codes "e/f") (codes "00") 9 two_pieces small_root).1.now
    ≡ ok (concat two_pieces.pieces, info_for no_type (codes "e/f") (codes "hello") 9)
unfolding clean_path check_segments check_each split trim_suffix ends_in bytes_eq
read-write_example =
    read-write no_type only_new (codes "e/f") (codes "e/f") (codes "00") 9 two_pieces small_root
      (info_for no_type (codes "e/f") (codes "hello") 9) refl refl write_runs

abbrev second_byte : ByteRange
second_byte = record { start = 1; end = 1 }

read_range_lem_example :
    (1 ≤ 1
      → 1 < length (codes "yy")
      → (read_range no_type (codes "d/b") second_byte small_root
          ≡ ok (
            take (1 - 1 + 1) (drop 1 (codes "yy")),
            info_for no_type (codes "d/b") (codes "yy") 2,
          ))
        × (length (take (1 - 1 + 1) (drop 1 (codes "yy"))) ≡ 1 - 1 + 1))
    × (1 < 1 → read_range no_type (codes "d/b") second_byte small_root ≡ err invalid_range)
    × (length (codes "yy") ≤ 1
        → read_range no_type (codes "d/b") second_byte small_root ≡ err invalid_range)
unfolding clean_path check_segments check_each split trim_suffix ends_in bytes_eq object find_entry
read_range_lem_example =
    read_range_lem no_type (codes "d/b") (codes "d/b") (codes "yy") 2 second_byte small_root refl
      refl

-- A write, a deletion and a move.
abbrev three_commands : List Command
three_commands =
    put_object only_new (codes "e/f") (codes "00") 9 two_pieces
    ∷ drop_object (codes "a")
    ∷ move_one (codes "d/b") (codes "a")
    ∷ []

run_all-Agrees_example :
    Agrees
      (object (run_all no_type three_commands small_root).1)
      (effects three_commands (run_all no_type three_commands small_root).0 (object small_root))
unfolding IsPlain split has_prefix
run_all-Agrees_example = run_all-Agrees no_type three_commands small_root (refl, (tt, (refl, tt)))
