-- ===== src/Registry/Tests.antt =====
-- Instances of the theorems about the registry, on the stores in memory and a platform whose backends are
-- the bytes of their configuration.
use booth_storage.Base.{
  ◌≡◌, ◌⊎◌, refl, true, false, none, some, [], ◌∷◌, Bytes, codes, bytes_eq, contains, trim_space,
  ok, err, arith,
}
use booth_storage.Base.Assoc.{find, remove}
use booth_storage.Base.Pattern.{is_slug}
use booth_storage.Backend.{kind_s3, kind_valid, precondition_failed}
use booth_storage.Registry.{
  Record, exists, validate_workspace, validate_id, is_id, is_id_tail, allowed_keys, field,
  check_fields, check_together, validate_credentials, cred_access_key, cred_secret_key,
}
use booth_storage.Registry.Metadata.{
  Records, Secrets, key, memory, create_record, get_record, update_record, delete_record,
  put_secret, get_secret, delete_secret,
}
use booth_storage.Registry.Metadata.Laws.{memory_laws}
use booth_storage.Registry.Service.{
  Platform, State, CreateInput, UpdateInput, root_ready, name_or_id, as_invalid, ready_root,
  build_record, store_new_creds, create, get,
}
use booth_storage.Registry.Service.Registering.{create-eq-err}
use booth_storage.Registry.Editing.{
  new_name, new_config, stored_creds, used_creds, has_creds, stamp, prepare_update, replace_creds,
  store_update, update,
}
use booth_storage.Registry.Editing.Laws.{IsEdit, update_lem}
use booth_storage.Registry.Opening.{is_current, cached_for, open_creds, build, open_backend}
use booth_storage.Registry.Opening.Laws.{IsFresh, Builds, open_backend_lem}

abbrev lab : Bytes
lab = codes "lab"

abbrev own : Bytes
own = codes "own"

abbrev platform : Platform Bytes
platform = record {
  normalize_config = λ kind raw workspace. ok raw;
  build_backend = λ kind config creds workspace. ok config;
  check_root = λ config create. ok root_ready;
  service_account = λ text. ok tt;
  check = λ b. ok tt;
  first_write = λ b. ok tt;
  second_write = λ b. err precondition_failed;
}

runs : Unit {0}
unfolding validate_workspace validate_id is_id is_id_tail is_slug allowed_keys field check_fields
    check_together validate_credentials key create_record get_record update_record delete_record
    put_secret get_secret delete_secret name_or_id as_invalid ready_root build_record
    store_new_creds create get new_name new_config stored_creds used_creds has_creds stamp
    prepare_update replace_creds store_update update is_current cached_for open_creds build
    open_backend bytes_eq find remove contains trim_space kind_valid
runs = tt

abbrev start : State Records Secrets Bytes
start = record { meta = []; creds = []; cache = [] }

abbrev asked : CreateInput
asked = record {
  id = own;
  display_name = [];
  kind = kind_s3;
  config = codes "{}";
  credentials = (cred_access_key, codes "k") ∷ (cred_secret_key, codes "s") ∷ [];
}

abbrev kept : State Records Secrets Bytes
kept = (create memory platform 5 lab (codes "ada") asked start).1

abbrev rec : Record
rec = record {
  workspace = lab;
  id = own;
  display_name = own;
  kind = kind_s3;
  config = codes "{}";
  has_credentials = true;
  create_only_verified = false;
  created_by = codes "ada";
  created_at = 5;
  updated_at = 5;
}

there : get_record lab own kept.meta ≡ ok rec
unfolding runs
there = refl

again : (create memory platform 6 lab (codes "eve") asked kept).0 ≡ err exists
unfolding runs
again = refl

deletes :
    (ws id : Bytes) (m : Records) (r : Record)
    → get_record ws id m ≡ ok r
    → (delete_record ws id m).0 ≡ ok tt
unfolding get_record delete_record
deletes ws id m r h = ground arith

lab_valid : validate_workspace lab ≡ ok tt
unfolding runs
lab_valid = refl

create-eq-err_example :
    get_record lab own (create memory platform 6 lab (codes "eve") asked kept).1.meta
    ≡ get_record lab own kept.meta
create-eq-err_example =
    create-eq-err memory platform memory_laws 6 lab (codes "eve") asked kept exists lab own deletes
      again

abbrev edit : UpdateInput
edit = record { display_name = none; config = codes "{e}"; credentials = none }

abbrev edited_rec : Record
edited_rec = record rec { config = codes "{e}"; updated_at = 6 }

updated : (update memory platform 5 lab own edit kept).0 ≡ ok edited_rec
unfolding runs
updated = refl

update_lem_example :
    ((r : Record) × (get memory platform lab own kept ≡ ok r) × IsEdit edit r edited_rec)
    × ((update memory platform 5 lab own edit kept).1.meta ≡ (update_record edited_rec kept.meta).1)
    × (find (key lab own) (update memory platform 5 lab own edit kept).1.cache ≡ none)
update_lem_example = update_lem memory platform 5 lab own edit kept edited_rec updated

opened : (open_backend memory platform 8 9 lab own kept).0 ≡ ok (codes "{}")
unfolding runs
opened = refl

open_backend_lem_example :
    (r : Record) × (get memory platform lab own kept ≡ ok r)
    × (IsFresh 8 r (find (key lab own) kept.cache) (codes "{}")
        ⊎ (Builds memory platform r lab own kept (codes "{}")
            × (find (key lab own) (open_backend memory platform 8 9 lab own kept).1.cache
                ≡ some (record { updated_at = r.updated_at; loaded_at = 9; opened = codes "{}" }))))
    × ((open_backend memory platform 8 9 lab own kept).1.meta ≡ kept.meta)
    × ((open_backend memory platform 8 9 lab own kept).1.creds ≡ kept.creds)
open_backend_lem_example = open_backend_lem memory platform 8 9 lab own kept (codes "{}") opened
