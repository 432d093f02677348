-- ===== src/Registry/Metadata.antt =====
-- The stores of the registry: what internal/registry/model.go asks of them, and the metadata and
-- credential stores of internal/registry/memory.go, which never fail. A lock makes each operation one
-- step; `clone` copies a record, which a value is already. `key` is the one of service.go.
pub mod Laws
use booth_storage.Base.{
  ℕ, Bool, true, false, not, ◌&&◌, ◌||◌, Option, none, some, List, [], ◌∷◌, ◌++◌, Bytes, codes,
  bytes_eq, Result, ok, err, if◌then◌else◌, ltb, ◌==◌,
}
use booth_storage.Base.Assoc.{Assoc, bytes_lt, find, remove, put}
use booth_storage.Registry.{Record, RegistryError, Credentials, not_found, exists, no_credentials}

-- `MetadataStore` and `CredentialStore`, each call with its error and the state it leaves.
pub record Stores {ℓ κ} (M : Type ℓ) (C : Type κ) : Type (ℓ ⊔ κ) where
  pub create : Record → M → Result RegistryError (Unit {0}) × M
  pub get : Bytes → Bytes → M → Result RegistryError Record
  pub list : Bytes → M → Result RegistryError (List Record)
  pub update : Record → M → Result RegistryError (Unit {0}) × M
  pub delete : Bytes → Bytes → M → Result RegistryError (Unit {0}) × M
  pub set_create_only_verified : Bytes → Bytes → Bool → M → Result RegistryError (Unit {0}) × M
  pub put_creds : Bytes → Bytes → Credentials → C → Result RegistryError (Unit {0}) × C
  pub get_creds : Bytes → Bytes → C → Result RegistryError Credentials
  pub delete_creds : Bytes → Bytes → C → Result RegistryError (Unit {0}) × C

unfoldable pub key : Bytes → Bytes → Bytes
key workspace id = workspace ++ (b'/' ∷ id)

abbrev pub Records : Type 0
Records = Assoc Record

unfoldable pub create_record : Record → Records → Result RegistryError (Unit {0}) × Records
create_record r m = elim (find (key r.workspace r.id) m) [
  | some _ ↦ (err exists, m)
  | none ↦ (ok tt, put (key r.workspace r.id) r m)
]

unfoldable pub get_record : Bytes → Bytes → Records → Result RegistryError Record
get_record workspace id m = elim (find (key workspace id) m) [
  | none ↦ err not_found
  | some r ↦ ok r
]

unfoldable pub insert_by_id : Record → List Record → List Record
insert_by_id r [] = r ∷ []
insert_by_id r (q ∷ qs) =
    let rest = insert_by_id r qs in if bytes_lt q.id r.id then q ∷ rest else r ∷ q ∷ qs

unfoldable pub list_records : Bytes → Records → List Record
list_records workspace [] = []
list_records workspace ((k, r) ∷ m) =
    let rest = list_records workspace m in
    if bytes_eq r.workspace workspace then insert_by_id r rest else rest

-- Only the mutable fields change.
abbrev pub edited : Record → Record → Record
edited cur r = record {
  workspace = cur.workspace;
  id = cur.id;
  display_name = r.display_name;
  kind = cur.kind;
  config = r.config;
  has_credentials = r.has_credentials;
  create_only_verified = r.create_only_verified;
  created_by = cur.created_by;
  created_at = cur.created_at;
  updated_at = r.updated_at;
}

unfoldable pub update_record : Record → Records → Result RegistryError (Unit {0}) × Records
update_record r m = elim (find (key r.workspace r.id) m) [
  | none ↦ (err not_found, m)
  | some cur ↦ (ok tt, put (key r.workspace r.id) (edited cur r) m)
]

abbrev pub verified_as : Bool → Record → Record
verified_as v r = record {
  workspace = r.workspace;
  id = r.id;
  display_name = r.display_name;
  kind = r.kind;
  config = r.config;
  has_credentials = r.has_credentials;
  create_only_verified = v;
  created_by = r.created_by;
  created_at = r.created_at;
  updated_at = r.updated_at;
}

unfoldable pub set_verified :
    Bytes → Bytes → Bool → Records → Result RegistryError (Unit {0}) × Records
set_verified workspace id v m = elim (find (key workspace id) m) [
  | none ↦ (err not_found, m)
  | some cur ↦ (ok tt, put (key workspace id) (verified_as v cur) m)
]

unfoldable pub delete_record : Bytes → Bytes → Records → Result RegistryError (Unit {0}) × Records
delete_record workspace id m = elim (find (key workspace id) m) [
  | none ↦ (err not_found, m)
  | some _ ↦ (ok tt, remove (key workspace id) m)
]

abbrev pub Secrets : Type 0
Secrets = Assoc Credentials

unfoldable pub put_secret :
    Bytes → Bytes → Credentials → Secrets → Result RegistryError (Unit {0}) × Secrets
put_secret workspace id creds m = (ok tt, put (key workspace id) creds m)

unfoldable pub get_secret : Bytes → Bytes → Secrets → Result RegistryError Credentials
get_secret workspace id m = elim (find (key workspace id) m) [
  | none ↦ err no_credentials
  | some creds ↦ ok creds
]

unfoldable pub delete_secret : Bytes → Bytes → Secrets → Result RegistryError (Unit {0}) × Secrets
delete_secret workspace id m = (ok tt, remove (key workspace id) m)

-- `MemoryStore` and `MemoryCredentials`
abbrev pub memory : Stores Records Secrets
memory = record {
  create = create_record;
  get = get_record;
  list = λ workspace m. ok (list_records workspace m);
  update = update_record;
  delete = delete_record;
  set_create_only_verified = set_verified;
  put_creds = put_secret;
  get_creds = get_secret;
  delete_creds = delete_secret;
}
