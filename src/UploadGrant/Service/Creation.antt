-- ===== src/UploadGrant/Service/Creation.antt =====
-- What `Create` of internal/uploadgrant/service.go stores.
use booth_storage.Base.{◌≡◌, ◌≢◌, true, [], Bytes, trim_space, Result, ok}
use booth_storage.Backend.Path.{clean_prefix}
use booth_storage.UploadGrant.{
  Grant, GrantError, backend_id, max_bytes, validate_principal, validate_extensions,
}
use booth_storage.UploadGrant.Service.{CreateInput, is_positive}

-- What a created grant is built from.
pub record IsBuilt (workspace : Bytes) (i : CreateInput) (g : Grant) : Type 0 where
  pub principal_valid : validate_principal i.principal workspace ≡ ok tt
  pub backend_given : trim_space i.backend_id ≢ []
  pub prefix_clean : clean_prefix i.prefix ≡ ok g.prefix
  pub extensions_valid : validate_extensions i.extensions ≡ ok g.extensions
  pub max_positive : is_positive g.max_bytes ≡ true
  pub workspace_kept : g.workspace ≡ workspace
  pub principal_kept : g.principal ≡ i.principal
  pub backend_kept : g.backend_id ≡ i.backend_id

abbrev ok_grant : Grant → Result GrantError Grant
ok_grant g = ok g
