-- ===== src/Api.antt =====
-- internal/api/server.go: the statuses of the errors, and the request and response of a handler as far
-- as its branches read and its statuses and effects go. Bodies and log lines are not modelled.
pub mod Ranges
pub mod Routes
pub mod Writing
pub mod Reading
pub mod Grants
pub mod Admin
mod Tests
use booth_storage.Base.{ℕ, Bool, true, false, Option, none, some, Bytes, Result, ok, err}
use booth_storage.Backend.{
  BackendError, not_found, conflict, precondition_failed, invalid_range, canceled, invalid_path,
  too_many_objects, failed,
}
use booth_storage.Registry.{RegistryError}
use booth_storage.UploadGrant.{GrantError}

-- `writeBackendError`
unfoldable pub backend_status : BackendError → ℕ
backend_status not_found = 404
backend_status (invalid_path _) = 400
backend_status conflict = 409
backend_status precondition_failed = 412
backend_status invalid_range = 416
backend_status canceled = 499
backend_status (too_many_objects _) = 502
backend_status (failed _) = 502

-- `writeRegistryError`
unfoldable pub registry_status : RegistryError → ℕ
registry_status (RegistryError.invalid _) = 422
registry_status RegistryError.not_found = 404
registry_status RegistryError.exists = 409
registry_status RegistryError.no_credentials = 502
registry_status (RegistryError.failed _) = 502

-- `writeGrantError`
unfoldable pub grant_status : GrantError → ℕ
grant_status (GrantError.invalid _) = 422
grant_status GrantError.not_found = 404
grant_status (GrantError.failed _) = 502
