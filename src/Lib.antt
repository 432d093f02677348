-- ===== src/Lib.antt =====
-- Verification library of booth-storage: the module that keeps a workspace's storage backends, lets
-- members and apps read and write objects through one HTTP interface, and admits the uploads of apps by
-- grants.
--
-- The parts and their files. A request enters through the middleware, passes the check of its route and
-- reaches a handler; the handler asks the registry for an open backend, asks the upload grants where the
-- caller may not write, and calls the backend with a cleaned path.
--
--   Backend, Backend/Path, Backend/Options    internal/backend/backend.go: kinds, errors, the rules of
--       paths (`CleanPath`, `CleanPrefix`, `CleanFolder`), listing limits and entity tags.
--   Backend/Flat     internal/backend/flatstore.go: deleting and moving objects and folders over the
--       operations of a flat-key store. Flat/Laws has what such a store promises, Flat/Memory one store
--       that keeps it and whose copies fail on demand.
--   Auth     internal/auth/auth.go: groups, roles, `Middleware` and `Require`;
--       Auth/Tokens `Verify`.
--   Filesystem     internal/backend/filesystem/filesystem.go: Filesystem/Disk is the disk below a registered
--       root, Filesystem itself `Write` and `Stat`, Filesystem/Objects the operations on objects and folders,
--       Filesystem/Listing `List`; Filesystem/Abstract the map of its objects.
--   Leases     internal/seaweedfslease/model.go and memory.go; Leases/Sweep internal/seaweedfssweep/sweep.go;
--       Leases/Broker internal/credentialbroker/provider.go, whose mints record leases for the sweeper.
--   Retry     internal/dbwait/retry.go: the wait for PostgreSQL at startup.
--   UploadGrant     internal/uploadgrant/model.go; UploadGrant/Store memory.go; UploadGrant/Service
--       service.go, with `MatchForUpload`, the lookup that admits an app's upload.
--   Registry     internal/registry/model.go and `validateCredentials` of kinds.go; Registry/Metadata the
--       stores of memory.go and the interface that model.go documents; Registry/Service, Registry/Editing
--       and Registry/Opening the operations of service.go, over that interface.
--   Api     internal/api/server.go: Api/Routes `NewRouter`, Api/Ranges `parseRange`, Api/Reading and
--       Api/Writing the object handlers, Api/Grants and Api/Admin the others.
--   Base     what the parts share: bytes and the functions of Go's strings package on them, results,
--       maps as lists of entries, list lemmas. A text is the list of its bytes.
--
-- Names. A Go function `CamelCase` is `camel_case` here, a struct a record with its fields, an error a
-- constructor of the package's error type. State goes in as the last argument and comes back as the last
-- component. A Go map is the list of its entries, one for each key; a result that Go takes in the order of
-- its map is sorted by the code before it is seen, and by the model.
--
-- Bounds. `keysUnder` loops until the store has no next page or the limit is passed; its model runs on
-- fuel. No comment promises that a page with a successor has an entry, so that no amount of fuel is enough
-- for every store, and the theorems about it are about runs that end. Sizes and offsets are at most 2^63 - 1, so sums of them stay in range; numbers of
-- a Range header are parsed with the bounds of a signed 64-bit integer. `Retry` loops until its deadline; each
-- wait takes half a second at least, so that 121 turns are enough for `DefaultMaxElapsed`. Times are
-- microseconds in the registry, milliseconds in Retry and nanoseconds elsewhere.
--
-- Folders. A clean folder or prefix may end in two slashes. The root takes such a path as the folder without
-- them, while `fs.ValidPath` refuses it, and `path.Dir` of it is the folder itself; the model follows all three.
--
-- Disks. An operation of the filesystem backend gives the last disk and all that it passed through, the states
-- that another request may see. A temporary name has a suffix that is random in the code and an argument here.
--
-- Parameters. The check of a token (an OIDC library) and the decoding of its issuer, the calls of a
-- flat-key store, the decoding and building of a backend's configuration, the stores behind the registry, the outcome of a write behind an
-- HTTP handler, the JSON decoders, `MintScopedCredential`, the deletion of a SeaweedFS lease, the attempts of a
-- connection with their duration, a file's type by its name, and
-- the paths that `fs.ValidPath` accepts.
--
-- Not modelled: the texts of messages, log lines and most header texts; contexts, time-outs and the
-- interleaving of requests (the stores in memory lock, so that each operation is one step); white space and
-- letter case beyond ASCII in `TrimSpace` and `ToLower`; the decoding of JSON bodies; the storage, SQL,
-- Kubernetes and event clients; the filesystem policy; symbolic links and faults of the disk, and a `RemoveAll`
-- that stops half way.
pub mod Base
pub mod Backend
pub mod Auth
pub mod UploadGrant
pub mod Registry
pub mod Api
pub mod Filesystem
pub mod Leases
pub mod Retry
