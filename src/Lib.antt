-- ===== src/Lib.antt =====
-- Das Boot, the installer of Hedgehog SONiC switches, and its seeder. A switch boots ONIE, fetches stage 0
-- from a seeder, asks it over IPAM for addresses and routes, registers for a client certificate, and
-- installs from then on over TLS; every stage is an executable with a signed configuration at its end.
--
-- Embedded: pkg/config/embedded.go. Executables are byte lists, and the crypto, X.509 and JSON libraries
--   are parameters (`Crypto`, `Config`). Words are 32 bits, and an `int` holds 64.
-- Pki, Kube: pkg/seeder/registration/util.go, and the API server as an interface with what it documents.
-- Registration: pkg/seeder/registration. `process_request` is `Processor.ProcessRequest` over a `Backend`,
--   which is the local cache with its queue (Registration/Local) or the control plane
--   (Registration/ControlPlane). `none` is a panic. The local goroutine is a step of its own, in any order
--   with the requests.
-- Controller: pkg/k8s/controllers/deviceregistration_controller.go, which signs what is registered.
-- Partitions: pkg/partitions/uevent.go, device.go and devices.go. The commands that are run stand in a
--   trace, and whether one succeeds is a parameter that sees the trace before it. That the
--   partitions of a disk lead back to it, as the discovery makes them, is a hypothesis (`LinkedDevices`).
-- Partitions/Identity: pkg/partitions/identity and pkg/partitions/location, over a file system that is a
--   parameter (`Files`, with what is used of it in `FilesLaws`).
-- Uefi: pkg/partitions/uefi.go, over a firmware that is a parameter.
-- Network: pkg/net/interface.go. The calls of netlink stand in a trace as well.
-- Seeder: pkg/seeder/controlplane/client.go, pkg/seeder/ipam, the IPAM handler of
--   pkg/seeder/insecure_handler.go and the handlers of pkg/seeder/secure_handler.go (Seeder/Handler) with the
--   client side of registrations, pkg/seeder/registration/client.go. The answers of the API server, the
--   interfaces of the host, the artifacts and package net are parameters. What becomes of a request of a
--   client under `hc.Do` is an input (`Delivery`), and a handler's panic is answered by chi's Recoverer.
-- Staging: pkg/stage/env.go, over package os as a parameter (`Os`, with what is used of it in `OsLaws`).
-- Devid: pkg/devid/device_id.go, over what is read of the host.
-- Stage0: pkg/stage0/stage0.go, `runWith` and the loops over interfaces in `Run`.
-- Stage1: pkg/stage1/stage1.go, from the location to the registration, with the answers of the seeder, the
--   times and the generated keys as inputs. The loop of polls has no bound in the code: it runs over a list of
--   answers, and one that is used up is an error of the model (`still_polling`).
-- Toys: small instances of the parameters, for the tests. Prelude: shared lists, results, maps and texts.
--
-- Every loop is structural recursion, so that no fuel is needed. Errors are values; their texts, log
-- lines and contexts are left out. Not modelled are the servers, the rest of the stages that
-- drive the components, a TPM (pkg/tpm finds none, and the code for it is not written), logging, and
-- pkg/net/url, a copy of a Go package.
pub mod Controller
pub mod Devid
pub mod Embedded
pub mod Kube
pub mod Network
pub mod Partitions
pub mod Pki
pub mod Prelude
pub mod Registration
pub mod Seeder
pub mod Stage0
pub mod Stage1
pub mod Staging
pub mod Toys
pub mod Uefi
