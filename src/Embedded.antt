-- ===== src/Embedded.antt =====
-- pkg/config/embedded.go and embedded_version.go: the configuration that is appended to an
-- executable. The header layout, the errors, the interface of a configuration, and what the code
-- calls in crypto/ecdsa, crypto/sha256, crypto/x509 and encoding/json.
-- Bytes are numbers below 256. `int` is the 64-bit one, so that `int(contentBytesSize)` is exact.
mod Words
mod Codec
mod Padding
pub mod Generate
pub mod Read
pub mod RoundTrip
pub mod Rejects
pub mod Layout
pub mod Options
mod Tests
