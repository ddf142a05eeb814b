-- ===== src/Seeder/Handler/Access.antt =====
-- secure_handler.go: who may have what.
use das_boot.Prelude.{Bool, List, Option, String, [], false, none, not, some, str_eq, true, ◌∷◌}

-- `r.TLS` and the common names of its verified `PeerCertificates`; `none` is a plain connection.
abbrev pub Tls : Type 0
Tls = Option (List String)

unfoldable pub stage1_authz : Tls → Bool
stage1_authz none = false
stage1_authz (some peers) = true

unfoldable pub stage2_authz : Tls → Bool
stage2_authz none = false
stage2_authz (some []) = false
stage2_authz (some (uuid ∷ peers)) = not (str_eq uuid "")

unfoldable pub authz_match_device : Tls → String → Bool
authz_match_device none device_id = false
authz_match_device (some []) device_id = false
authz_match_device (some (uuid ∷ peers)) device_id = str_eq uuid device_id
