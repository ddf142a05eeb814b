-- ===== src/Pki/Laws.antt =====
-- When `matchesPublicKeys` answers yes.
use das_boot.Prelude.{Bytes, Option-cases, String, arith, inl, inr, some, true, ◌≡◌}
use das_boot.Pki.Defs.{PublicKey, X509, ecdsa, equal_keys, matches_public_keys, rsa}

module _ {Ec Rsa : Type 0} (x509 : X509 Ec Rsa) where
  -- Both parse, and their keys are of one type, ECDSA or RSA, and equal.
  pub data SameKey (csr cert : Bytes) : Type 0 where
    same_ecdsa :
        (name : String) (k k' : Ec)
        → x509.parse_certificate_request csr
          ≡ some (record { common_name = name; public_key = ecdsa k })
        → x509.certificate_key cert ≡ some (ecdsa k')
        → x509.ec_equal k k' ≡ true
        → SameKey csr cert
    same_rsa :
        (name : String) (k k' : Rsa)
        → x509.parse_certificate_request csr
          ≡ some (record { common_name = name; public_key = rsa k })
        → x509.certificate_key cert ≡ some (rsa k')
        → x509.rsa_equal k k' ≡ true
        → SameKey csr cert

  SameKey-of :
      (csr cert : Bytes) (name : String) (k k' : PublicKey Ec Rsa)
      → x509.parse_certificate_request csr ≡ some (record { common_name = name; public_key = k })
      → x509.certificate_key cert ≡ some k'
      → equal_keys x509 k k' ≡ true
      → SameKey csr cert
  unfolding equal_keys
  SameKey-of csr cert name (ecdsa k) (ecdsa k') p q e = same_ecdsa name k k' p q e
  SameKey-of csr cert name (rsa k) (rsa k') p q e = same_rsa name k k' p q e
  SameKey-of csr cert name _ _ p q e = ground arith

  -- `matchesPublicKeys` answers yes only for a request and a certificate that both parse and
  -- hold equal keys of one type, ECDSA or RSA.
  pub matches_public_keys-SameKey :
      (csr cert : Bytes) → matches_public_keys x509 csr cert ≡ true → SameKey csr cert
  matches_public_keys-SameKey csr cert e =
      elim (Option-cases (x509.parse_certificate_request csr)) [
        | inl bad ↦ unfold matches_public_keys in ground arith
        | inr (request, p) ↦ elim (Option-cases (x509.certificate_key cert)) [
          | inl bad ↦ unfold matches_public_keys in ground arith
          | inr (key, q) ↦
              SameKey-of csr cert request.common_name request.public_key key p q
                (unfold matches_public_keys in ground arith)
        ]
      ]

  pub matches_public_keys-ecdsa :
      (csr cert : Bytes) (name : String) (k : Ec)
      → x509.parse_certificate_request csr
        ≡ some (record { common_name = name; public_key = ecdsa k })
      → x509.certificate_key cert ≡ some (ecdsa k)
      → x509.ec_equal k k ≡ true
      → matches_public_keys x509 csr cert ≡ true
  unfolding matches_public_keys
  matches_public_keys-ecdsa csr cert name k p q e = ground arith
