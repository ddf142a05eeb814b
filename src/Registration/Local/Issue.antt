-- ===== src/Registration/Local/Issue.antt =====
-- What a certificate that the seeder signs itself was made from.
use das_boot.Prelude.{Bytes, Option-cases, String, arith, eq_iff, inl, inr, some, ◌≡◌, ◌≢◌}
use das_boot.Pki.{PublicKey, X509, client_template, ecdsa}
use das_boot.Registration.Defs.{Request, csr_bytes}
use das_boot.Registration.Local.Defs.{Authority, issue}

module _ {Ec Rsa : Type 0} (x509 : X509 Ec Rsa) where
  -- The certificate was created from the template for the request's device, over the ECDSA key
  -- of the request's CSR.
  pub record IsIssued (a : Authority) (req : Request) (der : Bytes) : Type 0 where
    pub key : Ec
    pub key_bytes : Bytes
    pub named : req.device_id ≢ ""
    pub parses :
        x509.parse_certificate_request (csr_bytes req.csr)
        ≡ some (record { common_name = req.device_id; public_key = ecdsa key })
    pub converts : x509.ecdh_bytes key ≡ some key_bytes
    pub created :
        x509.create_certificate a.randomness
          (client_template a.serial a.now req.device_id (x509.sha1 key_bytes))
          (ecdsa key)
        ≡ some der

  issue_of :
      (a : Authority) (req : Request) (der : Bytes) (name : String) (key : PublicKey Ec Rsa)
      → x509.parse_certificate_request (csr_bytes req.csr)
        ≡ some (record { common_name = name; public_key = key })
      → issue x509 a req ≡ some der
      → IsIssued a req der
  unfolding issue
  issue_of a req der name (ecdsa key) p e = elim (Option-cases (x509.ecdh_bytes key)) [
    | inl bad ↦ ground (arith, eq_iff name req.device_id)
    | inr (bytes, q) ↦
        let same : name ≡ req.device_id = ground (arith, eq_iff name req.device_id) in
        record {
          key = key;
          key_bytes = bytes;
          named = ground (arith, eq_iff name "", eq_iff name req.device_id);
          parses = rw (← same) p;
          converts = q;
          created = rw (← same) (ground (arith, eq_iff name "", eq_iff name req.device_id));
        }
  ]
  issue_of a req der name _ p e = ground (arith, eq_iff name req.device_id)

  -- A certificate is issued only for a CSR that parses, whose common name is the device ID and not
  -- empty, and whose key is an ECDSA key that converts; it is created from the client template for that
  -- device, with the hash of the key as its key id, and over that key.
  pub issue-IsIssued :
      (a : Authority) (req : Request) (der : Bytes)
      → issue x509 a req ≡ some der
      → IsIssued a req der
  issue-IsIssued a req der e =
      elim (Option-cases (x509.parse_certificate_request (csr_bytes req.csr))) [
        | inl bad ↦ unfold issue in ground arith
        | inr (csr, p) ↦ issue_of a req der csr.common_name csr.public_key p e
      ]
