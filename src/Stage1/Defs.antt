-- ===== src/Stage1/Defs.antt =====
-- The part of `Run` from the location to the registration, `registerDevice` and
-- `checkValidRegistration`.
use das_boot.Prelude.{
  Bool, Bytes, List, Option, Result, String, [], bytes_equal, err, false, if◌then◌else◌, is_empty,
  is_some, none, not, ok, some, then_write, true, ℕ, ◌&&◌, ◌||◌, ◌∷◌,
}
use das_boot.Partitions.Identity.Files.{Files}
use das_boot.Partitions.Identity.Keys.{
  IdentityError, KeyLibrary, generate_client_csr, generate_client_key_pair, has_client_cert,
  has_client_csr, has_client_key, has_valid_client_cert, matches_client_certificate, new_csr,
  read_client_csr, store_client_cert,
}
use das_boot.Partitions.Identity.Location.{Info, InfoReader, get_location, store_location}
use das_boot.Pki.{X509}
use das_boot.Registration.{
  approved, error, not_found, pending, rejected, unknown, Request, Response,
}
use das_boot.Seeder.Handler.Register.{ExchangeError, request_not_found}

pub data Stage1Error : Type 0 where
  location_failed key_failed csr_failed_ store_failed : IdentityError → Stage1Error
  registration_failed : ExchangeError → Stage1Error
  declined unexpected_status invalid_certificate still_polling : Stage1Error

abbrev pub Answer : Type 0
Answer = Result ExchangeError Response

-- What comes from outside: the location that was found, the keys that are generated if that succeeds,
-- the times at which the validity of a certificate is looked at, the device IDs of package devid, in a
-- CSR, and of the staging area, in a request, and what `DoRequest` answers and the calls of `DoPollRequest` before and after it.
pub record Inputs (Key : Type 0) : Type 0 where
  pub location : Option Info
  pub location_uuid : Option String
  pub first_key : Option Key
  pub second_key : Option Key
  pub first_time : ℕ
  pub second_time : ℕ
  pub third_time : ℕ
  pub csr_device_id : String
  pub device_id : String
  pub check_poll : Answer
  pub submit : Request → Answer
  pub polls : List Answer

abbrev pub failed_as :
    {S : Type 0} → (IdentityError → Stage1Error) → Option IdentityError × S → Option Stage1Error × S
failed_as f (none, s) = (none, s)
failed_as f (some e, s) = (some (f e), s)

-- The loop of polls: the answers come one after the other, and as long as the last one is pending the
-- loop goes on.
unfoldable pub await : Answer → List Answer → Result Stage1Error Response
await (err e) more = err (registration_failed e)
await (ok resp) [] = elim resp.status [
  | approved ↦ ok resp
  | rejected ↦ err declined
  | pending ↦ err still_polling
  | not_found ↦ err unexpected_status
  | error ↦ err unexpected_status
  | unknown ↦ err unexpected_status
]
await (ok resp) (answer ∷ more) =
    let later = await answer more in
    elim resp.status [
      | approved ↦ ok resp
      | rejected ↦ err declined
      | pending ↦ later
      | not_found ↦ err unexpected_status
      | error ↦ err unexpected_status
      | unknown ↦ err unexpected_status
    ]

-- `reflect.DeepEqual`
unfoldable pub info_equal : Info → Info → Bool
info_equal a b =
    bytes_equal a.uuid b.uuid
    && bytes_equal a.uuid_sig b.uuid_sig
    && bytes_equal a.metadata b.metadata
    && bytes_equal a.metadata_sig b.metadata_sig

module _ {S Key Ec Rsa : Type 0} (fs : Files S) (lib : KeyLibrary Key) (x509 : X509 Ec Rsa)
    (reader : InfoReader) where
  -- The CSR of `registerDevice`: the one on disk, or a new one, which is read again if it has no bytes.
  unfoldable pub csr_of : String → S → S → Result IdentityError Bytes
  csr_of device_id before s = elim (new_csr fs lib x509 device_id before) [
    | err e ↦ err e
    | ok der ↦ if is_empty der then read_client_csr fs lib x509 s else ok der
  ]

  -- From the CSR on.
  unfoldable pub submit_csr : Inputs Key → Result IdentityError Bytes → S → Option Stage1Error × S
  submit_csr i (err e) s = (some (csr_failed_ e), s)
  submit_csr i (ok der) s =
      elim (await
        (i.submit
          (record { device_id = i.device_id; csr = some der; location_uuid = i.location_uuid }))
        i.polls) [
          | err e ↦ (some e, s)
          | ok resp ↦
              failed_as store_failed (store_client_cert fs lib x509 resp.client_certificate s)
        ]

  unfoldable pub register_device : Inputs Key → S → Option Stage1Error × S
  register_device i s =
      if has_client_csr fs lib x509 s
      then submit_csr i (read_client_csr fs lib x509 s) s
      else then_write (failed_as csr_failed_ (generate_client_csr fs lib x509 i.csr_device_id s))
          (λ s'. submit_csr i (csr_of i.csr_device_id s s') s')

  unfoldable pub rekey : Option Key → S → Option Stage1Error × S
  rekey key s = failed_as key_failed (generate_client_key_pair fs lib x509 key s)

  abbrev is_not_found : ExchangeError → Bool
  is_not_found (request_not_found resp) = true
  is_not_found _ = false

  unfoldable pub check_valid_registration : Option Key → Answer → S → Option Stage1Error × S
  check_valid_registration key (err e) s =
      if is_not_found e then rekey key s else (some (registration_failed e), s)
  check_valid_registration key (ok resp) s =
      if not (is_some (x509.certificate_key resp.client_certificate))
      then (some invalid_certificate, s)
      else if not (matches_client_certificate fs lib x509 resp.client_certificate s)
      then rekey key s
      else (none, s)

  -- Whether the location has changed, and the stored location.
  unfoldable pub is_moved : Option Info → S → Bool
  is_moved none s = false
  is_moved (some info) s = elim (get_location fs reader s) [
    | err e ↦ false
    | ok stored ↦ not (info_equal info stored)
  ]

  unfoldable pub keep_location : Option Info → S → Option Stage1Error × S
  keep_location none s = (none, s)
  keep_location (some info) s = elim (get_location fs reader s) [
    | err e ↦ failed_as location_failed (store_location fs reader info s)
    | ok stored ↦
        if info_equal info stored
        then (none, s)
        else failed_as location_failed (store_location fs reader info s)
  ]

  unfoldable pub ensure_key : Inputs Key → Bool → S → Option Stage1Error × S
  ensure_key i reinitialize s =
      if reinitialize
        || not (has_client_key fs lib x509 s)
        || (has_client_cert fs lib x509 s && not (has_valid_client_cert fs lib x509 i.first_time s))
      then rekey i.first_key s
      else (none, s)

  unfoldable pub ensure_registered : Inputs Key → S → Option Stage1Error × S
  ensure_registered i s =
      if has_valid_client_cert fs lib x509 i.second_time s
      then check_valid_registration i.second_key i.check_poll s
      else (none, s)

  unfoldable pub ensure_certificate : Inputs Key → S → Option Stage1Error × S
  ensure_certificate i s =
      if has_valid_client_cert fs lib x509 i.third_time s then (none, s) else register_device i s

  unfoldable pub prepare_identity : Inputs Key → S → Option Stage1Error × S
  prepare_identity i s =
      then_write
        (then_write (then_write (keep_location i.location s) (ensure_key i (is_moved i.location s)))
          (ensure_registered i))
        (ensure_certificate i)
