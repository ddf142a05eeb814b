-- ===== src/Registration/Defs.antt =====
-- request.go, response.go and processor.go.
use das_boot.Prelude.{
  Bool, Bytes, Option, String, [], false, if◌then◌else◌, is_empty, is_some, none, not, some, str_eq,
  ◌&&◌,
}

-- A nil slice and an empty one differ for `ProcessRequest`: `none` is nil.
pub record Request : Type 0 where
  pub device_id : String
  pub csr : Option Bytes
  pub location_uuid : Option String

-- The bytes of a slice, for `len`, comparison and parsing.
abbrev pub csr_bytes : Option Bytes → Bytes
csr_bytes none = []
csr_bytes (some b) = b

pub data Status : Type 0 where
  unknown not_found pending approved rejected error : Status

-- The texts of `StatusDescription`, with what `Sprintf` puts in.
pub data Description : Type 0 where
  submitted no_attempt device_approved still_pending : String → Description
  processing_failed was_rejected : String → String → Description

pub record Response : Type 0 where
  pub status : Status
  pub description : Description
  pub client_certificate : Bytes

-- The type `cert`; the error is its text.
pub record Entry : Type 0 where
  pub der : Bytes
  pub is_rejected : Bool
  pub reason : String
  pub failure : Option String

-- `&cert{}`
abbrev pub fresh_entry : Entry
fresh_entry = record { der = []; is_rejected = false; reason = ""; failure = none }

-- `getRequestFunc`, `addRequestFunc` and `deleteRequestFunc`, over the state `S` that they read and
-- write. Adding may panic: `none`.
pub record Backend (S : Type 0) : Type 0 where
  pub get_request : S → Request → Option Entry
  pub add_request : S → Request → Option S
  pub delete_request : S → Request → S

-- What a call of `ProcessRequest` leaves: the state, the response, and the request that it hands to
-- a new goroutine, if any.
pub record Outcome (S : Type 0) : Type 0 where
  pub state : S
  pub response : Response
  pub submitted_job : Option Request

abbrev respond : {S : Type 0} → S → Status → Description → Bytes → Option (Outcome S)
respond s status description certificate = some (record {
  state = s;
  response = record {
    status = status;
    description = description;
    client_certificate = certificate;
  };
  submitted_job = none;
})

module _ {S : Type 0} (b : Backend S) where
  -- The request has an entry.
  process_found : S → Request → Entry → Option (Outcome S)
  process_found s req entry = elim entry.failure [
    | some e ↦ respond (b.delete_request s req) error (processing_failed req.device_id e) []
    | none ↦
        if entry.is_rejected
        then respond (b.delete_request s req) rejected (was_rejected req.device_id entry.reason) []
        else if not (is_empty entry.der)
        then respond (b.delete_request s req) approved (device_approved req.device_id) entry.der
        else respond s pending (still_pending req.device_id) []
  ]

  -- The request has no entry.
  process_missing : S → Request → Option (Outcome S)
  process_missing s req =
      if not (str_eq req.device_id "") && is_some req.csr
      then (elim (b.add_request s req) [
        | none ↦ none
        | some s' ↦ some (record {
          state = s';
          response = record {
            status = pending;
            description = submitted req.device_id;
            client_certificate = [];
          };
          submitted_job = some req;
        })
      ])
      else respond s not_found (no_attempt req.device_id) []

  -- `none` is a panic.
  unfoldable pub process_request : S → Request → Option (Outcome S)
  unfolding process_found process_missing
  process_request s req = elim (b.get_request s req) [
    | none ↦ process_missing s req
    | some entry ↦ process_found s req entry
  ]
