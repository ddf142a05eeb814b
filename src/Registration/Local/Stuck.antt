-- ===== src/Registration/Local/Stuck.antt =====
-- The life of one registration: submitted, issued, fetched once; and the one whose job refuses it.
use mathlib.Core.Option.{some-injective}
use das_boot.Prelude.GoMap
use das_boot.Prelude.{
  Bool, Bytes, List, String, [], ap, arith, eq_iff, false, is_some, none, not, refl, replicate,
  some, str_eq, suc, sym, true, zero, ℕ, ◌&&◌, ◌∙◌, ◌∷◌, ◌≡◌, ◌≢◌,
}
use das_boot.Pki.{X509}
use das_boot.Registration.Defs.{
  Entry, Outcome, Request, Status, approved, device_approved, fresh_entry, no_attempt, not_found,
  pending, process_request, still_pending, submitted,
}
use das_boot.Registration.Local.Defs.{
  Authority, Cache, issue, issued_as, local_backend, process_request_locally,
}

abbrev pub is_submission : Request → Bool
is_submission req = not (str_eq req.device_id "") && is_some req.csr

-- The statuses that a client sees which makes the same request `n` times in a row.
pub polls : ℕ → Request → Cache → List Status
polls zero req cache = []
polls (suc n) req cache = elim (process_request local_backend cache req) [
  | none ↦ []
  | some o ↦ o.response.status ∷ polls n req o.state
]

-- The first answer to a submission for a device without an entry.
abbrev pub submitted_outcome : Cache → Request → Outcome Cache
submitted_outcome cache req = record {
  state = GoMap.put cache req.device_id fresh_entry;
  response = record {
    status = pending;
    description = submitted req.device_id;
    client_certificate = [];
  };
  submitted_job = some req;
}

pub submission_lem :
    (cache : Cache) (req : Request)
    → GoMap.get cache req.device_id ≡ none
    → is_submission req ≡ true
    → process_request local_backend cache req ≡ some (submitted_outcome cache req)
unfolding process_request local_backend
submission_lem cache req missing new = ground arith

abbrev pending_outcome : Cache → Request → Outcome Cache
pending_outcome cache req = record {
  state = cache;
  response = record {
    status = pending;
    description = still_pending req.device_id;
    client_certificate = [];
  };
  submitted_job = none;
}

pending_lem :
    (cache : Cache) (req : Request)
    → GoMap.get cache req.device_id ≡ some fresh_entry
    → process_request local_backend cache req ≡ some (pending_outcome cache req)
unfolding process_request local_backend
pending_lem cache req h = ground arith

abbrev pub approved_outcome : Cache → Request → Bytes → Outcome Cache
approved_outcome cache req der = record {
  state = GoMap.delete cache req.device_id;
  response = record {
    status = approved;
    description = device_approved req.device_id;
    client_certificate = der;
  };
  submitted_job = none;
}

approved_lem :
    (cache : Cache) (req : Request) (e : Entry)
    → GoMap.get cache req.device_id ≡ some e
    → e.failure ≡ none
    → e.is_rejected ≡ false
    → e.der ≢ []
    → process_request local_backend cache req ≡ some (approved_outcome cache req e.der)
unfolding process_request local_backend
approved_lem cache req e h clean accepted has = ground arith

abbrev missing_outcome : Cache → Request → Outcome Cache
missing_outcome cache req = record {
  state = cache;
  response = record {
    status = not_found;
    description = no_attempt req.device_id;
    client_certificate = [];
  };
  submitted_job = none;
}

missing_lem :
    (cache : Cache) (req : Request)
    → GoMap.get cache req.device_id ≡ none
    → req.csr ≡ none
    → process_request local_backend cache req ≡ some (missing_outcome cache req)
unfolding process_request local_backend
missing_lem cache req h no_csr = ground arith

polls-fresh :
    (n : ℕ) (req : Request) (cache : Cache)
    → GoMap.get cache req.device_id ≡ some fresh_entry
    → polls n req cache ≡ replicate n pending
unfolding polls
polls-fresh zero req cache h = refl
polls-fresh (suc n) req cache h =
    rw (pending_lem cache req h, polls) (ap (◌∷◌ pending) (polls-fresh n req cache h))

module _ {Ec Rsa : Type 0} (x509 : X509 Ec Rsa) (a : Authority) where
  -- A submission whose job refuses its CSR is answered as pending for ever: every later request for
  -- the device, with or without a CSR, is told that it is pending, however often it asks.
  pub polls-refused :
      (cache : Cache) (req later : Request) (o : Outcome Cache) (n : ℕ)
      → GoMap.get cache req.device_id ≡ none
      → is_submission req ≡ true
      → process_request local_backend cache req ≡ some o
      → issue x509 a req ≡ none
      → later.device_id ≡ req.device_id
      → polls n later (process_request_locally x509 a o.state req) ≡ replicate n pending
  unfolding process_request_locally
  polls-refused cache req later o n missing new answered refused same =
      let first : o ≡ submitted_outcome cache req =
        some-injective o _ (sym answered ∙ submission_lem cache req missing new) in
      polls-fresh n later _
        (rw refused (rw (same, first) (GoMap.get-put_self cache req.device_id fresh_entry)))

  -- A submission for a device without an entry, whose job issues a non-empty certificate, is answered
  -- as pending and starts that job; after the job the next such request is approved with this
  -- certificate; a request without a CSR after that finds nothing, and every device's entry is again what it was before.
  pub approved_once :
      (cache : Cache) (req : Request) (der : Bytes)
      → GoMap.get cache req.device_id ≡ none
      → is_submission req ≡ true
      → issue x509 a req ≡ some der
      → der ≢ []
      → (first second third : Outcome Cache) × (process_request local_backend cache req
          ≡ some first)
        × (first.response.status ≡ pending)
        × (first.submitted_job ≡ some req)
        × (process_request local_backend (process_request_locally x509 a first.state req) req
            ≡ some second)
        × (second.response.status ≡ approved)
        × (second.response.client_certificate ≡ der)
        × (process_request local_backend second.state (record req { csr = none }) ≡ some third)
        × (third.response.status ≡ not_found)
        × ((d : String) → GoMap.get third.state d ≡ GoMap.get cache d)
  approved_once cache req der missing new made some_bytes =
      let submitted_cache = GoMap.put cache req.device_id fresh_entry in
      let issued_entry = issued_as der in
      let issued_cache = GoMap.put submitted_cache req.device_id issued_entry in
      let last = GoMap.delete issued_cache req.device_id in
      (
        submitted_outcome cache req,
        approved_outcome issued_cache req der,
        missing_outcome last (record req { csr = none }),
        submission_lem cache req missing new,
        refl,
        refl,
        unfold process_request_locally in
            rw made (
              approved_lem issued_cache req issued_entry
                (GoMap.get-put_self submitted_cache req.device_id issued_entry) refl refl
                some_bytes),
        refl,
        refl,
        missing_lem last (record req { csr = none })
            (GoMap.get-delete_self issued_cache req.device_id) refl,
        refl,
        λ d. ground (
          arith,
          GoMap.get-delete issued_cache req.device_id d,
          GoMap.get-put submitted_cache req.device_id d issued_entry,
          GoMap.get-put cache req.device_id d fresh_entry,
          eq_iff req.device_id d,
        ),
      )
