-- ===== src/Seeder/Handler/Exchange.antt =====
-- A registration over HTTP, against the call of the processor that it stands for.
use das_boot.Prelude.{
  ap, refl, Bool, List, Option, Option-cases, Result, String, arith, err, false, inl, inr, is_empty,
  none, ok, some, str_eq, ◌≡◌,
}
use das_boot.Pki.{X509}
use das_boot.Registration.{
  Backend, Outcome, approved, csr_bytes, error, not_found, pending, rejected, unknown,
}
use das_boot.Registration.Validate.{validate}
use das_boot.Seeder.Handler.Register.{
  ExchangeError, do_poll_request, do_request, Delivery, answer_lost, delivered, http_error,
  invalid_request, no_answer, not_sent, poll_of, answered, reply, processing_error, read_answer,
  register_handler, register_poll_handler, request_not_found, write_registration_response,
}
use das_boot.Seeder.Handler.Writer.{Document, error_with_json, new_writer, write, write_header}
use das_boot.Registration.{Request, Response, process_request}

-- How a client sees an answer of the processor.
abbrev pub seen : Response → Result ExchangeError Response
seen resp = elim resp.status [
  | approved ↦ ok resp
  | rejected ↦ ok resp
  | pending ↦ ok resp
  | not_found ↦ err (request_not_found resp)
  | error ↦ err (processing_error resp)
  | unknown ↦ err (http_error (some 501))
]

-- Reading what was written gives what the client should see.
read-write_registration_response :
    (other : Document → Option Response) (resp : Response)
    → read_answer other (write_registration_response resp new_writer) ≡ seen resp
unfolding read_answer write_registration_response error_with_json write write_header
read-write_registration_response other resp = ground arith

module _ {Ec Rsa S : Type 0} (x509 : X509 Ec Rsa) (is_uuid : String → Bool) (b : Backend S) where
  -- The client's result of a call of the processor, and the processor's state.
  abbrev called : Delivery → S → Option (Outcome S) → Result ExchangeError Response × Option S
  called not_sent s o = (err no_answer, some s)
  called delivered s none = (err (http_error (some 500)), none)
  called delivered s (some o) = (seen o.response, some o.state)
  called answer_lost s none = (err no_answer, none)
  called answer_lost s (some o) = (err no_answer, some o.state)

  -- A call of the processor without any HTTP: validation, then `ProcessRequest`.
  abbrev pub registration_call : Delivery → Request → S → Result ExchangeError Response × Option S
  registration_call d req s = elim (validate x509 is_uuid req) [
    | some e ↦ (err (invalid_request e), some s)
    | none ↦ called d s (process_request b s req)
  ]

  reply-called :
      (other : Document → Option Response) (d : Delivery) (o : Option (Outcome S)) (s : S)
      → reply x509 is_uuid b other d (answered x509 is_uuid b o new_writer) s ≡ called d s o
  unfolding reply answered
  reply-called other not_sent o s = refl
  reply-called other delivered none s = refl
  reply-called other delivered (some o) s =
      ap (λ r. (r, some o.state)) (read-write_registration_response other o.response)
  reply-called other answer_lost none s = refl
  reply-called other answer_lost (some o) s = refl

  -- A poll with a device ID over HTTP is exactly a call of the processor, as it is said below of the
  -- request that submits a CSR.
  pub do_poll_request-Refines :
      (other : Document → Option Response) (d : Delivery) (peers : List String) (devid : String)
      (s : S)
      → str_eq devid "" ≡ false
      → do_poll_request x509 is_uuid b other d peers devid s ≡ registration_call d (poll_of devid) s
  unfolding do_poll_request register_poll_handler
  do_poll_request-Refines other d peers devid s named =
      elim (Option-cases (validate x509 is_uuid (poll_of devid))) [
        | inr (e, invalid) ↦ ground arith
        | inl valid ↦ ground (arith, reply-called other d (process_request b s (poll_of devid)) s)
      ]

  -- Submitting a request that has a CSR over HTTP is exactly a call of the processor, its state included.
  -- A request that is not valid is refused by the client itself and changes nothing. The client gets an
  -- answer that is approved, rejected or pending as it is, one that is "not found" or "error" as the error
  -- for it, and any other one as HTTP error 501. A panic of the processor is HTTP error 500 for the client.
  -- A request that is not delivered leaves the state alone, and one whose answer is lost acts on the state
  -- all the same; both are an error for the client.
  pub do_request-Refines :
      (other : Document → Option Response) (d : Delivery) (peers : List String) (req : Request)
      (s : S)
      → is_empty (csr_bytes req.csr) ≡ false
      → do_request x509 is_uuid b other d peers req s ≡ registration_call d req s
  unfolding do_request register_handler
  do_request-Refines other d peers req s has_csr = elim (Option-cases (validate x509 is_uuid req)) [
    | inr (e, invalid) ↦ ground arith
    | inl valid ↦ ground (arith, reply-called other d (process_request b s req) s)
  ]
