-- ===== src/Seeder/Handler/Register.antt =====
-- secure_handler.go: the handlers of registrations, and what the client reads of their answers in
-- pkg/seeder/registration/client.go.
use das_boot.Prelude.{
  Bool, List, Option, Result, String, [], err, false, if◌then◌else◌, is_empty, is_some, none, not,
  ok, some, str_eq, true, ℕ, ◌==◌, ◌||◌, ◌∷◌,
}
use das_boot.Pki.{X509}
use das_boot.Registration.{
  Backend, Outcome, approved, csr_bytes, error, not_found, pending, rejected, unknown,
}
use das_boot.Registration.Validate.{Invalid, validate}
use das_boot.Seeder.Handler.Access.{Tls}
use das_boot.Seeder.Handler.Writer.{
  Document, Writer, error_with_json, new_writer, registration_document, write, write_header,
}
use das_boot.Registration.{Request, Response, process_request}

-- `json.Marshal` of the answer does not fail.
unfoldable pub write_registration_response : Response → Writer → Writer
write_registration_response resp w =
    let answer : ℕ → Writer = λ code. write (registration_document resp) (write_header code w) in
    elim resp.status [
      | not_found ↦ answer 464
      | approved ↦ answer 200
      | rejected ↦ answer 200
      | pending ↦ answer 202
      | error ↦ answer 566
      | unknown ↦ error_with_json 501 w
    ]

-- Why the client returns an error.
pub data ExchangeError : Type 0 where
  invalid_request : Invalid → ExchangeError
  undecodable : ExchangeError
  request_not_found processing_error : Response → ExchangeError
  http_error : Option ℕ → ExchangeError
  no_answer : ExchangeError

-- What becomes of the exchange under `hc.Do`, which is package net/http: the answer arrives, the request
-- does not reach the server, or the answer is lost, as after the timeout.
pub data Delivery : Type 0 where
  delivered not_sent answer_lost : Delivery

-- The JSON decoder reads the first document. What it makes of another document than a registration's
-- answer is the argument.
first_response : (Document → Option Response) → List Document → Option Response
first_response other [] = none
first_response other (registration_document resp ∷ rest) = some resp
first_response other (d ∷ rest) = other d

abbrev is_status : Option ℕ → ℕ → Bool
is_status none code = false
is_status (some n) code = n == code

-- What `DoPollRequest` and `DoRequest` do with the answer.
unfoldable pub read_answer : (Document → Option Response) → Writer → Result ExchangeError Response
unfolding first_response
read_answer other w =
    if is_status w.status 200
      || is_status w.status 202
      || is_status w.status 464
      || is_status w.status 566
    then (elim (first_response other w.body) [
      | none ↦ err undecodable
      | some resp ↦
          if is_status w.status 464
          then err (request_not_found resp)
          else if is_status w.status 566
          then err (processing_error resp)
          else ok resp
    ])
    else err (http_error w.status)

abbrev pub poll_of : String → Request
poll_of devid = record { device_id = devid; csr = none; location_uuid = none }

module _ {Ec Rsa S : Type 0} (x509 : X509 Ec Rsa) (is_uuid : String → Bool) (b : Backend S) where
  -- `none` is a panic.
  unfoldable pub answered : Option (Outcome S) → Writer → Option (Writer × S)
  answered none w = none
  answered (some o) w = some (write_registration_response o.response w, o.state)

  -- From the validation on.
  accepted : Request → Writer → S → Option (Writer × S)
  accepted req w s = elim (validate x509 is_uuid req) [
    | some e ↦ some (error_with_json 400 w, s)
    | none ↦ answered (process_request b s req) w
  ]

  -- The arguments are the connection, whether there is any content, and the decoded request.
  unfoldable pub register_handler : Tls → Bool → Option Request → Writer → S → Option (Writer × S)
  unfolding accepted answered
  register_handler tls has_content decoded w s =
      if not (is_some tls)
      then some (error_with_json 400 w, s)
      else if not has_content
      then some (error_with_json 400 w, s)
      else (elim decoded [
        | none ↦ some (error_with_json 400 w, s)
        | some req ↦
            if is_empty (csr_bytes req.csr)
            then some (error_with_json 400 w, s)
            else accepted req w s
      ])

  unfoldable pub register_poll_handler : Tls → String → Writer → S → Option (Writer × S)
  unfolding accepted answered
  register_poll_handler tls devid w s =
      if not (is_some tls)
      then some (error_with_json 400 w, s)
      else if str_eq devid ""
      then some (error_with_json 400 w, s)
      else accepted (poll_of devid) w s

  module _ (other : Document → Option Response) where
    -- A client's call over TLS against the handler: its result, and the processor's state. A panic is
    -- answered with 500 by the Recoverer of chi; the state that it leaves is then not known.
    unfoldable pub reply :
        Delivery → Option (Writer × S) → S → Result ExchangeError Response × Option S
    reply not_sent m s = (err no_answer, some s)
    reply delivered none s = (err (http_error (some 500)), none)
    reply delivered (some (w, s')) s = (read_answer other w, some s')
    reply answer_lost none s = (err no_answer, none)
    reply answer_lost (some (w, s')) s = (err no_answer, some s')

    unfoldable pub do_poll_request :
        Delivery → List String → String → S → Result ExchangeError Response × Option S
    unfolding reply
    do_poll_request d peers devid s = elim (validate x509 is_uuid (poll_of devid)) [
      | some e ↦ (err (invalid_request e), some s)
      | none ↦ reply d (register_poll_handler (some peers) devid new_writer s) s
    ]

    unfoldable pub do_request :
        Delivery → List String → Request → S → Result ExchangeError Response × Option S
    unfolding reply
    do_request d peers req s = elim (validate x509 is_uuid req) [
      | some e ↦ (err (invalid_request e), some s)
      | none ↦ reply d (register_handler (some peers) true (some req) new_writer s) s
    ]
