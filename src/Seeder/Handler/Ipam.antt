-- ===== src/Seeder/Handler/Ipam.antt =====
-- insecure_handler.go: the handler of IPAM requests.
use das_boot.Prelude.{
  Bool, Option, Result, Result-cases, String, [], err, false, if◌then◌else◌, inl, inr, none, not,
  ok, refl, some, true, ◌∷◌, ◌≡◌, ◌⊎◌,
}
use das_boot.Seeder.Client.{Client, ClientError, get_neighbour_switch_by_addr}
use das_boot.Seeder.Handler.Writer.{
  Writer, answer_document, error_document, error_with_json, new_writer, null_document, write,
  write_header,
}
use das_boot.Seeder.Ipam.{IpamError, Request, Response, Settings, process_request, validate}
use das_boot.Seeder.Wiring.{Cluster, Connection, Interfaces, Net, PortNames, Switch}

module _ {IP : Type 0} (net : Net IP) (ports : PortNames) (ifs : Interfaces) (cluster : Cluster)
    (c : Client) (is_uuid : String → Bool) (settings_for : String → Settings) where
  -- The neighbour, if one was found, gives the switch and the connection; an error is only logged.
  abbrev neighbour_of : Result ClientError (Switch × Connection) → Option Switch × Option Connection
  neighbour_of (ok (sw, conn)) = (some sw, some conn)
  neighbour_of (err e) = (none, none)

  abbrev pub answer_for : String → Request → Result IpamError Response
  answer_for host r =
      let n = neighbour_of (get_neighbour_switch_by_addr ports ifs cluster c host) in
      process_request net cluster (settings_for r.arch) r n.0 n.1

  -- After an error, the code goes on: `resp` is nil then.
  finish : Result IpamError Response → Writer → Writer
  finish (ok resp) w = write (answer_document resp) (write_header 200 w)
  finish (err e) w = write null_document (write_header 200 (error_with_json 500 w))

  -- The arguments are whether there is any content, the decoded request and the host without brackets.
  unfoldable pub process_ipam_request : Bool → Option Request → String → Writer → Writer
  unfolding finish
  process_ipam_request has_content decoded host w =
      if not has_content then error_with_json 400 w else (elim decoded [
        | none ↦ error_with_json 400 w
        | some r ↦ elim (validate is_uuid r) [
          | err e ↦ error_with_json 400 w
          | ok _ ↦ finish (answer_for host r) w
        ]
      ])

  -- What the handler answers, by the way it ends.
  abbrev pub Handled : Bool → Option Request → String → Type 0
  Handled has_content decoded host =
      ((process_ipam_request has_content decoded host new_writer
          ≡ record { status = some 400; body = error_document ∷ [] })
        × ((has_content ≡ false)
            ⊎ (decoded ≡ none)
            ⊎ ((r : Request) × (e : IpamError) × (decoded ≡ some r)
                × (validate is_uuid r ≡ err e))))
      ⊎ ((r : Request) × (has_content ≡ true)
          × (decoded ≡ some r)
          × (validate is_uuid r ≡ ok tt)
          × (((resp : Response) × (answer_for host r ≡ ok resp)
                × (process_ipam_request has_content decoded host new_writer
                    ≡ record { status = some 200; body = answer_document resp ∷ [] }))
              ⊎ ((e : IpamError) × (answer_for host r ≡ err e)
                  × (process_ipam_request has_content decoded host new_writer
                      ≡ record { status = some 500; body = error_document ∷ null_document ∷ [] }))))

  -- A request that is refused, as empty, not decoded or not valid, is answered with 400 and an error
  -- document. An accepted one is answered with 200 and what `ProcessRequest` gives, or, where that fails,
  -- with 500, an error document and, behind it, the document null.
  pub process_ipam_request-Handled :
      (has_content : Bool) (decoded : Option Request) (host : String)
      → Handled has_content decoded host
  unfolding process_ipam_request error_with_json write write_header
  process_ipam_request-Handled false decoded host = inl (refl, inl refl)
  process_ipam_request-Handled true none host = inl (refl, inr (inl refl))
  process_ipam_request-Handled true (some r) host = elim (Result-cases (validate is_uuid r)) [
    | inl (e, refused) ↦ inl (rw refused refl, inr (inr (r, e, refl, refused)))
    | inr (tt, accepted) ↦ elim (Result-cases (answer_for host r)) [
      | inl (e, failed) ↦ inr (r, refl, refl, accepted, inr (e, failed, rw (accepted, failed) refl))
      | inr (resp, made) ↦ inr (r, refl, refl, accepted, inl (resp, made, rw (accepted, made) refl))
    ]
  ]
