-- ===== src/Registration/Local/Steps.antt =====
-- The local processor and its goroutines as steps: requests arrive, and jobs run, in any order.
use mathlib.Core.Path.{subst, subst₂}
use das_boot.Prelude.GoMap
use das_boot.Prelude.{
  Bool-cases, List, Option, Option-cases, String, [], arith, false, inl, inr, is_empty, none, refl,
  some, sym, ◌++◌, ◌∷◌, ◌≡◌, ◌⊎◌,
}
use das_boot.Pki.{X509}
use das_boot.Registration.Defs.{
  Entry, Outcome, Request, Response, approved, fresh_entry, not_found, pending, process_request,
}
use das_boot.Registration.Local.Defs.{
  Authority, Cache, issue, local_backend, process_request_locally,
}

-- The cache, and the requests whose goroutines have not run yet.
pub record System : Type 0 where
  pub cache : Cache
  pub jobs : List Request

abbrev pub start : System
start = record { cache = []; jobs = [] }

abbrev enqueue : List Request → Option Request → List Request
enqueue jobs none = jobs
enqueue jobs (some req) = jobs ++ req ∷ []

abbrev pub handled : System → Outcome Cache → System
handled s o = record { cache = o.state; jobs = enqueue s.jobs o.submitted_job }

module _ {Ec Rsa : Type 0} (x509 : X509 Ec Rsa) where
  pub data Step (s : System) : System → Type 0 where
    handle :
        (req : Request) (o : Outcome Cache)
        → process_request local_backend s.cache req ≡ some o
        → Step s (handled s o)
    run :
        (a : Authority) (before after : List Request) (req : Request)
        → s.jobs ≡ before ++ req ∷ after
        → Step s
            (record { cache = process_request_locally x509 a s.cache req; jobs = before ++ after })

  pub data Reach : System → Type 0 where
    here : Reach start
    next : {s t : System} → Reach s → Step s t → Reach t

  -- What an entry may hold for device `d`: nothing yet, or a certificate that was issued for it.
  pub data IsGenuine (d : String) (e : Entry) : Type 0 where
    waiting : e ≡ fresh_entry → IsGenuine d e
    issued :
        (a : Authority) (req : Request)
        → req.device_id ≡ d
        → issue x509 a req ≡ some e.der
        → e.is_rejected ≡ false
        → e.failure ≡ none
        → IsGenuine d e

  pub record IsSound (cache : Cache) : Type 0 where
    pub at : (d : String) (e : Entry) → GoMap.get cache d ≡ some e → IsGenuine d e

  IsSound-empty : IsSound []
  unfolding GoMap.get
  IsSound-empty = record { at = λ d e h. cc }

  IsSound-put :
      (cache : Cache) (k : String) (v : Entry)
      → IsSound cache
      → IsGenuine k v
      → IsSound (GoMap.put cache k v)
  IsSound-put cache k v s g = record {
    at = λ d e h. elim (GoMap.get-put_cases cache k d v h) [
      | inl (same, is) ↦ subst₂ IsGenuine same is g
      | inr old ↦ s.at d e old
    ];
  }

  IsSound-delete : (cache : Cache) (k : String) → IsSound cache → IsSound (GoMap.delete cache k)
  IsSound-delete cache k s = record { at = λ d e h. s.at d e (GoMap.get-delete-some cache k d h) }

  process_request_locally-IsSound :
      (a : Authority) (cache : Cache) (req : Request)
      → IsSound cache
      → IsSound (process_request_locally x509 a cache req)
  unfolding process_request_locally
  process_request_locally-IsSound a cache req s = elim (Option-cases (issue x509 a req)) [
    | inl refused ↦ rw refused s
    | inr (der, made) ↦
        rw made (IsSound-put cache req.device_id _ s (issued a req refl made refl refl))
  ]

  -- The response to a request that a sound cache has a genuine entry for, or none.
  abbrev pub IsHonest : Request → Response → Type 0
  IsHonest req r =
      ((r.status ≡ pending) × (r.client_certificate ≡ []))
      ⊎ ((r.status ≡ not_found) × (r.client_certificate ≡ []))
      ⊎ ((r.status ≡ approved)
          × (a : Authority) × (made_for : Request) × (made_for.device_id ≡ req.device_id)
          × (issue x509 a made_for ≡ some r.client_certificate))

  IsHonest-entry :
      (cache : Cache) (req : Request) (e : Entry) (o : Outcome Cache)
      → GoMap.get cache req.device_id ≡ some e
      → IsGenuine req.device_id e
      → process_request local_backend cache req ≡ some o
      → IsHonest req o.response
  unfolding process_request local_backend
  IsHonest-entry cache req e o found (waiting fresh) h = ground arith
  IsHonest-entry cache req e o found (issued a made_for same made accepted clean) h =
      elim (Bool-cases (is_empty e.der)) [
        | inl none_yet ↦ ground arith
        | inr has ↦ inr (inr (ground arith, a, made_for, same, ground arith))
      ]

  IsHonest-missing :
      (cache : Cache) (req : Request) (o : Outcome Cache)
      → GoMap.get cache req.device_id ≡ none
      → process_request local_backend cache req ≡ some o
      → IsHonest req o.response
  unfolding process_request local_backend
  IsHonest-missing cache req o missing h = ground arith

  state_after :
      (cache : Cache) (req : Request) (o : Outcome Cache)
      → process_request local_backend cache req ≡ some o
      → (o.state ≡ cache)
        ⊎ (o.state ≡ GoMap.put cache req.device_id fresh_entry)
        ⊎ (o.state ≡ GoMap.delete cache req.device_id)
  unfolding process_request local_backend
  state_after cache req o h = ground arith

  process_request-IsSound :
      (cache : Cache) (req : Request) (o : Outcome Cache)
      → IsSound cache
      → process_request local_backend cache req ≡ some o
      → IsSound o.state
  process_request-IsSound cache req o s h = elim (state_after cache req o h) [
    | inl same ↦ subst IsSound (sym same) s
    | inr (inl added) ↦
        subst IsSound (sym added) (IsSound-put cache req.device_id fresh_entry s (waiting refl))
    | inr (inr removed) ↦ subst IsSound (sym removed) (IsSound-delete cache req.device_id s)
  ]

  Reach-IsSound : {s : System} → Reach s → IsSound s.cache
  Reach-IsSound here = IsSound-empty
  Reach-IsSound (next {s = s} r (handle req o h)) =
      process_request-IsSound s.cache req o (Reach-IsSound r) h
  Reach-IsSound (next {s = s} r (run a before after req e)) =
      process_request_locally-IsSound a s.cache req (Reach-IsSound r)

  -- Whatever requests arrived and whatever jobs ran, in any order, since the start: a response is
  -- pending or not found, with no certificate, or it approves with a certificate that was issued for this very device ID.
  -- So no local response ever says that a registration was rejected or has failed.
  pub Reach-IsHonest :
      {s : System} (req : Request) (o : Outcome Cache)
      → Reach s
      → process_request local_backend s.cache req ≡ some o
      → IsHonest req o.response
  Reach-IsHonest {s} req o r h = elim (Option-cases (GoMap.get s.cache req.device_id)) [
    | inl missing ↦ IsHonest-missing s.cache req o missing h
    | inr (e, found) ↦
        IsHonest-entry s.cache req e o found ((Reach-IsSound r).at req.device_id e found) h
  ]
