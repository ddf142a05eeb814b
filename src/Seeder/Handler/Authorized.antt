-- ===== src/Seeder/Handler/Authorized.antt =====
-- What a client must present to get anything but a refusal from the secure server.
use das_boot.Prelude.{
  Bool, Bool-cases, Bytes, List, Option, Result, String, [], arith, eq_iff, false, inl, inr,
  is_some, none, refl, some, str_eq, true, ℕ, ◌∷◌, ◌≡◌, ◌≤◌, ◌⊎◌,
}
use das_boot.Pki.{X509}
use das_boot.Registration.{Backend}
use das_boot.Seeder.Client.{ClientError, call}
use das_boot.Seeder.Handler.Access.{Tls, authz_match_device, stage1_authz, stage2_authz}
use das_boot.Seeder.Handler.Artifacts.{
  AgentCalls, Artifacts, for_device, get_agent_artifact, get_agent_config_handler,
  get_agent_kubeconfig_handler, get_nos_artifact, get_onie_artifact, get_stage_artifact,
}
use das_boot.Seeder.Handler.Register.{register_handler, register_poll_handler}
use das_boot.Seeder.Handler.Routes.{
  Embedders, SecureRoute, agent_config_route, agent_kubeconfig_route, agent_route, nos_route,
  onie_route, provisioner_route, register_poll_route, register_route, secure_handler, stage1_route,
  stage2_route,
}
use das_boot.Seeder.Handler.Writer.{
  Writer, error_document, error_with_json, new_writer, write, write_header,
}

-- The connection, and for a route of a device the verified certificate, that the route wants.
abbrev HasDevice : Tls → Type 0
HasDevice tls =
    (uuid : String) × (peers : List String) × (tls ≡ some (uuid ∷ peers)) × (str_eq uuid "" ≡ false)

abbrev IsDevice : Tls → String → Type 0
IsDevice tls devid =
    (uuid : String) × (peers : List String) × (tls ≡ some (uuid ∷ peers))
    × (str_eq devid "" ≡ false)
    × (uuid ≡ devid)

abbrev pub IsAuthorized : SecureRoute → Tls → Type 0
IsAuthorized (stage1_route arch) tls = is_some tls ≡ true
IsAuthorized (register_route has_content decoded) tls = is_some tls ≡ true
IsAuthorized (register_poll_route devid) tls = is_some tls ≡ true
IsAuthorized (stage2_route arch) tls = HasDevice tls
IsAuthorized (provisioner_route arch) tls = HasDevice tls
IsAuthorized (onie_route platform) tls = HasDevice tls
IsAuthorized (agent_route devid) tls = HasDevice tls
IsAuthorized (nos_route platform devid) tls = IsDevice tls devid
IsAuthorized (agent_config_route devid) tls = IsDevice tls devid
IsAuthorized (agent_kubeconfig_route devid) tls = IsDevice tls devid

-- An error, and nothing else.
abbrev pub IsRefused : Writer → Type 0
IsRefused w =
    (code : ℕ) × (400 ≤ code)
    × (code ≤ 404)
    × (w ≡ record { status = some code; body = error_document ∷ [] })

stage2_authz-HasDevice : (tls : Tls) → stage2_authz tls ≡ true → HasDevice tls
unfolding stage2_authz
stage2_authz-HasDevice none h = ground arith
stage2_authz-HasDevice (some []) h = ground arith
stage2_authz-HasDevice (some (uuid ∷ peers)) h = (uuid, peers, refl, ground arith)

authz_match_device-IsDevice :
    (tls : Tls) (devid : String)
    → str_eq devid "" ≡ false
    → authz_match_device tls devid ≡ true
    → IsDevice tls devid
unfolding authz_match_device
authz_match_device-IsDevice none devid n h = ground arith
authz_match_device-IsDevice (some []) devid n h = ground arith
authz_match_device-IsDevice (some (uuid ∷ peers)) devid n h =
    (uuid, peers, refl, n, ground (arith, eq_iff uuid devid))

refusal : (code : ℕ) → 400 ≤ code → code ≤ 404 → IsRefused (error_with_json code new_writer)
unfolding error_with_json write write_header
refusal code h k = (code, h, k, refl)

-- Each handler refuses where its checks fail.
get_stage_artifact-ungranted :
    (a : Artifacts) (name arch : String) (granted : Bool) (embed : String → Bytes → Option Bytes)
    → granted ≡ false
    → IsRefused (get_stage_artifact a name granted embed arch new_writer)
unfolding get_stage_artifact
get_stage_artifact-ungranted a name arch granted embed h =
    rw h (refusal 403 (omega arith) (omega arith))

get_onie_artifact-ungranted :
    (a : Artifacts) (platform : String) (granted : Bool)
    → granted ≡ false
    → IsRefused (get_onie_artifact a granted platform new_writer)
unfolding get_onie_artifact
get_onie_artifact-ungranted a platform granted h = rw h (refusal 403 (omega arith) (omega arith))

get_agent_artifact-ungranted :
    (a : Artifacts) (cpc : AgentCalls) (devid : String) (granted : Bool)
    → granted ≡ false
    → IsRefused (get_agent_artifact a cpc granted devid new_writer)
unfolding get_agent_artifact
get_agent_artifact-ungranted a cpc devid granted h = rw h (refusal 403 (omega arith) (omega arith))

-- The checks for a device that three handlers share.
gate-IsDevice :
    (tls : Tls) (devid : String)
    → str_eq devid "" ≡ false
    → (authz_match_device tls devid ≡ false) ⊎ IsDevice tls devid
gate-IsDevice tls devid n = elim (Bool-cases (authz_match_device tls devid)) [
  | inl same ↦ inr (authz_match_device-IsDevice tls devid n same)
  | inr other ↦ inl other
]

for_device-gated :
    (call : String → Result ClientError Bytes) (tls : Tls) (devid : String) (granted : Bool)
    → IsRefused (for_device granted tls devid call new_writer) ⊎ IsDevice tls devid
unfolding for_device
for_device-gated call tls devid false = inl (refusal 403 (omega arith) (omega arith))
for_device-gated call tls devid true = elim (Bool-cases (str_eq devid "")) [
  | inl none_ ↦ rw none_ (inl (refusal 400 (omega arith) (omega arith)))
  | inr n ↦ elim (gate-IsDevice tls devid n) [
    | inl other ↦ rw (n, other) (inl (refusal 403 (omega arith) (omega arith)))
    | inr is ↦ inr is
  ]
]

get_nos_artifact-gated :
    (a : Artifacts) (cpc : AgentCalls) (tls : Tls) (platform devid : String) (granted : Bool)
    → IsRefused (get_nos_artifact a cpc granted tls platform devid new_writer) ⊎ IsDevice tls devid
unfolding get_nos_artifact
get_nos_artifact-gated a cpc tls platform devid false =
    inl (refusal 403 (omega arith) (omega arith))
get_nos_artifact-gated a cpc tls platform devid true = elim (Bool-cases (str_eq platform "")) [
  | inl none_ ↦ rw none_ (inl (refusal 404 (omega arith) (omega arith)))
  | inr p ↦ elim (Bool-cases (str_eq devid "")) [
    | inl none_ ↦ rw (p, none_) (inl (refusal 400 (omega arith) (omega arith)))
    | inr n ↦ elim (gate-IsDevice tls devid n) [
      | inl other ↦ rw (p, n, other) (inl (refusal 403 (omega arith) (omega arith)))
      | inr is ↦ inr is
    ]
  ]
]

module _ {Ec Rsa S : Type 0} (x509 : X509 Ec Rsa) (is_uuid : String → Bool) (b : Backend S)
    (a : Artifacts) (cpc : AgentCalls) (e : Embedders) where
  -- What a route may end with: an answer for an authorized client, or a refusal that leaves the
  -- registrations alone, and never a panic.
  Gated : SecureRoute → Tls → S → Type 0
  Gated route tls s =
      IsAuthorized route tls
      ⊎ ((w : Writer) × IsRefused w
          × (secure_handler x509 is_uuid b a cpc e route tls new_writer s ≡ some (w, s)))

  gate-Gated :
      (route : SecureRoute) (tls : Tls) (s : S) (w : Writer)
      → secure_handler x509 is_uuid b a cpc e route tls new_writer s ≡ some (w, s)
      → IsRefused w ⊎ IsAuthorized route tls
      → Gated route tls s
  unfolding Gated
  gate-Gated route tls s w h (inl refused) = inr (w, refused, h)
  gate-Gated route tls s w h (inr granted) = inl granted

  with_device :
      (tls : Tls) (w : Writer)
      → (stage2_authz tls ≡ false → IsRefused w)
      → IsRefused w ⊎ HasDevice tls
  with_device tls w refuses = elim (Bool-cases (stage2_authz tls)) [
    | inl granted ↦ inr (stage2_authz-HasDevice tls granted)
    | inr denied ↦ inl (refuses denied)
  ]

  -- The secure server answers a client that does not present what the route wants with one error document
  -- and a status from 400 to 404, and leaves the registrations alone. The routes of stage 1 and of the
  -- registration want TLS, all others a verified certificate with a common name, and that name is the device
  -- ID of the route for NOS artifacts, agent configurations and their kubeconfigs.
  pub secure_handler-IsAuthorized :
      (route : SecureRoute) (tls : Tls) (s : S)
      → IsAuthorized route tls
        ⊎ ((w : Writer) × IsRefused w
            × (secure_handler x509 is_uuid b a cpc e route tls new_writer s ≡ some (w, s)))
  unfolding secure_handler stage1_authz register_handler register_poll_handler Gated
  secure_handler-IsAuthorized (stage1_route arch) none s =
      inr (_, get_stage_artifact-ungranted a "stage1" arch false e.embed_stage1 refl, refl)
  secure_handler-IsAuthorized (stage1_route arch) (some peers) s = inl refl
  secure_handler-IsAuthorized (stage2_route arch) tls s =
      gate-Gated (stage2_route arch) tls s _ refl
        (with_device tls _ (get_stage_artifact-ungranted a "stage2" arch _ e.embed_stage2))
  secure_handler-IsAuthorized (provisioner_route arch) tls s =
      gate-Gated (provisioner_route arch) tls s _ refl (
        with_device tls _
          (get_stage_artifact-ungranted a "hedgehog-agent-provisioner" arch _ e.embed_provisioner))
  secure_handler-IsAuthorized (register_route has_content decoded) none s =
      inr (_, refusal 400 (omega arith) (omega arith), refl)
  secure_handler-IsAuthorized (register_route has_content decoded) (some peers) s = inl refl
  secure_handler-IsAuthorized (register_poll_route devid) none s =
      inr (_, refusal 400 (omega arith) (omega arith), refl)
  secure_handler-IsAuthorized (register_poll_route devid) (some peers) s = inl refl
  secure_handler-IsAuthorized (nos_route platform devid) tls s =
      gate-Gated (nos_route platform devid) tls s _ refl
        (get_nos_artifact-gated a cpc tls platform devid (stage2_authz tls))
  secure_handler-IsAuthorized (onie_route platform) tls s =
      gate-Gated (onie_route platform) tls s _ refl
        (with_device tls _ (get_onie_artifact-ungranted a platform _))
  secure_handler-IsAuthorized (agent_route devid) tls s =
      gate-Gated (agent_route devid) tls s _ refl
        (with_device tls _ (get_agent_artifact-ungranted a cpc devid _))
  secure_handler-IsAuthorized (agent_config_route devid) tls s =
      gate-Gated (agent_config_route devid) tls s _ refl (
        unfold get_agent_config_handler in
        for_device-gated cpc.get_agent_config tls devid (stage2_authz tls))
  secure_handler-IsAuthorized (agent_kubeconfig_route devid) tls s =
      gate-Gated (agent_kubeconfig_route devid) tls s _ refl (
        unfold get_agent_kubeconfig_handler in
        for_device-gated cpc.get_agent_kubeconfig tls devid (stage2_authz tls))
