-- ===== src/Seeder/Handler/Artifacts.antt =====
-- secure_handler.go: the handlers that serve artifacts and configurations. A missing parameter of the
-- route is the empty text.
use Prim.Native.String.{◌++◌ as str_append}
use das_boot.Prelude.{
  Bool, Bytes, Option, Result, String, err, false, if◌then◌else◌, none, not, ok, some, str_eq, true,
}
use das_boot.Seeder.Client.{ClientError, absent_item, call}
use das_boot.Seeder.Handler.Access.{Tls, authz_match_device}
use das_boot.Seeder.Handler.Writer.{Writer, contents, error_with_json, write, write_header}

-- A reader of an artifact: what can be read, and whether reading then ends with an error.
pub record Reader : Type 0 where
  pub readable : Bytes
  pub fails : Bool

-- The versions in an agent's specification.
pub record AgentVersions : Type 0 where
  pub nos_version : String
  pub default_version : String
  pub override_version : String

-- `artifactsProvider.Get`, and `yaml.Unmarshal` of an agent's configuration: an error, or a pointer that
-- is nil for the document null.
pub record Artifacts : Type 0 where
  pub get : String → Option Reader
  pub decode_agent : Bytes → Option (Option AgentVersions)

-- The two calls of the control plane client.
pub record AgentCalls : Type 0 where
  pub get_agent_config : String → Result ClientError Bytes
  pub get_agent_kubeconfig : String → Result ClientError Bytes

-- `errors.Is(err, controlplane.ErrNotFound)`
abbrev is_not_found : ClientError → Bool
is_not_found absent_item = true
is_not_found _ = false

unfoldable pub control_plane_error : ClientError → Writer → Writer
control_plane_error e w = if is_not_found e then error_with_json 404 w else error_with_json 500 w

abbrev pub text_append : String → String → String
text_append s t = str_append s t

-- `name`, and a colon and the version if there is one.
unfoldable pub versioned_name : String → String → String
versioned_name name version =
    if str_eq version "" then name else text_append name (text_append ":" version)

unfoldable pub chosen_version : AgentVersions → String
chosen_version v =
    if not (str_eq v.override_version "") then v.override_version else v.default_version

module _ (a : Artifacts) where
  -- An error while copying is only logged.
  unfoldable pub get_artifact : String → Writer → Writer
  get_artifact name w = elim (a.get name) [
    | none ↦ error_with_json 404 w
    | some f ↦ write (contents f.readable) (write_header 200 w)
  ]

  embedded : Option Bytes → Writer → Writer
  embedded none w = error_with_json 500 w
  embedded (some bytes) w = write (contents bytes) (write_header 200 w)

  -- The arguments are the artifact's name, whether the access is granted and how a configuration is
  -- embedded for an architecture.
  unfoldable pub get_stage_artifact :
      String → Bool → (String → Bytes → Option Bytes) → String → Writer → Writer
  unfolding embedded
  get_stage_artifact artifact granted embed arch w =
      if not granted
      then error_with_json 403 w
      else if str_eq arch ""
      then error_with_json 404 w
      else (elim (a.get (text_append artifact (text_append "-" arch))) [
        | none ↦ error_with_json 404 w
        | some f ↦ if f.fails then error_with_json 500 w else embedded (embed arch f.readable) w
      ])

  unfoldable pub get_onie_artifact : Bool → String → Writer → Writer
  get_onie_artifact granted platform w =
      if not granted
      then error_with_json 403 w
      else if str_eq platform ""
      then error_with_json 404 w
      else get_artifact (text_append "onie/" platform) w

  module _ (cpc : AgentCalls) where
    -- What the Recoverer of chi answers when a handler panics, before it has written anything.
    abbrev recovered : Writer → Writer
    recovered w = write_header 500 w

    -- An artifact whose name depends on the agent's configuration.
    configured_artifact : (AgentVersions → String) → Result ClientError Bytes → Writer → Writer
    configured_artifact name (err e) w = control_plane_error e w
    configured_artifact name (ok cfg) w = elim (a.decode_agent cfg) [
      | none ↦ error_with_json 500 w
      | some none ↦ recovered w
      | some (some v) ↦ get_artifact (name v) w
    ]

    unfoldable pub get_nos_artifact : Bool → Tls → String → String → Writer → Writer
    unfolding configured_artifact
    get_nos_artifact granted tls platform devid w =
        if not granted
        then error_with_json 403 w
        else if str_eq platform ""
        then error_with_json 404 w
        else if str_eq devid ""
        then error_with_json 400 w
        else if not (authz_match_device tls devid)
        then error_with_json 403 w
        else configured_artifact (λ v. versioned_name (text_append "sonic/" platform) v.nos_version)
            (cpc.get_agent_config devid) w

    unfoldable pub get_agent_artifact : Bool → String → Writer → Writer
    unfolding configured_artifact
    get_agent_artifact granted devid w =
        if not granted
        then error_with_json 403 w
        else if str_eq devid ""
        then error_with_json 400 w
        else configured_artifact (λ v. versioned_name "fabric/agent" (chosen_version v))
            (cpc.get_agent_config devid) w

served : Result ClientError Bytes → Writer → Writer
served (err e) w = control_plane_error e w
served (ok cfg) w = write (contents cfg) (write_header 200 w)

-- The common shape of the next two.
unfoldable pub for_device :
    Bool → Tls → String → (String → Result ClientError Bytes) → Writer → Writer
unfolding served
for_device granted tls devid call w =
    if not granted
    then error_with_json 403 w
    else if str_eq devid ""
    then error_with_json 400 w
    else if not (authz_match_device tls devid)
    then error_with_json 403 w
    else served (call devid) w

unfoldable pub get_agent_config_handler : AgentCalls → Bool → Tls → String → Writer → Writer
unfolding for_device
get_agent_config_handler cpc granted tls devid w =
    for_device granted tls devid cpc.get_agent_config w

unfoldable pub get_agent_kubeconfig_handler : AgentCalls → Bool → Tls → String → Writer → Writer
unfolding for_device
get_agent_kubeconfig_handler cpc granted tls devid w =
    for_device granted tls devid cpc.get_agent_kubeconfig w
