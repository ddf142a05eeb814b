-- ===== src/Seeder/Client/Agent.antt =====
-- `GetAgentConfig` and `GetAgentKubeconfig` of controlplane/client.go.
use das_boot.Prelude.GoMap
use das_boot.Prelude.{Bytes, Option, Result, String, err, ok, or_error, ◌>>=◌}
use das_boot.Kube.{Api, ApiError, other_failure, unregistered}
use das_boot.Seeder.Client.Defs.{Client, ClientError, absent_item, api_failed, unencodable}
use das_boot.Seeder.Client.Find.{get_switch_by_device_id}
use das_boot.Seeder.Wiring.{Cluster}

-- An agent object as YAML, where it can be encoded, and the data of a secret.
pub record AgentStore : Type 0 where
  pub get_agent : String → String → Result ApiError (Option Bytes)
  pub get_secret : String → String → Result ApiError (GoMap.Map Bytes)

-- `IsNotFound` becomes `ErrNotFound`, any other error is passed on.
abbrev found_or_absent {ℓ} : {A : Type ℓ} → Result ApiError A → Result ClientError A
found_or_absent (ok a) = ok a
found_or_absent (err unregistered) = err absent_item
found_or_absent (err other_failure) = err (api_failed other_failure)

module _ {A : Type 0} (api : Api A) (cluster : Cluster) (c : Client) (store : AgentStore) where
  unfoldable pub get_agent_config : A → String → Result ClientError Bytes
  get_agent_config s device_id = do
    sw ← get_switch_by_device_id api cluster c s device_id
    encoded ← found_or_absent (store.get_agent sw.namespace sw.name)
    or_error encoded unencodable

  unfoldable pub get_agent_kubeconfig : A → String → Result ClientError Bytes
  get_agent_kubeconfig s device_id = do
    sw ← get_switch_by_device_id api cluster c s device_id
    entries ← found_or_absent (store.get_secret sw.namespace sw.name)
    or_error (GoMap.get entries "kubeconfig") absent_item
