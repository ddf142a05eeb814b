-- ===== src/Seeder/Handler/Routes.antt =====
-- `secureHandler`: the routes and their handlers. `none` is a panic of the processor, which the Recoverer
-- of chi answers.
use das_boot.Prelude.{Bool, Bytes, Option, String, some}
use das_boot.Pki.{X509}
use das_boot.Registration.{Backend}
use das_boot.Seeder.Handler.Access.{Tls, stage1_authz, stage2_authz}
use das_boot.Seeder.Handler.Artifacts.{
  AgentCalls, Artifacts, get_agent_artifact, get_agent_config_handler, get_agent_kubeconfig_handler,
  get_nos_artifact, get_onie_artifact, get_stage_artifact,
}
use das_boot.Seeder.Handler.Register.{register_handler, register_poll_handler}
use das_boot.Seeder.Handler.Writer.{Writer}
use das_boot.Registration.{Request}

pub data SecureRoute : Type 0 where
  stage1_route stage2_route provisioner_route : String → SecureRoute
  register_route : Bool → Option Request → SecureRoute
  register_poll_route : String → SecureRoute
  nos_route : String → String → SecureRoute
  onie_route agent_route agent_config_route agent_kubeconfig_route : String → SecureRoute

-- The configurations that `embedStage1Config` and its siblings embed.
pub record Embedders : Type 0 where
  pub embed_stage1 : String → Bytes → Option Bytes
  pub embed_stage2 : String → Bytes → Option Bytes
  pub embed_provisioner : String → Bytes → Option Bytes

module _ {Ec Rsa S : Type 0} (x509 : X509 Ec Rsa) (is_uuid : String → Bool) (b : Backend S)
    (a : Artifacts) (cpc : AgentCalls) (e : Embedders) where
  unfoldable pub secure_handler : SecureRoute → Tls → Writer → S → Option (Writer × S)
  secure_handler (stage1_route arch) tls w s =
      some (get_stage_artifact a "stage1" (stage1_authz tls) e.embed_stage1 arch w, s)
  secure_handler (stage2_route arch) tls w s =
      some (get_stage_artifact a "stage2" (stage2_authz tls) e.embed_stage2 arch w, s)
  secure_handler (register_route has_content decoded) tls w s =
      register_handler x509 is_uuid b tls has_content decoded w s
  secure_handler (register_poll_route devid) tls w s =
      register_poll_handler x509 is_uuid b tls devid w s
  secure_handler (nos_route platform devid) tls w s =
      some (get_nos_artifact a cpc (stage2_authz tls) tls platform devid w, s)
  secure_handler (onie_route platform) tls w s =
      some (get_onie_artifact a (stage2_authz tls) platform w, s)
  secure_handler (provisioner_route arch) tls w s = some (
    get_stage_artifact a "hedgehog-agent-provisioner" (stage2_authz tls) e.embed_provisioner arch w,
    s,
  )
  secure_handler (agent_route devid) tls w s =
      some (get_agent_artifact a cpc (stage2_authz tls) devid w, s)
  secure_handler (agent_config_route devid) tls w s =
      some (get_agent_config_handler cpc (stage2_authz tls) tls devid w, s)
  secure_handler (agent_kubeconfig_route devid) tls w s =
      some (get_agent_kubeconfig_handler cpc (stage2_authz tls) tls devid w, s)
