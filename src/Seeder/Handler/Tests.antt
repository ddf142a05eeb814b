-- ===== src/Seeder/Handler/Tests.antt =====
-- Requests to the secure server, whose processor stands on the control plane.
use das_boot.Prelude.{
  Bool, Option, String, [], err, false, none, ok, refl, some, str_eq, ◌∷◌, ◌≡◌, ◌⊎◌,
}
use das_boot.Registration.{Backend}
use das_boot.Registration.ControlPlane.{control_plane_backend}
use das_boot.Seeder.Client.{absent_item}
use das_boot.Seeder.Handler.Artifacts.{AgentCalls, Artifacts}
use das_boot.Seeder.Handler.Authorized.{IsAuthorized, IsRefused, secure_handler-IsAuthorized}
use das_boot.Seeder.Handler.Exchange.{do_request-Refines, registration_call}
use das_boot.Seeder.Handler.Register.{delivered, do_request}
use das_boot.Seeder.Handler.Routes.{Embedders, SecureRoute, agent_config_route, secure_handler}
use das_boot.Seeder.Handler.Writer.{Document, Writer, new_writer}
use das_boot.Registration.{Request, Response}
use das_boot.Toys.{Slot, slot_api, toy_x509}

abbrev toy_backend : Backend Slot
toy_backend = control_plane_backend toy_x509 slot_api "default"

abbrev uuid_of_dev : String → Bool
uuid_of_dev s = str_eq s "dev"

abbrev toy_artifacts : Artifacts
toy_artifacts = record {
  get = λ name. some (record { readable = 1 ∷ []; fails = false });
  decode_agent = λ b. none;
}

abbrev toy_agent_calls : AgentCalls
toy_agent_calls = record {
  get_agent_config = λ devid. ok (4 ∷ []);
  get_agent_kubeconfig = λ devid. err absent_item;
}

abbrev toy_embedders : Embedders
toy_embedders = record {
  embed_stage1 = λ arch b. some b;
  embed_stage2 = λ arch b. some b;
  embed_provisioner = λ arch b. none;
}

-- A device with a certificate asks for another device's configuration.
abbrev foreign_route : SecureRoute
foreign_route = agent_config_route "dev2"

secure_handler-IsAuthorized_example :
    IsAuthorized foreign_route (some ("dev" ∷ []))
    ⊎ ((w : Writer) × IsRefused w
        × (secure_handler toy_x509 uuid_of_dev toy_backend toy_artifacts toy_agent_calls
              toy_embedders foreign_route
              (some ("dev" ∷ []))
              new_writer
              none
            ≡ some (w, none)))
secure_handler-IsAuthorized_example =
    secure_handler-IsAuthorized toy_x509 uuid_of_dev toy_backend toy_artifacts toy_agent_calls
      toy_embedders foreign_route (some ("dev" ∷ [])) none

abbrev no_other : Document → Option Response
no_other d = none

abbrev toy_submission : Request
toy_submission = record { device_id = "dev"; csr = some (1 ∷ 7 ∷ []); location_uuid = some "loc" }

do_request-Refines_example :
    do_request toy_x509 uuid_of_dev toy_backend no_other delivered [] toy_submission none
    ≡ registration_call toy_x509 uuid_of_dev toy_backend delivered toy_submission none
do_request-Refines_example =
    do_request-Refines toy_x509 uuid_of_dev toy_backend no_other delivered [] toy_submission none
      refl
