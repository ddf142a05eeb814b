-- ===== src/Kube.antt =====
-- pkg/k8s/api/v1alpha1: the custom resource, and what the code calls of the Kubernetes API.
-- The API server is a parameter: its state is `S`, and a call returns an error or the next state.
use das_boot.Prelude.{Bytes, Result, String, [], ok, ◌≡◌}

-- `DeviceRegistration`: name and namespace of the metadata, the spec and the status.
pub record DeviceRegistration : Type 0 where
  pub namespace : String
  pub name : String
  pub location_uuid : String
  pub csr : Bytes
  pub certificate : Bytes

-- `apierrors.IsNotFound` tells the first from all others.
pub data ApiError : Type 0 where
  unregistered other_failure : ApiError

-- `client.Get`, `client.Create` and `client.Status().Update`.
pub record Api (S : Type 0) : Type 0 where
  pub get : S → String → String → Result ApiError DeviceRegistration
  pub create : S → DeviceRegistration → Result ApiError S
  pub update_status : S → DeviceRegistration → Result ApiError S

-- What the API server documents. A created object is read back with its status dropped; an update
-- of the status changes nothing of the object but its status.
pub record ApiLaws {S : Type 0} (api : Api S) : Type 0 where
  pub get-create :
      (s s' : S) (r : DeviceRegistration)
      → api.create s r ≡ ok s'
      → api.get s' r.namespace r.name ≡ ok (record r { certificate = [] })
  pub get-update_status :
      (s s' : S) (old r : DeviceRegistration)
      → api.get s r.namespace r.name ≡ ok old
      → api.update_status s r ≡ ok s'
      → api.get s' r.namespace r.name ≡ ok (record old { certificate = r.certificate })
  -- an object is found under its own name
  pub named :
      (s : S) (namespace name : String) (r : DeviceRegistration)
      → api.get s namespace name ≡ ok r
      → (r.namespace ≡ namespace) × (r.name ≡ name)
