-- ===== src/Toys.antt =====
-- Small instances of the parameters, for the tests: a certificate authority over numbers, and an API
-- server that holds at most one object.
use mathlib.Core.Path.{subst}
use mathlib.Core.Option.{some-injective}
use das_boot.Prelude.{
  Bool, Bytes, Option, Result, String, [], arith, eq_iff, err, if◌then◌else◌, none, ok, refl, some,
  str_eq, ℕ, ◌&&◌, ◌==◌, ◌∷◌, ◌≡◌, ◌≢◌,
}
use das_boot.Controller.Settles.{SigningLaws}
use das_boot.Kube.{Api, ApiError, ApiLaws, DeviceRegistration, unregistered}
use das_boot.Pki.{Csr, PublicKey, Template, X509, ecdsa}
use das_boot.Registration.Local.{Authority}

-- A CSR is its key behind a 1, always for the device "dev"; a certificate is its key behind a 9.
abbrev pub toy_csr : Bytes → Option (Csr ℕ ℕ)
toy_csr (one ∷ key ∷ []) =
    if one == 1 then some (record { common_name = "dev"; public_key = ecdsa key }) else none
toy_csr _ = none

abbrev pub toy_certificate_key : Bytes → Option (PublicKey ℕ ℕ)
toy_certificate_key (nine ∷ key ∷ []) = if nine == 9 then some (ecdsa key) else none
toy_certificate_key _ = none

abbrev pub toy_create : ℕ → Template → PublicKey ℕ ℕ → Option Bytes
toy_create r t (ecdsa key) = some (9 ∷ key ∷ [])
toy_create r t _ = none

abbrev pub toy_x509 : X509 ℕ ℕ
toy_x509 = record {
  parse_certificate_request = toy_csr;
  certificate_key = toy_certificate_key;
  ec_equal = ◌==◌;
  rsa_equal = ◌==◌;
  ecdh_bytes = λ k. some (k ∷ []);
  sha1 = λ b. b;
  create_certificate = toy_create;
}

abbrev pub toy_authority : Authority
toy_authority = record { now = 1000; serial = 1; randomness = 0 }

toy_create_ne_nil :
    (r : ℕ) (t : Template) (k : PublicKey ℕ ℕ) (der : Bytes)
    → toy_create r t k ≡ some der
    → der ≢ []
toy_create_ne_nil r t k der h = ground arith

toy_created_key :
    (r : ℕ) (t : Template) (k : PublicKey ℕ ℕ) (der : Bytes)
    → toy_create r t k ≡ some der
    → toy_certificate_key der ≡ some k
toy_created_key r t (ecdsa key) der h =
    subst (λ (d : Bytes). toy_certificate_key d ≡ some (ecdsa key)) (some-injective _ der h) refl
toy_created_key r t _ der h = ground arith

pub toy_signing : SigningLaws toy_x509
toy_signing = record {
  created_ne_nil = toy_create_ne_nil;
  created_key = toy_created_key;
  ec_equal_refl = λ k. ground arith;
}

abbrev pub Slot : Type 0
Slot = Option DeviceRegistration

abbrev pub is_called : DeviceRegistration → String → String → Bool
is_called r namespace name = str_eq r.namespace namespace && str_eq r.name name

abbrev pub slot_get : Slot → String → String → Result ApiError DeviceRegistration
slot_get none namespace name = err unregistered
slot_get (some r) namespace name = if is_called r namespace name then ok r else err unregistered

abbrev pub slot_update : Slot → DeviceRegistration → Result ApiError Slot
slot_update none r = err unregistered
slot_update (some old) r =
    if is_called old r.namespace r.name
    then ok (some (record old { certificate = r.certificate }))
    else err unregistered

abbrev pub slot_api : Api Slot
slot_api = record {
  get = slot_get;
  create = λ s r. ok (some (record r { certificate = [] }));
  update_status = slot_update;
}

slot_get-create :
    (s s' : Slot) (r : DeviceRegistration)
    → slot_api.create s r ≡ ok s'
    → slot_get s' r.namespace r.name ≡ ok (record r { certificate = [] })
slot_get-create s s' r h = ground (arith, eq_iff r.namespace r.namespace, eq_iff r.name r.name)

slot_get-update :
    (s s' : Slot) (old r : DeviceRegistration)
    → slot_get s r.namespace r.name ≡ ok old
    → slot_update s r ≡ ok s'
    → slot_get s' r.namespace r.name ≡ ok (record old { certificate = r.certificate })
slot_get-update (some x) s' old r g h = ground arith
slot_get-update none s' old r g h = ground arith

slot_named :
    (s : Slot) (namespace name : String) (r : DeviceRegistration)
    → slot_get s namespace name ≡ ok r
    → (r.namespace ≡ namespace) × (r.name ≡ name)
slot_named (some x) namespace name r h =
    ground (arith, eq_iff x.namespace namespace, eq_iff x.name name)
slot_named none namespace name r h = ground arith

pub slot_laws : ApiLaws slot_api
slot_laws = record {
  get-create = slot_get-create;
  get-update_status = slot_get-update;
  named = slot_named;
}
