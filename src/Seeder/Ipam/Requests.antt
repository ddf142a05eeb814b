-- ===== src/Seeder/Ipam/Requests.antt =====
-- What a request that passed its validation may still fail on.
use das_boot.Prelude.{Bool, String, arith, false, is_empty, ok, str_eq, true, ◌↔◌, ◌≡◌, ◌⊎◌}
use das_boot.Seeder.Ipam.Defs.{Request, is_supported_arch, validate}

-- A request is accepted exactly if it has a supported architecture, a UUID as the device's, no location or
-- a UUID for it with a signature that is not empty, and at least one interface.
pub validate_iff :
    (is_uuid : String → Bool) (r : Request)
    → (validate is_uuid r ≡ ok tt) ↔ (
        (is_supported_arch r.arch ≡ true)
        × (is_uuid r.dev_id ≡ true)
        × ((str_eq r.location_uuid "" ≡ true)
            ⊎ ((is_uuid r.location_uuid ≡ true) × (is_empty r.location_uuid_signature ≡ false)))
        × (is_empty r.interfaces ≡ false))
unfolding validate
validate_iff is_uuid r = ground arith
