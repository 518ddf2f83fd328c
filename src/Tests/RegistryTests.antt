-- ===== src/Tests/RegistryTests.antt =====
-- Tests of Store/Registry.
use omni_token.Prelude.{
  String, true, false, ◌≡◌, inr, refl, List, [], ◌∷◌, find_where, update_where,
}
use omni_token.Store.Registry.{
  Devices, RegistryCall, register_call, touch_call, revoke_call, run_calls, authenticate_device,
  register_device, is_canonical_uuid, canonical_bytes,
}
use omni_token.Store.Registry.Machines.{
  Registry, PrincipalCall, registry_call, enroll_call, run_principal_calls, enroll_machine_device,
  bind_machine, rotate,
}
use omni_token.Store.Registry.Single.{IsSingle, run_principal_calls-IsSingle}
use omni_token.Store.Registry.Revoked.{IsRevoked, run_calls-authenticate_device}

abbrev hash : String → String
hash token = token

abbrev laptop : String
laptop = "aaaaaaaa-aaaa-4aaa-8aaa-aaaaaaaaaaaa"

abbrev devices : Devices
devices =
    record {
      device_id = laptop;
      display_name = "laptop";
      token_hash = "secret";
      capabilities = [];
      created_at = 1;
      last_seen_at = 2;
      revoked_at = 3;
    }
    ∷ []

abbrev calls : List RegistryCall
calls =
    touch_call laptop 9
    ∷ register_call laptop "again" "other" [] 10
    ∷ register_call "dddddddd-dddd-4ddd-8ddd-dddddddddddd" "phone" "third" [] 11
    ∷ revoke_call laptop 12
    ∷ []

devices-IsRevoked : IsRevoked laptop devices
unfolding find_where
devices-IsRevoked = record { known = refl; out = (inr refl, tt) }

run_calls-authenticate_device_example :
    authenticate_device hash laptop "secret" (run_calls hash calls devices) ≡ false
run_calls-authenticate_device_example =
    run_calls-authenticate_device hash laptop "secret" calls devices (tt, (tt, (tt, (refl, tt))))
      devices-IsRevoked

-- A live device is authenticated by its own token alone.
abbrev live : Devices
live =
    record {
      device_id = laptop;
      display_name = "laptop";
      token_hash = "secret";
      capabilities = [];
      created_at = 1;
      last_seen_at = 2;
      revoked_at = 0;
    }
    ∷ []

authenticated : authenticate_device hash laptop "secret" live ≡ true
unfolding authenticate_device find_where
authenticated = refl

refused : authenticate_device hash laptop "guess" live ≡ false
unfolding authenticate_device find_where
refused = refl

-- A machine takes over the legacy device by its own credential, then rotates it; another machine
-- that asks for the same device is refused.
abbrev desktop : String
desktop = "bbbbbbbb-bbbb-4bbb-8bbb-bbbbbbbbbbbb"

abbrev principals : List PrincipalCall
principals =
    enroll_call desktop laptop "laptop" "secret" [] 4
    ∷ enroll_call desktop desktop "renamed" "rotated" [] 5
    ∷ enroll_call "cccccccc-cccc-4ccc-8ccc-cccccccccccc" laptop "copy" "rotated" [] 6
    ∷ registry_call (register_call desktop "desktop" "rotated" [] 7)
    ∷ []

abbrev registry : Registry
registry = record { devices = live; bindings = [] }

rotated_once : run_principal_calls hash principals registry ≡ record {
  devices =
      record {
        device_id = laptop;
        display_name = "renamed";
        token_hash = "rotated";
        capabilities = [];
        created_at = 1;
        last_seen_at = 2;
        revoked_at = 0;
      }
      ∷ [];
  bindings = record { machine_id = desktop; device_id = laptop } ∷ [];
}
unfolding run_principal_calls enroll_machine_device register_device is_canonical_uuid
    canonical_bytes find_where update_where bind_machine rotate
rotated_once = refl

run_principal_calls-IsSingle_example : IsSingle (run_principal_calls hash principals registry)
run_principal_calls-IsSingle_example =
    run_principal_calls-IsSingle hash principals registry ((tt, tt), tt)
