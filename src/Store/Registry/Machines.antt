-- ===== src/Store/Registry/Machines.antt =====
-- internal/store/machineidentity.go: the enrolment of a machine, which registers a device or rotates
-- the credential of the one it is bound to. Encoding a list of capabilities does not fail.
use omni_token.Prelude.{
  ℕ, String, Bool, false, not, ◌&&◌, ◌||◌, Option, none, some, List, [], ◌∷◌, ◌==◌, eqb, is_some,
  if◌then◌else◌, find_where, update_where,
}
use omni_token.Fallible.{Fallible, ok, err}
use omni_token.Store.Registry.{
  DeviceRecord, RegistryError, Registered, Devices, is_canonical_uuid, by_id, insert_device,
  new_device, RegistryCall, after_call, call_result, register_device, touch_device,
  update_device_metadata, revoke_device,
}

-- A row of `device_machine_bindings`.
pub record Binding : Type 0 where
  pub machine_id : String
  pub device_id : String

pub record Registry : Type 0 where
  pub devices : Devices
  pub bindings : List Binding

pub data EnrollError : Type 0 where
  invalid_enrollment machine_conflict device_revoked legacy_conflict : EnrollError
  device_constraint binding_constraint : EnrollError

abbrev pub by_machine : String → Binding → Bool
by_machine machine b = b.machine_id == machine

abbrev pub by_device : String → Binding → Bool
by_device device b = b.device_id == device

-- The device that the machine is bound to, or no text.
abbrev pub bound_of : Option Binding → String
bound_of none = ""
bound_of (some b) = b.device_id

abbrev pub canonical_of : String → Option Binding → String
canonical_of requested none = requested
canonical_of requested (some b) = b.device_id

abbrev pub is_elsewhere : String → String → Option Binding → Bool
is_elsewhere machine requested none = false
is_elsewhere machine requested (some b) =
    not (requested == b.device_id) && not (requested == machine)

abbrev pub is_revoked : Option DeviceRecord → Bool
is_revoked none = false
is_revoked (some r) = not (eqb r.revoked_at 0)

-- ON CONFLICT(machine_id) DO NOTHING; a device that another machine has is an error.
unfoldable pub bind_machine : String → String → List Binding → Option (List Binding)
bind_machine machine device bindings =
    if is_some (find_where (by_machine machine) bindings)
    then some bindings
    else if is_some (find_where (by_device device) bindings)
    then none
    else some (record { machine_id = machine; device_id = device } ∷ bindings)

-- Another device has the credential, so the UPDATE fails.
abbrev pub has_credential : String → String → DeviceRecord → Bool
has_credential id digest r = not (by_id id r) && r.token_hash == digest

module _ (hash : String → String) where
  abbrev pub rotated : String → String → List String → DeviceRecord → DeviceRecord
  rotated name token capabilities r = record r {
    display_name = name;
    token_hash = hash token;
    capabilities = capabilities;
  }

  unfoldable pub rotate : String → String → String → List String → Devices → Registered Devices
  rotate id name token capabilities t =
      if is_some (find_where (has_credential id (hash token)) t)
      then err RegistryError.constraint
      else ok (update_where (by_id id) (rotated name token capabilities) t)

  -- First-time binding of a device that is there needs its own credential.
  abbrev pub is_foreign : String → String → Option DeviceRecord → Bool
  is_foreign bound token none = false
  is_foreign bound token (some r) = bound == "" && not (r.token_hash == hash token)

  abbrev pub write_device :
      String
      → String
      → String
      → List String
      → ℕ
      → Option DeviceRecord
      → Devices
      → Registered Devices
  write_device id name token capabilities created_at none t =
      insert_device (new_device hash id name token capabilities created_at) t
  write_device id name token capabilities created_at (some r) t =
      rotate id name token capabilities t

  abbrev pub enrolled_record :
      String → String → String → List String → ℕ → Option DeviceRecord → DeviceRecord
  enrolled_record id name token capabilities created_at none =
      new_device hash id name token capabilities created_at
  enrolled_record id name token capabilities created_at (some r) = rotated name token capabilities r

  abbrev pub after_bind :
      DeviceRecord
      → Devices
      → Option (List Binding)
      → Fallible EnrollError (DeviceRecord × Registry)
  after_bind device t none = err binding_constraint
  after_bind device t (some bindings) = ok (device, record { devices = t; bindings = bindings })

  abbrev pub after_write :
      String
      → String
      → DeviceRecord
      → List Binding
      → Registered Devices
      → Fallible EnrollError (DeviceRecord × Registry)
  after_write machine id device bindings (err why) = err device_constraint
  after_write machine id device bindings (ok t) =
      after_bind device t (bind_machine machine id bindings)

  abbrev pub at_device :
      String
      → String
      → String
      → String
      → String
      → List String
      → ℕ
      → Registry
      → Option DeviceRecord
      → Fallible EnrollError (DeviceRecord × Registry)
  at_device machine bound id name token capabilities created_at g o =
      if is_revoked o
      then err device_revoked
      else if is_foreign bound token o
      then err legacy_conflict
      else after_write machine id (enrolled_record id name token capabilities created_at o)
          g.bindings (write_device id name token capabilities created_at o g.devices)

  abbrev pub at_machine :
      String
      → String
      → String
      → String
      → List String
      → ℕ
      → Registry
      → Option Binding
      → Fallible EnrollError (DeviceRecord × Registry)
  at_machine machine requested name token capabilities created_at g b =
      if is_elsewhere machine requested b
      then err machine_conflict
      else at_device machine (bound_of b) (canonical_of requested b) name token capabilities
          created_at g (find_where (by_id (canonical_of requested b)) g.devices)

  unfoldable pub enroll_machine_device :
      String
      → String
      → String
      → String
      → List String
      → ℕ
      → Registry
      → Fallible EnrollError (DeviceRecord × Registry)
  unfolding is_canonical_uuid bind_machine rotate
  enroll_machine_device machine requested name token capabilities created_at g =
      if not (is_canonical_uuid machine)
        || not (is_canonical_uuid requested)
        || token == ""
        || name == ""
      then err invalid_enrollment
      else at_machine machine requested name token capabilities created_at g
          (find_where (by_machine machine) g.bindings)

-- Every call that writes to the two tables.
pub data PrincipalCall : Type 0 where
  registry_call : RegistryCall → PrincipalCall
  enroll_call : String → String → String → String → List String → ℕ → PrincipalCall

abbrev pub after_enroll : Registry → Fallible EnrollError (DeviceRecord × Registry) → Registry
after_enroll g (err why) = g
after_enroll g (ok (device, g')) = g'

module _ (hash : String → String) where
  abbrev pub principal_call : PrincipalCall → Registry → Registry
  principal_call (registry_call c) g = record g {
    devices = after_call g.devices (call_result hash c g.devices);
  }
  principal_call (enroll_call machine requested name token capabilities created_at) g =
      after_enroll g
        (enroll_machine_device hash machine requested name token capabilities created_at g)

  unfoldable pub run_principal_calls : List PrincipalCall → Registry → Registry
  unfolding register_device touch_device update_device_metadata revoke_device enroll_machine_device
  run_principal_calls [] g = g
  run_principal_calls (c ∷ cs) g = run_principal_calls cs (principal_call c g)
