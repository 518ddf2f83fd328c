-- ===== src/Store/Registry.antt =====
-- internal/store/deviceregistry.go: the table `devices`. The SHA-256 digest of a token, in hexadecimal,
-- is a parameter, and so the comparison of two digests is that of their texts. A capability list is
-- kept decoded.
pub mod Revoked
pub mod Machines
pub mod Principals
pub mod Rotation
pub mod Single
pub use omni_token.Fallible.{Fallible, ok, err}
use omni_token.Prelude.{
  ℕ, zero, suc, max, String, Bool, true, false, not, ◌&&◌, ◌||◌, Option, none, some, List, [], ◌∷◌,
  ◌==◌, eqb, leb, is_some, if◌then◌else◌, find_where, update_where, length,
}
use omni_token.Model.Envelope.{codes}

pub record DeviceRecord : Type 0 where
  pub device_id : String
  pub display_name : String
  pub token_hash : String
  pub capabilities : List String
  pub created_at : ℕ
  pub last_seen_at : ℕ
  pub revoked_at : ℕ

pub data RegistryError : Type 0 where
  device_not_found invalid_device_id token_required constraint : RegistryError

abbrev pub Registered : Type 0 → Type 0
Registered A = Fallible RegistryError A

abbrev pub Devices : Type 0
Devices = List DeviceRecord

abbrev is_dash_at : ℕ → List ℕ → Bool
is_dash_at i [] = false
is_dash_at zero (c ∷ cs) = eqb c b'-'
is_dash_at (suc i) (c ∷ cs) = is_dash_at i cs

-- The loop of `isCanonicalUUID` from the index on.
unfoldable pub canonical_bytes : ℕ → List ℕ → Bool
canonical_bytes i [] = true
canonical_bytes i (c ∷ cs) =
    ((eqb i 8 || eqb i 13 || eqb i 18 || eqb i 23)
      || (leb b'0' c && leb c b'9')
      || (leb b'a' c && leb c b'f'))
    && canonical_bytes (suc i) cs

unfoldable pub is_canonical_uuid : String → Bool
unfolding canonical_bytes
is_canonical_uuid value =
    let cs = codes value in
    eqb (length cs) 36
    && is_dash_at 8 cs
    && is_dash_at 13 cs
    && is_dash_at 18 cs
    && is_dash_at 23 cs
    && not (value == "00000000-0000-0000-0000-000000000000")
    && canonical_bytes 0 cs

abbrev pub by_id : String → DeviceRecord → Bool
by_id id r = r.device_id == id

-- The INSERT refuses a device id or a credential that is there.
abbrev pub clashes : DeviceRecord → DeviceRecord → Bool
clashes new r = r.device_id == new.device_id || r.token_hash == new.token_hash

abbrev pub insert_device : DeviceRecord → Devices → Registered Devices
insert_device new t = if is_some (find_where (clashes new) t) then err constraint else ok (new ∷ t)

-- An UPDATE of one device, and `requireAffectedDevice`.
abbrev pub update_device : String → (DeviceRecord → DeviceRecord) → Devices → Registered Devices
update_device id f t =
    if is_some (find_where (by_id id) t)
    then ok (update_where (by_id id) f t)
    else err device_not_found

abbrev pub touched : ℕ → DeviceRecord → DeviceRecord
touched received_at r = record r { last_seen_at = max r.last_seen_at received_at }

unfoldable pub touch_device : String → ℕ → Devices → Registered Devices
touch_device id received_at t = update_device id (touched received_at) t

abbrev pub described : String → List String → DeviceRecord → DeviceRecord
described name capabilities r = record r { display_name = name; capabilities = capabilities }

unfoldable pub update_device_metadata : String → String → List String → Devices → Registered Devices
update_device_metadata id name capabilities t = update_device id (described name capabilities) t

abbrev pub revoked : ℕ → DeviceRecord → DeviceRecord
revoked at r = record r { revoked_at = at }

unfoldable pub revoke_device : String → ℕ → Devices → Registered Devices
revoke_device id at t = update_device id (revoked at) t

module _ (hash : String → String) where
  abbrev pub new_device : String → String → String → List String → ℕ → DeviceRecord
  new_device id name token capabilities created_at = record {
    device_id = id;
    display_name = name;
    token_hash = hash token;
    capabilities = capabilities;
    created_at = created_at;
    last_seen_at = 0;
    revoked_at = 0;
  }

  unfoldable pub register_device :
      String → String → String → List String → ℕ → Devices → Registered Devices
  unfolding is_canonical_uuid
  register_device id name token capabilities created_at t =
      if not (is_canonical_uuid id)
      then err invalid_device_id
      else if token == ""
      then err token_required
      else insert_device (new_device id name token capabilities created_at) t

  abbrev pub matches_record : String → Option DeviceRecord → Bool
  matches_record token none = false
  matches_record token (some r) = r.token_hash == hash token && eqb r.revoked_at 0

  unfoldable pub authenticate_device : String → String → Devices → Bool
  authenticate_device id token t = matches_record token (find_where (by_id id) t)

-- The calls that change the table.
pub data RegistryCall : Type 0 where
  register_call : String → String → String → List String → ℕ → RegistryCall
  touch_call : String → ℕ → RegistryCall
  metadata_call : String → String → List String → RegistryCall
  revoke_call : String → ℕ → RegistryCall

-- The table after a statement, which changes nothing if it fails.
abbrev pub after_call : Devices → Registered Devices → Devices
after_call t (err e) = t
after_call t (ok t') = t'

module _ (hash : String → String) where
  abbrev pub call_result : RegistryCall → Devices → Registered Devices
  call_result (register_call id name token capabilities at) t =
      register_device hash id name token capabilities at t
  call_result (touch_call id at) t = touch_device id at t
  call_result (metadata_call id name capabilities) t = update_device_metadata id name capabilities t
  call_result (revoke_call id at) t = revoke_device id at t

  unfoldable pub run_calls : List RegistryCall → Devices → Devices
  unfolding register_device touch_device update_device_metadata revoke_device
  run_calls [] t = t
  run_calls (c ∷ cs) t = run_calls cs (after_call t (call_result c t))
