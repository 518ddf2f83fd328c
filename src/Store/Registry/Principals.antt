-- ===== src/Store/Registry/Principals.antt =====
-- internal/store/deviceregistry.go: device ids and credentials after one call.
use omni_token.Prelude.{
  ℕ, String, false, List, ◌≡◌, inl, inr, Bool-cases, Option-cases, ◌==◌, is_some, find_where,
  find_where-none-All, Pairs, Pairs-update_where,
}
use omni_token.Store.Registry.{
  DeviceRecord, Devices, by_id, clashes, insert_device, update_device, touched, described, revoked,
  touch_device, update_device_metadata, revoke_device, new_device, register_device,
  is_canonical_uuid, RegistryCall, register_call, touch_call, metadata_call, revoke_call,
  after_call, call_result,
}

-- The two rows share neither the device id nor the credential.
abbrev pub Unlike : DeviceRecord → DeviceRecord → Type 0
Unlike r q = clashes r q ≡ false

pub insert_device-Pairs :
    (new : DeviceRecord) (t : Devices)
    → Pairs Unlike t
    → Pairs Unlike (after_call t (insert_device new t))
insert_device-Pairs new t h = elim (Option-cases (find_where (clashes new) t)) [
  | inl fresh ↦ rw fresh (find_where-none-All (clashes new) t fresh, h)
  | inr (r, there) ↦ rw there h
]

update_device-Pairs :
    (id : String) (f : DeviceRecord → DeviceRecord) (t : Devices)
    → ((r q : DeviceRecord) → Unlike r q → Unlike (f r) q)
    → ((r q : DeviceRecord) → Unlike r q → Unlike r (f q))
    → Pairs Unlike t
    → Pairs Unlike (after_call t (update_device id f t))
update_device-Pairs id f t left right h = elim (Bool-cases (is_some (find_where (by_id id) t))) [
  | inl there ↦ rw there (Pairs-update_where Unlike (by_id id) f t left right h)
  | inr missing ↦ rw missing h
]

module _ (hash : String → String) where
  register_device-Pairs :
      (id name token : String) (capabilities : List String) (at : ℕ) (t : Devices)
      → Pairs Unlike t
      → Pairs Unlike (after_call t (register_device hash id name token capabilities at t))
  unfolding register_device
  register_device-Pairs id name token capabilities at t h =
      elim (Bool-cases (is_canonical_uuid id)) [
        | inr invalid ↦ rw invalid h
        | inl valid ↦ elim (Bool-cases (token == "")) [
          | inl absent ↦ rw (valid, absent) h
          | inr given ↦
              rw (valid, given)
                (insert_device-Pairs (new_device hash id name token capabilities at) t h)
        ]
      ]

  pub call_result-Pairs :
      (c : RegistryCall) (t : Devices)
      → Pairs Unlike t
      → Pairs Unlike (after_call t (call_result hash c t))
  unfolding touch_device update_device_metadata revoke_device
  call_result-Pairs (register_call id name token capabilities at) t h =
      register_device-Pairs id name token capabilities at t h
  call_result-Pairs (touch_call id at) t h =
      update_device-Pairs id (touched at) t (λ r q k. k) (λ r q k. k) h
  call_result-Pairs (metadata_call id name capabilities) t h =
      update_device-Pairs id (described name capabilities) t (λ r q k. k) (λ r q k. k) h
  call_result-Pairs (revoke_call id at) t h =
      update_device-Pairs id (revoked at) t (λ r q k. k) (λ r q k. k) h
