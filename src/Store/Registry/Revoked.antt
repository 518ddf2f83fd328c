-- ===== src/Store/Registry/Revoked.antt =====
-- internal/store/deviceregistry.go: a revoked device over any calls, and the keys of the table.
use omni_token.Prelude.{
  ℕ, String, Bool, true, false, Option, none, some, List, [], ◌∷◌, ◌≡◌, ◌⊎◌, inl, inr, refl, arith,
  Bool-cases, ◌==◌, eq_iff, eqb, is_some, find_where, update_where, find_where-some, All,
  All-update_where, All-find_where,
}
use omni_token.Store.Registry.{
  DeviceRecord, Devices, by_id, clashes, insert_device, update_device, touched, described, revoked,
  touch_device, update_device_metadata, revoke_device, new_device, register_device,
  is_canonical_uuid, matches_record, authenticate_device, RegistryCall, register_call, touch_call,
  metadata_call, revoke_call, after_call, call_result, run_calls,
}

-- The row is another device's, or revoked.
abbrev pub IsOut : String → DeviceRecord → Type 0
IsOut id r = (by_id id r ≡ false) ⊎ (eqb r.revoked_at 0 ≡ false)

-- The device is registered and revoked.
pub record IsRevoked (id : String) (t : Devices) : Type 0 where
  pub known : is_some (find_where (by_id id) t) ≡ true
  pub out : All (IsOut id) t

-- A revocation is at a time after the epoch.
abbrev pub IsDated : RegistryCall → Type 0
IsDated (revoke_call id at) = eqb at 0 ≡ false
IsDated _ = Unit

is_some-update_where :
    (p q : DeviceRecord → Bool) (f : DeviceRecord → DeviceRecord) (t : Devices)
    → ((r : DeviceRecord) → q (f r) ≡ q r)
    → is_some (find_where q t) ≡ true
    → is_some (find_where q (update_where p f t)) ≡ true
unfolding find_where update_where
is_some-update_where p q f [] keep h = h
is_some-update_where p q f (r ∷ t) keep h = elim (Bool-cases (q r)) [
  | inl here ↦ elim (Bool-cases (p r)) [
    | inl hit ↦ rw (hit, keep r, here) refl
    | inr miss ↦ rw (miss, here) refl
  ]
  | inr later ↦
      let k : is_some (find_where q t) ≡ true = rw later at h in
      elim (Bool-cases (p r)) [
        | inl hit ↦ rw (hit, keep r, later) (is_some-update_where p q f t keep k)
        | inr miss ↦ rw (miss, later) (is_some-update_where p q f t keep k)
      ]
]

update_device-IsRevoked :
    (id other : String) (f : DeviceRecord → DeviceRecord) (t : Devices)
    → ((r : DeviceRecord) → by_id id (f r) ≡ by_id id r)
    → ((r : DeviceRecord) → IsOut id r → IsOut id (f r))
    → IsRevoked id t
    → IsRevoked id (after_call t (update_device other f t))
update_device-IsRevoked id other f t keep out h =
    elim (Bool-cases (is_some (find_where (by_id other) t))) [
      | inl there ↦ rw there (record {
        known = is_some-update_where (by_id other) (by_id id) f t keep h.known;
        out = All-update_where (IsOut id) (by_id other) f t out h.out;
      })
      | inr missing ↦ rw missing h
    ]

-- A device id that is there clashes with a new row under it.
clashing :
    (id : String) (new : DeviceRecord) (t : Devices)
    → by_id id new ≡ true
    → is_some (find_where (by_id id) t) ≡ true
    → is_some (find_where (clashes new) t) ≡ true
unfolding find_where
clashing id new [] same h = h
clashing id new (r ∷ t) same h = elim (Bool-cases (by_id id r)) [
  | inl here ↦
      let hit : clashes new r ≡ true = ground (
        arith,
        same,
        here,
        eq_iff new.device_id id,
        eq_iff r.device_id id,
        eq_iff r.device_id new.device_id,
      ) in
      rw hit refl
  | inr later ↦ elim (Bool-cases (clashes new r)) [
    | inl hit ↦ rw hit refl
    | inr miss ↦ rw miss (clashing id new t same (rw later at h))
  ]
]

insert_device-IsRevoked :
    (id : String) (new : DeviceRecord) (t : Devices)
    → IsRevoked id t
    → IsRevoked id (after_call t (insert_device new t))
unfolding find_where
insert_device-IsRevoked id new t h = elim (Bool-cases (is_some (find_where (clashes new) t))) [
  | inl clash ↦ rw clash h
  | inr fresh ↦ elim (Bool-cases (by_id id new)) [
    | inr other ↦ rw fresh (record { known = rw other h.known; out = (inl other, h.out) })
    | inl same ↦ cc (clashing id new t same h.known, fresh)
  ]
]

module _ (hash : String → String) where
  register_device-IsRevoked :
      (id other name token : String) (capabilities : List String) (at : ℕ) (t : Devices)
      → IsRevoked id t
      → IsRevoked id (after_call t (register_device hash other name token capabilities at t))
  unfolding register_device
  register_device-IsRevoked id other name token capabilities at t h =
      elim (Bool-cases (is_canonical_uuid other)) [
        | inr invalid ↦ rw invalid h
        | inl valid ↦ elim (Bool-cases (token == "")) [
          | inl absent ↦ rw (valid, absent) h
          | inr given ↦
              rw (valid, given)
                (insert_device-IsRevoked id (new_device hash other name token capabilities at) t h)
        ]
      ]

  call_result-IsRevoked :
      (id : String) (c : RegistryCall) (t : Devices)
      → IsDated c
      → IsRevoked id t
      → IsRevoked id (after_call t (call_result hash c t))
  unfolding touch_device update_device_metadata revoke_device
  call_result-IsRevoked id (register_call other name token capabilities at) t dated h =
      register_device-IsRevoked id other name token capabilities at t h
  call_result-IsRevoked id (touch_call other at) t dated h =
      update_device-IsRevoked id other (touched at) t (λ r. refl) (λ r k. k) h
  call_result-IsRevoked id (metadata_call other name capabilities) t dated h =
      update_device-IsRevoked id other (described name capabilities) t (λ r. refl) (λ r k. k) h
  call_result-IsRevoked id (revoke_call other at) t dated h =
      update_device-IsRevoked id other (revoked at) t (λ r. refl) (λ r k. inr dated) h

  run_calls-IsRevoked :
      (id : String) (cs : List RegistryCall) (t : Devices)
      → All IsDated cs
      → IsRevoked id t
      → IsRevoked id (run_calls hash cs t)
  unfolding run_calls
  run_calls-IsRevoked id [] t dated h = h
  run_calls-IsRevoked id (c ∷ cs) t dated h =
      run_calls-IsRevoked id cs _ dated.1 (call_result-IsRevoked id c t dated.0 h)

  matches_record-IsOut :
      (id token : String) (t : Devices) (o : Option DeviceRecord)
      → find_where (by_id id) t ≡ o
      → All (IsOut id) t
      → matches_record hash token o ≡ false
  matches_record-IsOut id token t none looked h = refl
  matches_record-IsOut id token t (some r) looked h =
      elim (All-find_where (IsOut id) (by_id id) t looked h) [
        | inl other ↦ cc (find_where-some (by_id id) t r looked, other)
        | inr gone ↦ ground (arith, gone)
      ]

  -- Once a device is revoked, no token authenticates it after any sequence of registrations,
  -- touches, metadata updates and dated revocations, the same device id registered again included.
  pub run_calls-authenticate_device :
      (id token : String) (cs : List RegistryCall) (t : Devices)
      → All IsDated cs
      → IsRevoked id t
      → authenticate_device hash id token (run_calls hash cs t) ≡ false
  unfolding authenticate_device
  run_calls-authenticate_device id token cs t dated h =
      matches_record-IsOut id token (run_calls hash cs t) _ refl
        (run_calls-IsRevoked id cs t dated h).out
