-- ===== src/Store/Registry/Single.antt =====
-- internal/store/deviceregistry.go and machineidentity.go: device ids, credentials and the bindings of
-- machines over any calls.
use omni_token.Prelude.{
  ℕ, not, String, false, List, [], ◌∷◌, ◌≡◌, inl, inr, Bool-cases, Option-cases, ◌==◌, ◌||◌, Option,
  none, some, All, arith, find_where, find_where-none-All, Pairs,
}
use omni_token.Store.Registry.{
  Registered, DeviceRecord, Devices, by_id, new_device, is_canonical_uuid, after_call,
}
use omni_token.Store.Registry.Machines.{
  Binding, Registry, EnrollError, by_machine, by_device, bind_machine, bound_of, canonical_of,
  is_elsewhere, is_revoked, is_foreign, write_device, after_bind, after_write, at_device,
  at_machine, enroll_machine_device, PrincipalCall, registry_call, enroll_call, after_enroll,
  run_principal_calls,
}
use omni_token.Fallible.{Fallible, ok, err}
use omni_token.Store.Registry.Principals.{Unlike, insert_device-Pairs, call_result-Pairs}
use omni_token.Store.Registry.Rotation.{rotate-Pairs}

-- No machine has two bindings, and no device is bound to two machines.
abbrev pub OtherBinding : Binding → Binding → Type 0
OtherBinding b c = (by_machine b.machine_id c || by_device b.device_id c) ≡ false

-- Neither table has two rows for one principal.
abbrev pub IsSingle : Registry → Type 0
IsSingle g = Pairs Unlike g.devices × Pairs OtherBinding g.bindings

AllBound : Option (List Binding) → Type 0
AllBound none = Unit
AllBound (some bindings) = Pairs OtherBinding bindings

fresh_binding :
    (machine device : String) (bindings : List Binding)
    → All (λ b. by_machine machine b ≡ false) bindings
    → All (λ b. by_device device b ≡ false) bindings
    → All (OtherBinding (record { machine_id = machine; device_id = device })) bindings
fresh_binding machine device [] h k = tt
fresh_binding machine device (b ∷ bindings) h k =
    (ground (arith, h.0, k.0), fresh_binding machine device bindings h.1 k.1)

bind_machine-AllBound :
    (machine device : String) (bindings : List Binding)
    → Pairs OtherBinding bindings
    → AllBound (bind_machine machine device bindings)
unfolding bind_machine AllBound
bind_machine-AllBound machine device bindings h =
    elim (Option-cases (find_where (by_machine machine) bindings)) [
      | inr (b, there) ↦ rw there h
      | inl new ↦ elim (Option-cases (find_where (by_device device) bindings)) [
        | inr (b, there) ↦ rw (new, there) tt
        | inl free ↦
            rw (new, free)
              (
                fresh_binding machine device bindings
                    (find_where-none-All (by_machine machine) bindings new)
                    (find_where-none-All (by_device device) bindings free),
                h,
              )
      ]
    ]

module _ (hash : String → String) (g : Registry) (single : IsSingle g) where
  abbrev Enrolled : Fallible EnrollError (DeviceRecord × Registry) → Type 0
  Enrolled o = IsSingle (after_enroll g o)

  after_bind-Enrolled :
      (device : DeviceRecord) (t : Devices) (o : Option (List Binding))
      → Pairs Unlike t
      → AllBound o
      → Enrolled (after_bind hash device t o)
  unfolding AllBound
  after_bind-Enrolled device t none h k = single
  after_bind-Enrolled device t (some bindings) h k = (h, k)

  after_write-Enrolled :
      (machine id : String) (device : DeviceRecord) (o : Registered Devices)
      → Pairs Unlike (after_call g.devices o)
      → Enrolled (after_write hash machine id device g.bindings o)
  after_write-Enrolled machine id device (err why) h = single
  after_write-Enrolled machine id device (ok t) h =
      after_bind-Enrolled device t (bind_machine machine id g.bindings) h
        (bind_machine-AllBound machine id g.bindings single.1)

  write_device-Pairs :
      (id name token : String) (capabilities : List String) (at : ℕ) (o : Option DeviceRecord)
      → Pairs Unlike
          (after_call g.devices (write_device hash id name token capabilities at o g.devices))
  write_device-Pairs id name token capabilities at none =
      insert_device-Pairs (new_device hash id name token capabilities at) g.devices single.0
  write_device-Pairs id name token capabilities at (some r) =
      rotate-Pairs hash id name token capabilities g.devices single.0

  at_device-Enrolled :
      (machine bound id name token : String) (capabilities : List String) (at : ℕ)
      (o : Option DeviceRecord)
      → Enrolled (at_device hash machine bound id name token capabilities at g o)
  at_device-Enrolled machine bound id name token capabilities at o =
      elim (Bool-cases (is_revoked o)) [
        | inl gone ↦ rw gone single
        | inr live ↦ elim (Bool-cases (is_foreign hash bound token o)) [
          | inl foreign ↦ rw (live, foreign) single
          | inr own ↦
              rw (live, own)
                (after_write-Enrolled machine id _ _
                  (write_device-Pairs id name token capabilities at o))
        ]
      ]

  enroll-Enrolled :
      (machine requested name token : String) (capabilities : List String) (at : ℕ)
      → Enrolled (enroll_machine_device hash machine requested name token capabilities at g)
  unfolding enroll_machine_device
  enroll-Enrolled machine requested name token capabilities at =
      elim (Bool-cases (
        not (is_canonical_uuid machine)
        || not (is_canonical_uuid requested)
        || token == ""
        || name == "")) [
          | inl invalid ↦ rw invalid single
          | inr valid ↦ rw valid (bound (find_where (by_machine machine) g.bindings))
        ]
    where
      bound :
          (b : Option Binding)
          → Enrolled (at_machine hash machine requested name token capabilities at g b)
      bound b = elim (Bool-cases (is_elsewhere machine requested b)) [
        | inl other ↦ rw other single
        | inr here ↦ rw here (
            at_device-Enrolled machine (bound_of b) (canonical_of requested b) name token
              capabilities at (find_where (by_id (canonical_of requested b)) g.devices))
      ]

module _ (hash : String → String) where
  -- Registrations, touches, updates of metadata, revocations and enrolments of machines, which
  -- rotate credentials, in any order and however each one ends: no two devices share a device id or
  -- the digest of a credential, and no two bindings share a machine or a device, if none did before.
  pub run_principal_calls-IsSingle :
      (cs : List PrincipalCall) (g : Registry)
      → IsSingle g
      → IsSingle (run_principal_calls hash cs g)
  unfolding run_principal_calls
  run_principal_calls-IsSingle [] g h = h
  run_principal_calls-IsSingle (registry_call c ∷ cs) g h =
      run_principal_calls-IsSingle cs _ (call_result-Pairs hash c g.devices h.0, h.1)
  run_principal_calls-IsSingle (enroll_call machine requested name token capabilities at ∷ cs) g h =
      run_principal_calls-IsSingle cs _
        (enroll-Enrolled hash g h machine requested name token capabilities at)
