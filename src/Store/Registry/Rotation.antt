-- ===== src/Store/Registry/Rotation.antt =====
-- internal/store/machineidentity.go: a rotation of a credential keeps credentials apart.
use omni_token.Prelude.{
  String, false, List, [], ◌∷◌, ◌≡◌, inl, inr, Bool-cases, Option-cases, ◌==◌, true, All, arith,
  eq_iff, updated, Pairs-updated, find_where, find_where-none-All, Pairs,
}
use omni_token.Store.Registry.{DeviceRecord, Devices, by_id, after_call}
use omni_token.Store.Registry.Machines.{has_credential, rotated, rotate}
use omni_token.Store.Registry.Principals.{Unlike}

-- The row has not the credential, or is the device itself.
abbrev IsFree : String → String → DeviceRecord → Type 0
IsFree id digest r = has_credential id digest r ≡ false

module _ {A : Type 0} (F : A → Type 0) (R : A → A → Type 0) where
  abbrev BothIn : A → A → Type 0
  BothIn r q = R r q × F r × F q

  All-in : (r : A) (t : List A) → F r → All (R r) t → All F t → All (BothIn r) t
  All-in r [] f h k = tt
  All-in r (q ∷ t) f h k = ((h.0, f, k.0), All-in r t f h.1 k.1)

  Pairs-in : (t : List A) → All F t → Pairs R t → Pairs BothIn t
  Pairs-in [] f h = tt
  Pairs-in (r ∷ t) f h = (All-in r t f.0 h.0 f.1, Pairs-in t f.1 h.1)

module _ (hash : String → String) (id name token : String) (capabilities : List String) where
  turned : DeviceRecord → DeviceRecord
  turned = updated Unlike Unlike (by_id id) (rotated hash name token capabilities)

  turned-Unlike :
      (r q : DeviceRecord)
      → BothIn (IsFree id (hash token)) Unlike r q
      → Unlike (turned r) (turned q)
  unfolding turned
  turned-Unlike r q (apart, free_r, free_q) = elim (Bool-cases (by_id id r)) [
    | inl r_own ↦ elim (Bool-cases (by_id id q)) [
      | inl q_own ↦
          let together : (q.device_id == r.device_id) ≡ true =
            ground (
              arith,
              eq_iff r.device_id id,
              eq_iff q.device_id id,
              eq_iff q.device_id r.device_id,
            ) in
          cc (rw together at apart)
      | inr q_other ↦ rw (r_own, q_other) (ground (arith, apart, rw q_other at free_q))
    ]
    | inr r_other ↦ elim (Bool-cases (by_id id q)) [
      | inl q_own ↦
          rw (r_other, q_own)
            (ground (
              arith,
              apart,
              rw r_other at free_r,
              eq_iff r.token_hash (hash token),
              eq_iff (hash token) r.token_hash,
            ))
      | inr q_other ↦ rw (r_other, q_other) apart
    ]
  ]

  pub rotate-Pairs :
      (t : Devices)
      → Pairs Unlike t
      → Pairs Unlike (after_call t (rotate hash id name token capabilities t))
  unfolding rotate turned
  rotate-Pairs t h = elim (Option-cases (find_where (has_credential id (hash token)) t)) [
    | inr (r, taken) ↦ rw taken h
    | inl free ↦ rw free (
        Pairs-updated (BothIn (IsFree id (hash token)) Unlike) Unlike (by_id id)
          (rotated hash name token capabilities) t turned-Unlike
          (Pairs-in (IsFree id (hash token)) Unlike t
            (find_where-none-All (has_credential id (hash token)) t free) h))
  ]
