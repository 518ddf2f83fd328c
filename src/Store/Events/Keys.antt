-- ===== src/Store/Events/Keys.antt =====
-- The two uniqueness constraints of `events`: the primary key, and the partial unique index over
-- the dedup keys that are not empty.
use omni_token.Prelude.{
  String, Bool, true, false, ◌&&◌, some, [], ◌∷◌, ◌≡◌, refl, inl, inr, arith, All, Pairs,
  Bool-cases, All-update_where, All-delete_where, All-mono, All-find_where, count_where-All-false,
  update_where-count_zero, find_where, count_where, update_where, delete_where, ◌==◌, eq_iff,
  eq_refl, of_some,
}
use omni_token.Model.Event.{Event}
use omni_token.Store.Events.{Row, Table, has_id, owns_key, key_fill_guard, key_fill_set}

abbrev pub OtherId : Row → Row → Type 0
OtherId r q = has_id r.event_id q ≡ false

abbrev pub OtherKey : Row → Row → Type 0
OtherKey r q = owns_key r.dedup_key q ≡ false

pub record IsWellKeyed (t : Table) : Type 0 where
  pub ids : Pairs OtherId t
  pub keys : Pairs OtherKey t

abbrev pub Unowned : String → Table → Type 0
Unowned key = All (λ (r : Row). owns_key key r ≡ false)

-- The owner of a key is alone, so no row owns the key once the owner is deleted.
pub Unowned-delete_owner :
    (key : String) (t : Table) (o : Row)
    → Pairs OtherKey t
    → find_where (owns_key key) t ≡ some o
    → Unowned key (delete_where (has_id o.event_id) t)
unfolding find_where delete_where
Unowned-delete_owner key [] o h e = cc
Unowned-delete_owner key (r ∷ t) o h e = elim (Bool-cases (owns_key key r)) [
  | inl owns ↦
      let same : r ≡ o = of_some (rw owns at e) in
      let named : r.dedup_key ≡ key = ground (arith, eq_iff r.dedup_key key) in
      let gone : has_id o.event_id r ≡ true = rw same (eq_refl o.event_id) in
      rw gone (All-delete_where _ _ t (rw named at h.0))
  | inr other ↦
      let rest = Unowned-delete_owner key t o h.1 (rw other at e) in
      elim (Bool-cases (has_id o.event_id r)) [
        | inl hit ↦ rw hit rest
        | inr miss ↦ rw miss (other, rest)
      ]
]

abbrev pub fill_hit : Event → Row → Bool
fill_hit e r = has_id e.event_id r && key_fill_guard r

no_fill_hit :
    (e : Event) (t : Table)
    → All (λ (q : Row). has_id e.event_id q ≡ false) t
    → count_where (fill_hit e) t ≡ 0
no_fill_hit e t h =
    count_where-All-false (fill_hit e) t
      (All-mono (λ (q : Row). has_id e.event_id q ≡ false) _ t (λ q m. rw m) h)

module _ (e : Event) where
  -- A row that owns a key has nothing for the backfill to write.
  pub fill_hit-owner :
      (key : String) (t : Table) (o : Row)
      → Pairs OtherId t
      → find_where (owns_key key) t ≡ some o
      → has_id e.event_id o ≡ true
      → count_where (fill_hit e) t ≡ 0
  unfolding find_where count_where
  fill_hit-owner key [] o h found hit = refl
  fill_hit-owner key (r ∷ t) o h found hit = elim (Bool-cases (owns_key key r)) [
    | inl owns ↦
        let same : r ≡ o = of_some (rw owns at found) in
        let id : r.event_id ≡ e.event_id = rw same ((eq_iff o.event_id e.event_id).0 hit) in
        let full : (r.dedup_key == "") ≡ false = ground arith in
        let later : count_where (fill_hit e) t ≡ 0 = no_fill_hit e t (rw id at h.0) in ground arith
    | inr other ↦
        let found' = rw other at found in
        let apart : has_id r.event_id o ≡ false = All-find_where (OtherId r) _ t found' h.0 in
        let miss : has_id e.event_id r ≡ false = ground (
          arith,
          eq_iff r.event_id e.event_id,
          eq_iff o.event_id e.event_id,
          eq_iff o.event_id r.event_id,
        ) in
        rw miss (omega (arith, fill_hit-owner key t o h.1 found' hit))
  ]

  abbrev Fill : Table → Table
  Fill = update_where (fill_hit e) (key_fill_set e)

  OtherKey-fill :
      (r q : Row)
      → owns_key e.dedup_key r ≡ false
      → (e.dedup_key == "") ≡ false
      → OtherKey r (key_fill_set e q)
  OtherKey-fill r q free set =
      ground (arith, eq_iff e.dedup_key r.dedup_key, eq_iff r.dedup_key e.dedup_key)

  -- The backfill of a key that no row owns keeps the keys apart.
  pub Pairs-OtherKey-fill :
      (t : Table)
      → (e.dedup_key == "") ≡ false
      → Pairs OtherId t
      → Pairs OtherKey t
      → Unowned e.dedup_key t
      → Pairs OtherKey (Fill t)
  unfolding update_where
  Pairs-OtherKey-fill [] set ids keys free = tt
  Pairs-OtherKey-fill (r ∷ t) set ids keys free = elim (Bool-cases (fill_hit e r)) [
    | inl hit ↦
        let id : r.event_id ≡ e.event_id = ground (arith, eq_iff r.event_id e.event_id) in
        let same : Fill t ≡ t =
          update_where-count_zero (fill_hit e) (key_fill_set e) t
            (no_fill_hit e t (rw id at ids.0)) in
        rw hit (rw same (free.1, keys.1))
    | inr miss ↦
        let later =
          All-update_where (OtherKey r) (fill_hit e) (key_fill_set e) t
            (λ q other. OtherKey-fill r q free.0 set) keys.0 in
        rw miss (later, Pairs-OtherKey-fill t set ids.1 keys.1 free.1)
  ]
