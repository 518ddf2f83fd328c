-- ===== src/Store/Events/Accounting/Steps.antt =====
-- internal/store/store.go: how many rows each statement of an observation adds or removes.
use omni_token.Prelude.{
  ℕ, ◌+◌, String, Bool, true, false, not, ◌&&◌, Option, some, [], ◌∷◌, ◌≡◌, refl, subst, inl, inr,
  arith, Pairs, Bool-cases, Option-cases, find_where, count_where, length, length-update_where,
  length-delete_where, count_where-All-false, All-find_where, ◌==◌, eq_iff, eq_refl, of_some,
  if◌then◌else◌,
}
use omni_token.Model.Event.{Event}
use omni_token.Store.Events.{
  key_fill_set, DeviceOrigin, Row, Table, has_id, owns_key, insert, update_row, drop_copy,
  key_owner,
}
use omni_token.Store.Events.Insert.{
  PriorEventState, Verdict, self_owns_key, is_copy, dropped, stays, against_owner, settle_fork,
  run_if, run_key_fill, key_fill, key_fill_clashes,
}
use omni_token.Store.Events.Keys.{OtherId}

pub length-run_if :
    (gate : Bool) (id : String) (guard : Row → Bool) (f : Row → Row) (t : Table)
    → length (run_if gate id guard f t).0 ≡ length t
unfolding run_if update_row
length-run_if true id guard f t = length-update_where _ f t
length-run_if false id guard f t = refl

pub length-insert :
    (received_at : ℕ) (origin : DeviceOrigin) (e : Event) (t : Table)
    → length (insert received_at origin e t).0
      ≡ length t + (if (insert received_at origin e t).1 then 1 else 0)
unfolding insert
length-insert received_at origin e t = ground arith

-- Ids are distinct, so a row that was found is the only one with its id.
pub count-has_id :
    (p : Row → Bool) (t : Table) (o : Row)
    → Pairs OtherId t
    → find_where p t ≡ some o
    → count_where (has_id o.event_id) t ≡ 1
unfolding find_where count_where
count-has_id p [] o w h = cc
count-has_id p (r ∷ t) o w h = elim (Bool-cases (p r)) [
  | inl hit ↦
      let same : r ≡ o = of_some (rw hit at h) in
      let rest = count_where-All-false (has_id r.event_id) t w.0 in
      subst (λ (x : Row). count_where (has_id x.event_id) (r ∷ t) ≡ 1) same
        (rw (eq_refl r.event_id) (omega (arith, rest)))
  | inr miss ↦
      let h' = rw miss at h in
      let apart : has_id r.event_id o ≡ false = All-find_where (OtherId r) p t h' w.0 in
      let other : has_id o.event_id r ≡ false =
        ground (arith, eq_iff o.event_id r.event_id, eq_iff r.event_id o.event_id) in
      rw other (omega (arith, count-has_id p t o w.1 h'))
]

-- What a step makes of the counters, from `L` rows on.
abbrev pub Verdict-Accounts : ℕ → Verdict → Type 0
Verdict-Accounts L (dropped t n) = length t + n ≡ L
Verdict-Accounts L (stays t stored n) = length t + n ≡ L + (if stored then 1 else 0)

module _ (received_at : ℕ) (origin : DeviceOrigin) (e : Event) where
  pub against_owner-Accounts :
      (t : Table)
      → Pairs OtherId t
      → Verdict-Accounts (length t) (against_owner received_at origin e t (key_owner e.dedup_key t))
  unfolding key_owner drop_copy
  against_owner-Accounts t w = elim (Option-cases (find_where (owns_key e.dedup_key) t)) [
    | inl unowned ↦ rw unowned (omega arith)
    | inr (o, found) ↦ rw found (elim (Bool-cases (o.event_id == e.event_id)) [
      | inl same ↦ rw same (omega arith)
      | inr other ↦ rw other (elim (Bool-cases (is_copy e o)) [
        | inl copy ↦ rw copy (length-delete_where (has_id e.event_id) t)
        | inr original ↦ rw original (
            omega (
              arith,
              length-delete_where (has_id o.event_id) t,
              count-has_id _ t o w found,
              length-insert received_at origin e (drop_copy o.event_id t).0,
            ))
      ])
    ])
  ]

  pub settle_fork-Accounts :
      (known : Option PriorEventState) (t : Table) (stored : Bool) (L : ℕ)
      → length t ≡ L + (if stored then 1 else 0)
      → Pairs OtherId t
      → Verdict-Accounts L (settle_fork received_at origin known e t stored)
  unfolding settle_fork
  settle_fork-Accounts known t true L h w = omega arith
  settle_fork-Accounts known t false L h w =
      elim (Bool-cases (not (e.dedup_key == "") && not (self_owns_key e known))) [
        | inl contested ↦ rw contested (
            subst
              (λ (n : ℕ).
                Verdict-Accounts n (against_owner received_at origin e t (key_owner e.dedup_key t)))
              (rows L h) (against_owner-Accounts t w))
        | inr settled ↦ rw settled (omega arith)
      ]
    where
      rows : (L : ℕ) → length t ≡ L + 0 → length t ≡ L
      rows L h = omega arith

pub length-key_fill :
    (known : Option PriorEventState) (e : Event) (t : Table) {s : Table × ℕ}
    → key_fill known e t ≡ some s
    → length s.0 ≡ length t
unfolding key_fill run_key_fill
length-key_fill known e t done = elim (Bool-cases (key_fill_clashes known e t)) [
  | inl clash ↦ cc (rw clash at done)
  | inr free ↦
      subst (λ (u : Table × ℕ). length u.0 ≡ length t) (of_some (rw free at done))
        (length-run_if _ _ _ (key_fill_set e) t)
]
