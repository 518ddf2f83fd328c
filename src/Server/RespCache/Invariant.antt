-- ===== src/Server/RespCache/Invariant.antt =====
-- internal/server/respcache.go: what the table, the entries and the requests know of each other, and
-- that a new request keeps it.
use omni_token.Prelude.{
  ℕ, ◌≤◌, String, false, some, ◌≡◌, ◌≢◌, refl, sym, subst, inl, inr, arith, Bool-cases, eq_iff,
  eqb_iff, eqb_refl, ◌∙◌, of_some, ◌==◌, eqb, if◌then◌else◌,
}
use omni_token.Server.RespCache.{
  failure, EntryState, absent, flying, done, Phase, idle, computing, waiting, Cache, set_phase,
  set_entry, in_phase, miss,
}

pub record Inv (c : Cache) : Type 0 where
  pub sole :
      (q r : ℕ) (key key' : String) (e : ℕ)
      → c.phase q ≡ computing key e
      → c.phase r ≡ computing key' e
      → q ≡ r
  pub owned :
      (e : ℕ) → c.entry e ≡ flying → (r : ℕ) × (key : String) × (c.phase r ≡ computing key e)
  pub awaited : (r e : ℕ) → c.phase r ≡ waiting e → c.entry e ≢ absent
  pub computed : (r : ℕ) (key : String) (e : ℕ) → c.phase r ≡ computing key e → c.entry e ≡ flying
  pub fresh : (e : ℕ) → c.next_entry ≤ e → c.entry e ≡ absent
  pub keyed :
      (r : ℕ) (key key' : String) (e : ℕ)
      → c.phase r ≡ computing key e
      → c.table key' ≡ some e
      → key' ≡ key
  pub listed : (key : String) (e : ℕ) → c.table key ≡ some e → c.entry e ≢ absent
  pub served :
      (key : String) (e : ℕ) (why : String) (until : ℕ)
      → c.table key ≡ some e
      → c.entry e ≢ done (failure why) until

-- A request that was idle, or waited, is answered or waits.
module _ (c : Cache) (k : Inv c) (r : ℕ) where
  pub in_phase-Inv :
      (p : Phase)
      → ((key : String) (e : ℕ) → c.phase r ≢ computing key e)
      → ((key : String) (e : ℕ) → p ≢ computing key e)
      → ((e : ℕ) → p ≡ waiting e → c.entry e ≢ absent)
      → Inv (in_phase r p c)
  in_phase-Inv p before after held = record {
    sole = λ q q' key key' e here there. elim (Bool-cases (eqb q r)) [
      | inl same ↦ absurd (after key e (rw same at here))
      | inr other ↦ elim (Bool-cases (eqb q' r)) [
        | inl same' ↦ absurd (after key' e (rw same' at there))
        | inr other' ↦ k.sole q q' key key' e (rw other at here) (rw other' at there)
      ]
    ];
    owned = λ e up.
        let (q, key, busy) = k.owned e up in
        (
          q,
          key,
          elim (Bool-cases (eqb q r)) [
            | inl same ↦ absurd (before key e (rw (sym ((eqb_iff q r).0 same)) busy))
            | inr other ↦ rw other busy
          ],
        );
    awaited = λ q e here. elim (Bool-cases (eqb q r)) [
      | inl same ↦ held e (rw same at here)
      | inr other ↦ k.awaited q e (rw other at here)
    ];
    computed = λ q key e here. elim (Bool-cases (eqb q r)) [
      | inl same ↦ absurd (after key e (rw same at here))
      | inr other ↦ k.computed q key e (rw other at here)
    ];
    fresh = k.fresh;
    keyed = λ q key key' e here there. elim (Bool-cases (eqb q r)) [
      | inl same ↦ absurd (after key e (rw same at here))
      | inr other ↦ k.keyed q key key' e (rw other at here) there
    ];
    listed = k.listed;
    served = k.served;
  }

pub absent-not-flying : {v : EntryState} → v ≡ flying → v ≡ absent → ⊥
absent-not-flying h k = cc

module _ (c : Cache) (k : Inv c) (r : ℕ) (key : String) (start : c.phase r ≡ idle) where
  -- No request and no place of the table knows the new entry yet.
  unknown : (e : ℕ) → c.entry e ≢ absent → eqb e c.next_entry ≡ false
  unknown e there = elim (Bool-cases (eqb e c.next_entry)) [
    | inl same ↦
        absurd (there (rw ((eqb_iff e c.next_entry).0 same) (k.fresh c.next_entry (omega arith))))
    | inr other ↦ other
  ]

  not_absent : (e : ℕ) → c.entry e ≡ flying → c.entry e ≢ absent
  not_absent e up down = absent-not-flying up down

  miss-entry : (e : ℕ) → c.entry e ≢ absent → set_entry c.next_entry flying c.entry e ≡ c.entry e
  miss-entry e there = rw (unknown e there) refl

  pub miss-Inv : Inv (miss r key c)
  miss-Inv = record {
    sole = sole_after;
    owned = λ e up. elim (Bool-cases (eqb e c.next_entry)) [
      | inl new ↦ (r, key, rw (eqb_refl r, (eqb_iff e c.next_entry).0 new) refl)
      | inr old ↦
          let (q, key', busy) = k.owned e (rw old at up) in
          (
            q,
            key',
            elim (Bool-cases (eqb q r)) [
              | inl same ↦ absurd (cc (rw ((eqb_iff q r).0 same) at busy))
              | inr other ↦ rw other busy
            ],
          )
    ];
    awaited = λ q e here. elim (Bool-cases (eqb q r)) [
      | inl same ↦ absurd (cc (rw same at here))
      | inr other ↦
          let there = k.awaited q e (rw other at here) in
          λ gone. there (sym (miss-entry e there) ∙ gone)
    ];
    computed = λ q key' e here. elim (Bool-cases (eqb q r)) [
      | inl same ↦
          let new : c.next_entry ≡ e = entry_of (rw same at here) in
          rw (sym new, eqb_refl c.next_entry) refl
      | inr other ↦
          let up = k.computed q key' e (rw other at here) in miss-entry e (not_absent e up) ∙ up
    ];
    fresh = λ e beyond.
        let old : eqb e c.next_entry ≡ false = ground arith in
        rw old (k.fresh e (omega (arith, beyond)));
    keyed = λ q key' key'' e here there. keyed_after q key' key'' e here there;
    listed = λ key' e there. elim (Bool-cases (key' == key)) [
      | inl same ↦
          let new : c.next_entry ≡ e = of_some (rw same at there) in
          λ gone. absurd (cc (rw (sym new, eqb_refl c.next_entry) at gone))
      | inr other ↦
          let held = k.listed key' e (rw other at there) in
          λ gone. held (sym (miss-entry e held) ∙ gone)
    ];
    served = λ key' e why until there. elim (Bool-cases (key' == key)) [
      | inl same ↦
          let new : c.next_entry ≡ e = of_some (rw same at there) in
          λ failed. absurd (cc (rw (sym new, eqb_refl c.next_entry) at failed))
      | inr other ↦
          let held = k.listed key' e (rw other at there) in
          λ failed. k.served key' e why until (rw other at there) (sym (miss-entry e held) ∙ failed)
    ];
  }
    where
      entry_of : {a b : String} {e f : ℕ} → computing a e ≡ computing b f → e ≡ f
      entry_of h = cc

      at_new : (q : ℕ) (key' : String) (e : ℕ) → c.phase q ≡ computing key' e → c.next_entry ≡ e → ⊥
      at_new q key' e busy new =
          absent-not-flying (k.computed q key' e busy)
            (subst (λ f. c.entry f ≡ absent) (new) (k.fresh c.next_entry (omega arith)))

      sole_after :
          (q q' : ℕ) (key' key'' : String) (e : ℕ)
          → set_phase r (computing key c.next_entry) c.phase q ≡ computing key' e
          → set_phase r (computing key c.next_entry) c.phase q' ≡ computing key'' e
          → q ≡ q'
      sole_after q q' key' key'' e here there = elim (Bool-cases (eqb q r)) [
        | inl mine ↦ elim (Bool-cases (eqb q' r)) [
          | inl mine' ↦ (eqb_iff q r).0 mine ∙ sym ((eqb_iff q' r).0 mine')
          | inr theirs' ↦
              absurd (at_new q' key'' e (rw theirs' at there) (entry_of (rw mine at here)))
        ]
        | inr theirs ↦ elim (Bool-cases (eqb q' r)) [
          | inl mine' ↦ absurd (at_new q key' e (rw theirs at here) (entry_of (rw mine' at there)))
          | inr theirs' ↦ k.sole q q' key' key'' e (rw theirs at here) (rw theirs' at there)
        ]
      ]

      key_of : {a b : String} {e f : ℕ} → computing a e ≡ computing b f → a ≡ b
      key_of h = cc

      keyed_after :
          (q : ℕ) (key' key'' : String) (e : ℕ)
          → set_phase r (computing key c.next_entry) c.phase q ≡ computing key' e
          → (if key'' == key then some c.next_entry else c.table key'') ≡ some e
          → key'' ≡ key'
      keyed_after q key' key'' e here there = elim (Bool-cases (eqb q r)) [
        | inl mine ↦
            let same = rw mine at here in
            elim (Bool-cases (key'' == key)) [
              | inl listed ↦ (eq_iff key'' key).0 listed ∙ key_of same
              | inr other ↦ absurd (
                  k.listed key'' e (rw other at there) (
                    subst (λ f. c.entry f ≡ absent) (entry_of same)
                      (k.fresh c.next_entry (omega arith))))
            ]
        | inr theirs ↦
            let busy = rw theirs at here in
            elim (Bool-cases (key'' == key)) [
              | inl listed ↦ absurd (
                  absent-not-flying (k.computed q key' e busy) (
                    subst (λ f. c.entry f ≡ absent) (of_some (rw listed at there))
                      (k.fresh c.next_entry (omega arith))))
              | inr other ↦ k.keyed q key' key'' e busy (rw other at there)
            ]
      ]
