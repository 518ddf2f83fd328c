-- ===== src/Server/RespCache/Finish.antt =====
-- internal/server/respcache.go: the invariant when a computation returns.
use omni_token.Prelude.{
  ℕ, ◌+◌, String, true, ◌&&◌, Option, some, ◌≡◌, ◌≢◌, sym, ap, subst, inl, inr, Bool-cases, eqb_iff,
  eqb_refl, eq_refl, ◌∙◌, ◌==◌, eqb,
}
use omni_token.Server.RespCache.{
  Answer, body, failure, absent, done, computing, Cache, set_entry, is_entry, without_failed,
  expiry, finish,
}
use omni_token.Server.RespCache.Invariant.{Inv, absent-not-flying}

done-not-absent : {a : Answer} {n : ℕ} → done a n ≢ absent
done-not-absent h = cc

-- What the table lists after a computation was listed before it.
without_failed-some :
    (key key' : String) (e f : ℕ) (answer : Answer) (table : String → Option ℕ)
    → without_failed key e answer table key' ≡ some f
    → table key' ≡ some f
without_failed-some key key' e f (body text) table h = h
without_failed-some key key' e f (failure why) table h =
    elim (Bool-cases (key' == key && is_entry e (table key))) [
      | inl dropped ↦ absurd (cc (rw dropped at h))
      | inr kept ↦ rw kept at h
    ]

-- A failed entry is not listed under its own key.
without_failed-none :
    (key : String) (e : ℕ) (why : String) (table : String → Option ℕ)
    → without_failed key e (failure why) table key ≢ some e
without_failed-none key e why table h = elim (Bool-cases (is_entry e (table key))) [
  | inl here ↦ absurd (cc (rw (eq_refl key, here) at h))
  | inr away ↦
      let same : table key ≡ some e = rw (eq_refl key, away) at h in
      let mine : is_entry e (table key) ≡ true = rw same (eqb_refl e) in
      absurd (cc (rw mine at away))
]

module _ (c : Cache) (k : Inv c) (ttl r : ℕ) (key : String) (e : ℕ) (answer : Answer)
    (busy : c.phase r ≡ computing key e) where
  pub finish-Inv : Inv (finish ttl r key e answer c)
  unfolding finish
  finish-Inv = record {
    sole = λ q q' key' key'' f here there. elim (Bool-cases (eqb q r)) [
      | inl mine ↦ absurd (cc (rw mine at here))
      | inr theirs ↦ elim (Bool-cases (eqb q' r)) [
        | inl mine' ↦ absurd (cc (rw mine' at there))
        | inr theirs' ↦ k.sole q q' key' key'' f (rw theirs at here) (rw theirs' at there)
      ]
    ];
    owned = λ f up. elim (Bool-cases (eqb f e)) [
      | inl same ↦ absurd (cc (rw same at up))
      | inr other ↦
          let (q, key', at_work) = k.owned f (rw other at up) in
          (
            q,
            key',
            elim (Bool-cases (eqb q r)) [
              | inl mine ↦
                  let same : e ≡ f =
                    entry_of (sym busy ∙ ap c.phase (sym ((eqb_iff q r).0 mine)) ∙ at_work) in
                  absurd (cc (rw (sym same, eqb_refl e) at other))
              | inr theirs ↦ rw theirs at_work
            ],
          )
    ];
    awaited = λ q f here. elim (Bool-cases (eqb q r)) [
      | inl mine ↦ absurd (cc (rw mine at here))
      | inr theirs ↦ written f (k.awaited q f (rw theirs at here))
    ];
    computed = λ q key' f here. elim (Bool-cases (eqb q r)) [
      | inl mine ↦ absurd (cc (rw mine at here))
      | inr theirs ↦ elim (Bool-cases (eqb f e)) [
        | inl same ↦
            let again : c.phase q ≡ computing key' e =
              (rw theirs at here) ∙ ap (λ g. computing key' g) ((eqb_iff f e).0 same) in
            let one = k.sole q r key' key e again busy in
            absurd (cc (rw (one, eqb_refl r) at theirs))
        | inr other ↦ rw other (k.computed q key' f (rw theirs at here))
      ]
    ];
    fresh = λ f beyond. elim (Bool-cases (eqb f e)) [
      | inl same ↦ absurd (
          absent-not-flying (k.computed r key e busy)
            (subst (λ g. c.entry g ≡ absent) ((eqb_iff f e).0 same) (k.fresh f beyond)))
      | inr other ↦ rw other (k.fresh f beyond)
    ];
    keyed = λ q key' key'' f here there. elim (Bool-cases (eqb q r)) [
      | inl mine ↦ absurd (cc (rw mine at here))
      | inr theirs ↦
          k.keyed q key' key'' f (rw theirs at here)
            (without_failed-some key key'' e f answer c.table there)
    ];
    listed = λ key' f there.
        written f (k.listed key' f (without_failed-some key key' e f answer c.table there));
    served = λ key' f why until there failed. served_after answer key' f why until there failed;
  }
    where
      entry_of : {a b : String} {f g : ℕ} → computing a f ≡ computing b g → f ≡ g
      entry_of h = cc

      written :
          (f : ℕ)
          → c.entry f ≢ absent
          → set_entry e (done answer (expiry (c.clock + ttl) answer)) c.entry f ≢ absent
      written f there = elim (Bool-cases (eqb f e)) [
        | inl same ↦ λ gone. done-not-absent (rw same at gone)
        | inr other ↦ λ gone. there (rw other at gone)
      ]

      served_after :
          (answer : Answer) (key' : String) (f : ℕ) (why : String) (until : ℕ)
          → without_failed key e answer c.table key' ≡ some f
          → set_entry e (done answer (expiry (c.clock + ttl) answer)) c.entry f
            ≡ done (failure why) until
          → ⊥
      served_after (body text) key' f why until there failed = elim (Bool-cases (eqb f e)) [
        | inl same ↦ absurd (cc (rw same at failed))
        | inr other ↦ k.served key' f why until there (rw other at failed)
      ]
      served_after (failure other_why) key' f why until there failed = elim (Bool-cases (eqb f e)) [
        | inl same ↦
            let at_e : without_failed key e (failure other_why) c.table key' ≡ some e =
              there ∙ ap some ((eqb_iff f e).0 same) in
            let before = without_failed-some key key' e e (failure other_why) c.table at_e in
            let mine = k.keyed r key key' e busy before in
            without_failed-none key e other_why c.table
              (subst (λ x. without_failed key e (failure other_why) c.table x ≡ some e) (mine) at_e)
        | inr other ↦
            k.served key' f why until
              (without_failed-some key key' e f (failure other_why) c.table there)
              (rw other at failed)
      ]
