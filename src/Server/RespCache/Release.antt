-- ===== src/Server/RespCache/Release.antt =====
-- internal/server/respcache.go: whoever waits is released, and the table serves no failure.
use omni_token.Prelude.{
  ℕ, String, Option, none, some, ◌≡◌, ◌≢◌, ◌⊎◌, refl, sym, subst, inl, inr, Bool-cases, eqb_refl,
  ltb,
}
use omni_token.Server.RespCache.{
  Answer, body, failure, EntryState, absent, flying, done, idle, computing, waiting, answered,
  Cache, empty_cache, body_of, at_entry, at_table, arrive, finish, woken, wake, clear, Step,
  arrives, finishes, wakes, clears, passes, Reachable, begins, goes_on,
}
use omni_token.Server.RespCache.Invariant.{Inv, absent-not-flying, in_phase-Inv, miss-Inv}
use omni_token.Server.RespCache.Finish.{finish-Inv}

at_entry-Inv :
    (c : Cache) (k : Inv c) (r : ℕ) (key : String) (e : ℕ) (v : EntryState)
    → c.phase r ≡ idle
    → c.entry e ≡ v
    → Inv (at_entry r key e v c)
at_entry-Inv c k r key e absent start here = miss-Inv c k r key start
at_entry-Inv c k r key e flying start here =
    in_phase-Inv c k r (waiting e) (λ key' f h. absurd (cc h)) (λ key' f h. absurd (cc h))
      (λ f same gone.
        absent-not-flying here (subst (λ g. c.entry g ≡ absent) (sym (entry_of same)) gone))
  where
    entry_of : {f g : ℕ} → waiting f ≡ waiting g → f ≡ g
    entry_of h = cc
at_entry-Inv c k r key e (done answer expires) start here =
    elim (Bool-cases (ltb c.clock expires)) [
      | inl young ↦ rw young (
          in_phase-Inv c k r (answered (body (body_of answer))) (λ key' f h. absurd (cc h))
            (λ key' f h. absurd (cc h)) (λ f h. absurd (cc h)))
      | inr old ↦ rw old (miss-Inv c k r key start)
    ]

at_table-Inv :
    (c : Cache) (k : Inv c) (r : ℕ) (key : String) (place : Option ℕ)
    → c.phase r ≡ idle
    → Inv (at_table r key place c)
at_table-Inv c k r key none start = miss-Inv c k r key start
at_table-Inv c k r key (some e) start = at_entry-Inv c k r key e (c.entry e) start refl

woken-Inv :
    (c : Cache) (k : Inv c) (ttl r e : ℕ) (v : EntryState)
    → c.phase r ≡ waiting e
    → Inv (woken ttl r v c)
woken-Inv c k ttl r e absent here = k
woken-Inv c k ttl r e flying here = k
woken-Inv c k ttl r e (done answer expires) here =
    in_phase-Inv c k r (answered answer) (λ key f h. absurd (cc h)) (λ key f h. absurd (cc h))
      (λ f h. absurd (cc h))

Step-Inv : (ttl : ℕ) (c d : Cache) → Inv c → Step ttl c d → Inv d
unfolding arrive wake clear
Step-Inv ttl c d k (arrives r key start same) =
    subst Inv (sym same) (at_table-Inv c k r key (c.table key) start)
Step-Inv ttl c d k (finishes r key e answer busy same) =
    subst Inv (sym same) (finish-Inv c k ttl r key e answer busy)
Step-Inv ttl c d k (wakes r e here same) =
    subst Inv (sym same) (woken-Inv c k ttl r e (c.entry e) here)
Step-Inv ttl c d k (clears same) = subst Inv (sym same) (record {
  sole = k.sole;
  owned = k.owned;
  awaited = k.awaited;
  computed = k.computed;
  fresh = k.fresh;
  keyed = λ r key key' e busy there. absurd (cc there);
  listed = λ key e there. absurd (cc there);
  served = λ key e why until there. absurd (cc there);
})
Step-Inv ttl c d k (passes ms same) = subst Inv (sym same) (record {
  sole = k.sole;
  owned = k.owned;
  awaited = k.awaited;
  computed = k.computed;
  fresh = k.fresh;
  keyed = k.keyed;
  listed = k.listed;
  served = k.served;
})

empty_cache-Inv : Inv empty_cache
empty_cache-Inv = record {
  sole = λ q r key key' e here there. absurd (cc here);
  owned = λ e up. absurd (cc up);
  awaited = λ r e here. absurd (cc here);
  computed = λ r key e here. absurd (cc here);
  fresh = λ e beyond. refl;
  keyed = λ r key key' e busy there. absurd (cc there);
  listed = λ key e there. absurd (cc there);
  served = λ key e why until there. absurd (cc there);
}

Reachable-Inv : (ttl : ℕ) {c : Cache} → Reachable ttl c → Inv c
Reachable-Inv ttl begins = empty_cache-Inv
Reachable-Inv ttl (goes_on b c run last) = Step-Inv ttl b c (Reachable-Inv ttl run) last

-- The waiting request is answered at its next step, or as soon as the one request that computes its
-- entry returns, with what that returns.
abbrev pub Released : ℕ → Cache → ℕ → ℕ → Type 0
Released ttl c r e =
    ((answer : Answer) × (until : ℕ) × (c.entry e ≡ done answer until)
      × ((wake ttl r e c).phase r ≡ answered answer))
    ⊎ ((q : ℕ) × (key : String) × (c.phase q ≡ computing key e)
        × ((other : ℕ) (key' : String) → c.phase other ≡ computing key' e → other ≡ q)
        × ((answer : Answer)
            → (wake ttl r e (finish ttl q key e answer c)).phase r ≡ answered answer))

waiting-Released :
    (ttl : ℕ) (c : Cache) (k : Inv c) (r e : ℕ) (v : EntryState)
    → c.phase r ≡ waiting e
    → c.entry e ≡ v
    → Released ttl c r e
unfolding wake finish
waiting-Released ttl c k r e absent here held = absurd (k.awaited r e here held)
waiting-Released ttl c k r e flying here held =
    let (q, key, busy) = k.owned e held in
    inr (
      q,
      key,
      busy,
      λ other key' also. k.sole other q key' key e also busy,
      λ answer. rw (eqb_refl e) (rw (eqb_refl r) refl),
    )
waiting-Released ttl c k r e (done answer until) here held =
    inl (answer, until, held, rw held (rw (eqb_refl r) refl))

-- In every reachable state of the cache a waiting request is released: its entry is done, and its next
-- step answers it, or exactly one request is computing the entry, and once that returns, with a body
-- or a failure, the next step of the waiting one answers the same. No place of the table holds a
-- failure.
pub Reachable-Released :
    (ttl : ℕ) (c : Cache)
    → Reachable ttl c
    → ((r e : ℕ) → c.phase r ≡ waiting e → Released ttl c r e)
      × ((key : String) (e : ℕ) (why : String) (until : ℕ)
          → c.table key ≡ some e
          → c.entry e ≢ done (failure why) until)
Reachable-Released ttl c run =
    let k = Reachable-Inv ttl run in
    (λ r e here. waiting-Released ttl c k r e (c.entry e) here refl, k.served)
