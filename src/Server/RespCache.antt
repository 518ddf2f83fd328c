-- ===== src/Server/RespCache.antt =====
-- internal/server/respcache.go: the cache of responses, with its concurrent requests. What a request
-- does under the mutex is one step, and so is its return from a wait or from a computation. An entry
-- is a place of a store, since the table and the waiters share it.
pub mod Invariant
pub mod Finish
pub mod Release
use omni_token.Prelude.{
  ℕ, suc, ◌+◌, String, Bool, true, false, ◌&&◌, Option, none, some, ◌≡◌, ◌==◌, eqb, ltb,
  if◌then◌else◌,
}

pub data Answer : Type 0 where
  body : String → Answer
  failure : String → Answer

pub data EntryState : Type 0 where
  absent flying : EntryState
  done : Answer → ℕ → EntryState

-- Where a request stands.
pub data Phase : Type 0 where
  idle : Phase
  computing : String → ℕ → Phase
  waiting : ℕ → Phase
  answered : Answer → Phase

pub record Cache : Type 0 where
  pub table : String → Option ℕ
  pub entry : ℕ → EntryState
  pub next_entry : ℕ
  pub phase : ℕ → Phase
  pub clock : ℕ

abbrev pub empty_cache : Cache
empty_cache = record {
  table = λ key. none;
  entry = λ e. absent;
  next_entry = 0;
  phase = λ r. idle;
  clock = 0;
}

abbrev pub set_phase : ℕ → Phase → (ℕ → Phase) → ℕ → Phase
set_phase r p phase q = if eqb q r then p else phase q

abbrev pub set_entry : ℕ → EntryState → (ℕ → EntryState) → ℕ → EntryState
set_entry e v entry f = if eqb f e then v else entry f

abbrev pub in_phase : ℕ → Phase → Cache → Cache
in_phase r p c = record c { phase = set_phase r p c.phase }

abbrev pub body_of : Answer → String
body_of (body text) = text
body_of (failure why) = ""

-- A new entry, which the request computes.
abbrev pub miss : ℕ → String → Cache → Cache
miss r key c = record c {
  table = λ k. if k == key then some c.next_entry else c.table k;
  entry = set_entry c.next_entry flying c.entry;
  next_entry = suc c.next_entry;
  phase = set_phase r (computing key c.next_entry) c.phase;
}

abbrev pub at_entry : ℕ → String → ℕ → EntryState → Cache → Cache
at_entry r key e absent c = miss r key c
at_entry r key e flying c = in_phase r (waiting e) c
at_entry r key e (done answer expires) c =
    if ltb c.clock expires then in_phase r (answered (body (body_of answer))) c else miss r key c

abbrev pub at_table : ℕ → String → Option ℕ → Cache → Cache
at_table r key none c = miss r key c
at_table r key (some e) c = at_entry r key e (c.entry e) c

unfoldable pub arrive : ℕ → String → Cache → Cache
arrive r key c = at_table r key (c.table key) c

abbrev pub is_entry : ℕ → Option ℕ → Bool
is_entry e none = false
is_entry e (some f) = eqb e f

abbrev pub without_failed : String → ℕ → Answer → (String → Option ℕ) → String → Option ℕ
without_failed key e (body text) table k = table k
without_failed key e (failure why) table k =
    if k == key && is_entry e (table key) then none else table k

abbrev pub expiry : ℕ → Answer → ℕ
expiry until (body text) = until
expiry until (failure why) = 0

module _ (ttl : ℕ) where
  -- The computation of an entry returns.
  unfoldable pub finish : ℕ → String → ℕ → Answer → Cache → Cache
  finish r key e answer c = record c {
    table = without_failed key e answer c.table;
    entry = set_entry e (done answer (expiry (c.clock + ttl) answer)) c.entry;
    phase = set_phase r (answered answer) c.phase;
  }

  abbrev pub woken : ℕ → EntryState → Cache → Cache
  woken r (done answer expires) c = in_phase r (answered answer) c
  woken r _ c = c

  unfoldable pub wake : ℕ → ℕ → Cache → Cache
  wake r e c = woken r (c.entry e) c

  unfoldable pub clear : Cache → Cache
  clear c = record c { table = λ key. none }

  -- One step of one request, of the price update that clears the cache, or of the clock.
  pub data Step (c d : Cache) : Type 0 where
    arrives : (r : ℕ) (key : String) → c.phase r ≡ idle → d ≡ arrive r key c → Step c d
    finishes :
        (r : ℕ) (key : String) (e : ℕ) (answer : Answer)
        → c.phase r ≡ computing key e
        → d ≡ finish r key e answer c
        → Step c d
    wakes : (r e : ℕ) → c.phase r ≡ waiting e → d ≡ wake r e c → Step c d
    clears : d ≡ clear c → Step c d
    passes : (ms : ℕ) → d ≡ record c { clock = c.clock + ms } → Step c d

  pub data Reachable : Cache → Type 0 where
    begins : Reachable empty_cache
    goes_on : (c d : Cache) → Reachable c → Step c d → Reachable d
