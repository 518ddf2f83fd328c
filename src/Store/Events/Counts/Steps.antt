-- ===== src/Store/Events/Counts/Steps.antt =====
-- internal/store/store.go: what each statement of an observation keeps of the counted columns.
use omni_token.Prelude.{
  ℕ, String, Bool, true, false, Option, none, some, ◌≡◌, subst, inl, inr, All, Bool-cases,
  All-update_where, All-delete_where, is_some, find_where,
}
use omni_token.Model.Event.{Event}
use omni_token.Store.Events.{
  DeviceOrigin, Row, Table, conflicts, insert, update_row, drop_copy, key_fill_set, num_fill_set,
  text_fill_set, dur_fill_set, promote_set, reattribute_set, reclassify_set,
}
use omni_token.Store.Events.Insert.{
  PriorEventState, Verdict, dropped, stays, run_if, key_fill_clashes, key_fill, reclassify,
  reattribute, num_fill, text_fill, promote, dur_fill,
}
use omni_token.Store.Events.Batch.{State}

-- The columns that are counted, priced or ordered by: no UPDATE names one of them.
pub record Counts : Type 0 where
  pub event_id : String
  pub ts : ℕ
  pub model : String
  pub account_label : String
  pub input_tokens : ℕ
  pub output_tokens : ℕ
  pub cache_read_tokens : ℕ
  pub cache_creation_tokens : ℕ
  pub cache_1h_tokens : ℕ
  pub cache_5m_tokens : ℕ

abbrev pub counts : Event → Counts
counts e = record {
  event_id = e.event_id;
  ts = e.ts;
  model = e.model;
  account_label = e.account_label;
  input_tokens = e.input_tokens;
  output_tokens = e.output_tokens;
  cache_read_tokens = e.cache_read_tokens;
  cache_creation_tokens = e.cache_creation_tokens;
  cache_1h_tokens = e.cache_1h_tokens;
  cache_5m_tokens = e.cache_5m_tokens;
}

-- A property of the table that an action ends in, if it ends in one.
abbrev pub Ensures : (Table → Type 0) → Option State → Type 0
Ensures P none = Unit
Ensures P (some s) = P s.0

module _ (P : Counts → Type 0) where
  abbrev pub Holds : Table → Type 0
  Holds = All (λ (r : Row). P (counts r.event))

  pub run_if-Holds :
      (gate : Bool) (id : String) (guard : Row → Bool) (f : Row → Row) (t : Table)
      → ((r : Row) → P (counts r.event) → P (counts (f r).event))
      → Holds t
      → Holds (run_if gate id guard f t).0
  unfolding run_if update_row
  run_if-Holds true id guard f t keep h =
      All-update_where (λ (r : Row). P (counts r.event)) _ f t keep h
  run_if-Holds false id guard f t keep h = h

  pub insert-Holds :
      (received_at : ℕ) (origin : DeviceOrigin) (e : Event) (t : Table)
      → P (counts e)
      → Holds t
      → Holds (insert received_at origin e t).0
  unfolding insert
  insert-Holds received_at origin e t p h =
      elim (Bool-cases (is_some (find_where (conflicts e) t))) [
        | inl taken ↦ rw taken h
        | inr free ↦ rw free (p, h)
      ]

  pub drop_copy-Holds : (id : String) (t : Table) → Holds t → Holds (drop_copy id t).0
  unfolding drop_copy
  drop_copy-Holds id t h = All-delete_where (λ (r : Row). P (counts r.event)) _ t h

  abbrev pub Verdict-Holds : Verdict → Type 0
  Verdict-Holds (dropped t n) = Holds t
  Verdict-Holds (stays t stored n) = Holds t

  abbrev pub Fill-Holds : Option (Table × ℕ) → Type 0
  Fill-Holds none = Unit
  Fill-Holds (some (t, n)) = Holds t

  pub key_fill-Holds :
      (known : Option PriorEventState) (e : Event) (t : Table) {s : Table × ℕ}
      → key_fill known e t ≡ some s
      → Holds t
      → Holds s.0
  unfolding key_fill
  key_fill-Holds known e t done h = elim (Bool-cases (key_fill_clashes known e t)) [
    | inl clash ↦ cc (rw clash at done)
    | inr free ↦
        subst (λ (o : Option (Table × ℕ)). Fill-Holds o) (rw free at done)
          (run_if-Holds _ _ _ (key_fill_set e) t (λ r x. x) h)
  ]

  module _ (known : Option PriorEventState) (e : Event) (t : Table) (h : Holds t) where
    pub reclassify-Holds : Holds (reclassify known e t).0
    unfolding reclassify
    reclassify-Holds = run_if-Holds _ _ _ (reclassify_set e) t (λ r x. x) h

    pub reattribute-Holds : (origin : DeviceOrigin) → Holds (reattribute origin known e t).0
    unfolding reattribute
    reattribute-Holds origin = run_if-Holds _ _ _ (reattribute_set e) t (λ r x. x) h

    pub num_fill-Holds : Holds (num_fill known e t).0
    unfolding num_fill
    num_fill-Holds = run_if-Holds _ _ _ (num_fill_set e) t (λ r x. x) h

    pub text_fill-Holds : Holds (text_fill known e t).0
    unfolding text_fill
    text_fill-Holds = run_if-Holds _ _ _ (text_fill_set e) t (λ r x. x) h

    pub promote-Holds : Holds (promote known e t).0
    unfolding promote
    promote-Holds = run_if-Holds _ _ _ (promote_set e) t (λ r x. x) h

    pub dur_fill-Holds : Holds (dur_fill known e t).0
    unfolding dur_fill
    dur_fill-Holds = run_if-Holds _ _ _ (dur_fill_set e) t (λ r x. x) h
