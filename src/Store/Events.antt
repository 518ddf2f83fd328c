-- ===== src/Store/Events.antt =====
-- internal/store/store.go: the table `events` and the statements that `insertEventsFromTx`
-- prepares. A statement returns the new table and the number of rows affected.
pub mod Insert
pub mod Batch
pub mod Counts
pub mod Keys
pub mod Commit
pub mod Committed
pub mod Accounting
use omni_token.Prelude.{
  ℕ, String, Bool, true, false, not, ◌&&◌, ◌||◌, Option, List, ◌∷◌, ◌==◌, ltb, eqb, if◌then◌else◌,
  is_some, find_where, count_where, update_where, delete_where,
}
use omni_token.Model.Event.{Event}
use omni_token.Model.Provider.{provider_rank, provider_rank_sql}

pub data DeviceOrigin : Type 0 where
  self observed : DeviceOrigin

-- A row of `events`: the event's columns, `device_origin` and `received_at`.
pub record Row : Type 0 where
  pub event : Event
  pub open event use *
  pub device_origin : DeviceOrigin
  pub received_at : ℕ

abbrev pub Table : Type 0
Table = List Row

abbrev pub has_id : String → Row → Bool
has_id id r = r.event_id == id

-- `dedup_key = ? AND dedup_key != ''`
abbrev pub owns_key : String → Row → Bool
owns_key key r = r.dedup_key == key && not (r.dedup_key == "")

abbrev pub new_row : ℕ → DeviceOrigin → Event → Row
new_row received_at origin e = record {
  event = e;
  device_origin = origin;
  received_at = received_at;
}

-- A row is refused if its primary key is taken, or its dedup key by the partial unique index.
abbrev pub conflicts : Event → Row → Bool
conflicts e r = has_id e.event_id r || owns_key e.dedup_key r

-- INSERT OR IGNORE
unfoldable pub insert : ℕ → DeviceOrigin → Event → Table → Table × Bool
insert received_at origin e t =
    if is_some (find_where (conflicts e) t)
    then (t, false)
    else (new_row received_at origin e ∷ t, true)

unfoldable pub key_owner : String → Table → Option Row
key_owner key t = find_where (owns_key key) t

-- UPDATE … WHERE event_id = id AND guard
unfoldable pub update_row : String → (Row → Bool) → (Row → Row) → Table → Table × ℕ
update_row id guard f t =
    let hit = λ (r : Row). has_id id r && guard r in (update_where hit f t, count_where hit t)

unfoldable pub drop_copy : String → Table → Table × ℕ
drop_copy id t = (delete_where (has_id id) t, count_where (has_id id) t)

abbrev pub filled : String → String → String
filled old new = if old == "" && not (new == "") then new else old

abbrev pub filled_num : ℕ → ℕ → ℕ
filled_num old new = if eqb old 0 && ltb 0 new then new else old

abbrev pub key_fill_guard : Row → Bool
key_fill_guard r = r.dedup_key == ""

abbrev pub key_fill_set : Event → Row → Row
key_fill_set e r = record r { event = record r.event { dedup_key = e.dedup_key } }

abbrev pub num_fill_guard : Event → Row → Bool
num_fill_guard e r = (eqb r.gen_ms 0 && ltb 0 e.gen_ms) || (eqb r.ttft_ms 0 && ltb 0 e.ttft_ms)

abbrev pub num_fill_set : Event → Row → Row
num_fill_set e r = record r {
  event = record r.event {
    gen_ms = filled_num r.gen_ms e.gen_ms;
    ttft_ms = filled_num r.ttft_ms e.ttft_ms;
  };
}

abbrev pub text_fill_guard : Event → Row → Bool
text_fill_guard e r =
    (r.session_id == "" && not (e.session_id == ""))
    || (r.cwd == "" && not (e.cwd == ""))
    || (r.repo == "" && not (e.repo == ""))
    || (r.git_branch == "" && not (e.git_branch == ""))
    || (r.app_version == "" && not (e.app_version == ""))

abbrev pub text_fill_set : Event → Row → Row
text_fill_set e r = record r {
  event = record r.event {
    session_id = filled r.session_id e.session_id;
    cwd = filled r.cwd e.cwd;
    repo = filled r.repo e.repo;
    git_branch = filled r.git_branch e.git_branch;
    app_version = filled r.app_version e.app_version;
  };
}

abbrev pub dur_fill_guard : Event → Row → Bool
dur_fill_guard e r = eqb r.duration_ms 0 && ltb 0 e.duration_ms

abbrev pub dur_fill_set : Event → Row → Row
dur_fill_set e r = record r { event = record r.event { duration_ms = e.duration_ms } }

abbrev pub promote_guard : Event → Row → Bool
promote_guard e r = r.source == "proxy" && not (e.source == "proxy")

abbrev pub promote_set : Event → Row → Row
promote_set e r = record r { event = record r.event { source = e.source } }

abbrev pub is_observed : DeviceOrigin → Bool
is_observed observed = true
is_observed self = false

abbrev pub reattribute_guard : Event → Row → Bool
reattribute_guard e r = is_observed r.device_origin && not (e.device == "")

abbrev pub reattribute_set : Event → Row → Row
reattribute_set e r = record r {
  event = record r.event { device = e.device };
  device_origin = self;
}

abbrev pub reclassify_guard : Event → Row → Bool
reclassify_guard e r = ltb (provider_rank_sql r.provider) (provider_rank e.provider)

abbrev pub reclassify_set : Event → Row → Row
reclassify_set e r = record r { event = record r.event { provider = e.provider } }
