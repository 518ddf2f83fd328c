-- ===== src/Store/Capacity.antt =====
-- internal/store/capacity.go: the calibration samples, one row per window, and the estimate drawn from
-- them. Percentages are millionths; the double-precision quotient behind a sample's capacity is a
-- parameter.
pub mod Backfill
pub mod Peaks
pub mod Estimate
use omni_token.Prelude.{
  ℕ, zero, suc, ◌+◌, ◌-◌, ◌*◌, ◌/◌, String, Bool, true, false, not, ◌&&◌, ◌||◌, Option, none, some,
  List, [], ◌∷◌, ◌==◌, ltb, leb, eqb, is_some, if◌then◌else◌, find_where, update_where,
  delete_where, count_where, select_where, length, take,
}
use omni_token.Model.Event.{Event, total_tokens}
use omni_token.Model.Snapshot.{QuotaSnapshot}
use omni_token.Model.Provider.{billing_channel, channel_subscription}
use omni_token.Store.Events.{Table, Row}

pub record CapacityObservation : Type 0 where
  pub source : String
  pub scope : String
  pub window_minutes : ℕ
  pub resets_at : ℕ
  pub used_percent : ℕ
  pub tokens : ℕ

pub record CapacityRow : Type 0 where
  pub source : String
  pub scope : String
  pub window_minutes : ℕ
  pub window_id : ℕ
  pub peak_percent : ℕ
  pub tokens_at_peak : ℕ
  pub updated_at : ℕ

abbrev pub Samples : Type 0
Samples = List CapacityRow

-- The primary key.
pub record WindowKey : Type 0 where
  pub source : String
  pub scope : String
  pub window_minutes : ℕ
  pub window_id : ℕ

abbrev pub window_id_minutes : ℕ → ℕ
window_id_minutes resets_at = resets_at / 60000

abbrev pub window_key : CapacityObservation → WindowKey
window_key o = record {
  source = o.source;
  scope = o.scope;
  window_minutes = o.window_minutes;
  window_id = window_id_minutes o.resets_at;
}

unfoldable pub is_window : WindowKey → CapacityRow → Bool
is_window k r =
    r.source == k.source
    && r.scope == k.scope
    && eqb r.window_minutes k.window_minutes
    && eqb r.window_id k.window_id

abbrev pub row_of : ℕ → CapacityObservation → CapacityRow
row_of now o = record {
  source = o.source;
  scope = o.scope;
  window_minutes = o.window_minutes;
  window_id = window_id_minutes o.resets_at;
  peak_percent = o.used_percent;
  tokens_at_peak = o.tokens;
  updated_at = now;
}

abbrev pub raised : ℕ → CapacityObservation → CapacityRow → CapacityRow
raised now o r = record r {
  peak_percent = o.used_percent;
  tokens_at_peak = o.tokens;
  updated_at = now;
}

abbrev pub is_raised : CapacityObservation → CapacityRow → Bool
is_raised o r = is_window (window_key o) r && ltb r.peak_percent o.used_percent

-- INSERT … ON CONFLICT DO UPDATE … WHERE the new percentage is higher.
unfoldable pub upsert : ℕ → CapacityObservation → Samples → Samples
unfolding is_window
upsert now o t =
    if is_some (find_where (is_window (window_key o)) t)
    then update_where (is_raised o) (raised now o) t
    else row_of now o ∷ t

abbrev pub is_unusable : CapacityObservation → Bool
is_unusable o =
    eqb o.resets_at 0 || eqb o.used_percent 0 || eqb o.tokens 0 || eqb o.window_minutes 0

unfoldable pub observe_capacity : ℕ → CapacityObservation → Samples → Samples
unfolding upsert
observe_capacity now o t = if is_unusable o then t else upsert now o t

unfoldable pub is_subscription : String → Bool
unfolding billing_channel
is_subscription provider = billing_channel provider == channel_subscription

-- GROUP BY provider, then the sum of the subscription's groups: the sum of its rows.
unfoldable pub subscription_tokens : String → ℕ → ℕ → Table → ℕ
unfolding is_subscription total_tokens
subscription_tokens source from to [] = 0
subscription_tokens source from to (r ∷ t) =
    (if r.event.source == source
        && leb from r.event.ts
        && leb r.event.ts to
        && is_subscription r.event.provider
      then total_tokens r.event
      else 0)
    + subscription_tokens source from to t

abbrev pub observation_of : QuotaSnapshot → ℕ → Table → CapacityObservation
observation_of q now events = record {
  source = q.source;
  scope = q.scope;
  window_minutes = q.window_minutes;
  resets_at = q.resets_at;
  used_percent = q.used_percent;
  tokens = subscription_tokens q.source (q.resets_at - q.window_minutes * 60000) now events;
}

abbrev pub is_covered : QuotaSnapshot → Option CapacityRow → Bool
is_covered q none = false
is_covered q (some r) = leb q.used_percent r.peak_percent

-- `clock` is the wall clock of the write, `now` the time that the caller gives.
unfoldable pub observe_capacity_from_quota : ℕ → ℕ → Table → QuotaSnapshot → Samples → Samples
unfolding observe_capacity subscription_tokens is_window
observe_capacity_from_quota clock now events q t =
    if eqb q.resets_at 0 || eqb q.used_percent 0 || eqb q.window_minutes 0
    then t
    else if is_covered q (find_where (is_window (window_key (observation_of q now events))) t)
    then t
    else observe_capacity clock (observation_of q now events) t

abbrev pub of_source : String → CapacityRow → Bool
of_source source r = r.source == source

unfoldable pub reset_capacity : String → Samples → Samples × ℕ
reset_capacity source t = (delete_where (of_source source) t, count_where (of_source source) t)

abbrev pub capacity_min_peak : ℕ
capacity_min_peak = 30 * 1000000

abbrev pub capacity_window_memory : ℕ
capacity_window_memory = 30

abbrev pub capacity_min_samples : ℕ
capacity_min_samples = 3

-- ORDER BY window_id DESC
unfoldable pub insert_recent : CapacityRow → Samples → Samples
insert_recent r [] = r ∷ []
insert_recent r (s ∷ t) =
    let rest = insert_recent r t in if ltb r.window_id s.window_id then s ∷ rest else r ∷ s ∷ t

unfoldable pub most_recent : Samples → Samples
unfolding insert_recent
most_recent [] = []
most_recent (r ∷ t) = insert_recent r (most_recent t)

abbrev pub is_sample : String → String → ℕ → ℕ → CapacityRow → Bool
is_sample source scope minutes min_peak r =
    r.source == source
    && r.scope == scope
    && eqb r.window_minutes minutes
    && leb min_peak r.peak_percent

unfoldable pub capacity_samples : String → String → ℕ → ℕ → ℕ → Samples → Samples
unfolding most_recent
capacity_samples source scope minutes min_peak limit t =
    take limit (most_recent (select_where (is_sample source scope minutes min_peak) t))

unfoldable pub insert_sorted : ℕ → List ℕ → List ℕ
insert_sorted n [] = n ∷ []
insert_sorted n (m ∷ ms) = let rest = insert_sorted n ms in if ltb m n then m ∷ rest else n ∷ m ∷ ms

unfoldable pub sort_caps : List ℕ → List ℕ
unfolding insert_sorted
sort_caps [] = []
sort_caps (n ∷ ns) = insert_sorted n (sort_caps ns)

abbrev pub cap_at : ℕ → List ℕ → ℕ
cap_at i [] = 0
cap_at zero (n ∷ ns) = n
cap_at (suc i) (n ∷ ns) = cap_at i ns

module _ (quotient : ℕ → ℕ → ℕ) where
  -- `quotient tokens percent` stands for the double tokens / percent * 100, cut to an integer.
  unfoldable pub capacity : CapacityRow → ℕ
  capacity r = if eqb r.peak_percent 0 then 0 else quotient r.tokens_at_peak r.peak_percent

  unfoldable pub positive_caps : Samples → List ℕ
  unfolding capacity
  positive_caps [] = []
  positive_caps (r ∷ t) =
      let rest = positive_caps t in if ltb 0 (capacity r) then capacity r ∷ rest else rest

  abbrev pub estimate_from : List ℕ → Option ℕ
  estimate_from caps =
      if ltb (length caps) capacity_min_samples
      then none
      else some (cap_at (length caps / 4) (sort_caps caps))

  unfoldable pub capacity_estimate : String → String → ℕ → Samples → Option ℕ
  unfolding capacity_samples positive_caps sort_caps
  capacity_estimate source scope minutes t =
      let samples =
        capacity_samples source scope minutes capacity_min_peak capacity_window_memory t in
      if ltb (length samples) capacity_min_samples
      then none
      else estimate_from (positive_caps samples)
