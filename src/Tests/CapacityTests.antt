-- ===== src/Tests/CapacityTests.antt =====
-- Tests of Store/Capacity.
use omni_token.Prelude.{
  ℕ, ◌+◌, ◌*◌, ◌/◌, ◌≤◌, ◌<◌, none, some, List, [], ◌∷◌, ◌≡◌, refl, find_where, count_where, length,
}
use omni_token.Model.Snapshot.{QuotaSnapshot}
use omni_token.Store.Capacity.{
  CapacityObservation, CapacityRow, Samples, WindowKey, is_window, capacity_estimate,
  capacity_min_samples,
}
use omni_token.Store.Capacity.Peaks.{
  Reading, live_reading, quota_reading, read_all, best_of, read_all-best_of,
}
use omni_token.Store.Capacity.Estimate.{below, not_above, recent_caps, capacity_estimate-rank}
use omni_token.Tests.Data.{usage, stored}
use omni_token.Store.Events.{self}

abbrev look : ℕ → CapacityObservation
look tokens = record {
  source = "codex";
  scope = "primary";
  window_minutes = 300;
  resets_at = 60000 * 400;
  used_percent = 40000000;
  tokens = tokens;
}

abbrev five_hours : WindowKey
five_hours = record { source = "codex"; scope = "primary"; window_minutes = 300; window_id = 400 }

abbrev snapshot : QuotaSnapshot
snapshot = record {
  device = "laptop";
  source = "codex";
  limit_id = "";
  scope = "primary";
  window_minutes = 300;
  used_percent = 50000000;
  resets_at = 60000 * 400;
  observed_at = 1;
  plan_type = "plus";
}

-- The second reading is no higher; the third is.
abbrev readings : List Reading
readings =
    live_reading 1 (look 100)
    ∷ live_reading 2 (look 200)
    ∷ quota_reading 3 60000000
        (stored self (record (usage "e" "" 7000000) { provider = "openai-chatgpt" }) ∷ []) snapshot
    ∷ []

read_all-best_of_example :
    find_where (is_window five_hours) (read_all readings [])
    ≡ best_of five_hours readings (find_where (is_window five_hours) [])
read_all-best_of_example = read_all-best_of five_hours readings []

last_reading_counts :
    best_of five_hours readings none
    ≡ some (record {
      source = "codex";
      scope = "primary";
      window_minutes = 300;
      window_id = 400;
      peak_percent = 50000000;
      tokens_at_peak = 30;
      updated_at = 3;
    })
unfolding omni_token.Store.Capacity.subscription_tokens omni_token.Store.Capacity.Peaks.same_key
last_reading_counts = refl

abbrev sample : ℕ → ℕ → CapacityRow
sample id tokens = record {
  source = "codex";
  scope = "primary";
  window_minutes = 300;
  window_id = id;
  peak_percent = 40000000;
  tokens_at_peak = tokens;
  updated_at = 1;
}

abbrev samples : Samples
samples = sample 1 40 ∷ sample 2 10 ∷ sample 3 30 ∷ sample 4 20 ∷ []

abbrev as_double : ℕ → ℕ → ℕ
as_double tokens percent = tokens * 100000000 / percent

estimated : capacity_estimate as_double "codex" "primary" 300 samples ≡ some 50
unfolding capacity_estimate omni_token.Prelude.select_where
estimated = refl

capacity_estimate-rank_example :
    (capacity_min_samples ≤ length (recent_caps as_double "codex" "primary" 300 samples))
    × (count_where (below 50) (recent_caps as_double "codex" "primary" 300 samples)
        ≤ length (recent_caps as_double "codex" "primary" 300 samples) / 4)
    × (length (recent_caps as_double "codex" "primary" 300 samples) / 4
        < count_where (not_above 50) (recent_caps as_double "codex" "primary" 300 samples))
capacity_estimate-rank_example =
    capacity_estimate-rank as_double "codex" "primary" 300 samples 50 estimated
