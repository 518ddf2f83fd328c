-- ===== src/Store/Capacity/Backfill.antt =====
-- internal/store/capacity.go: BackfillCapacity. The window function keeps the first row of each
-- partition by percentage, then by time; which of two equal rows it keeps is left to the order of the
-- table.
use omni_token.Prelude.{ℕ, suc, Bool, ◌&&◌, ◌||◌, List, [], ◌∷◌, ◌==◌, ltb, leb, eqb, if◌then◌else◌}
use omni_token.Model.Snapshot.{QuotaSnapshot}
use omni_token.Store.Events.{Table}
use omni_token.Store.Capacity.{
  Samples, window_id_minutes, capacity_min_peak, subscription_tokens, observation_of,
  observe_capacity,
}

abbrev pub same_partition : QuotaSnapshot → QuotaSnapshot → Bool
same_partition q p =
    p.source == q.source
    && p.scope == q.scope
    && eqb p.window_minutes q.window_minutes
    && eqb (window_id_minutes p.resets_at) (window_id_minutes q.resets_at)

-- ORDER BY used_percent DESC, observed_at ASC
abbrev pub comes_before : QuotaSnapshot → QuotaSnapshot → Bool
comes_before q p =
    ltb p.used_percent q.used_percent
    || eqb p.used_percent q.used_percent && ltb q.observed_at p.observed_at

unfoldable pub add_peak : QuotaSnapshot → List QuotaSnapshot → List QuotaSnapshot
add_peak q [] = q ∷ []
add_peak q (p ∷ ps) =
    let rest = add_peak q ps in
    if same_partition q p then (if comes_before q p then q ∷ ps else p ∷ ps) else p ∷ rest

abbrev pub is_usable : ℕ → QuotaSnapshot → Bool
is_usable since q =
    leb since q.observed_at && ltb 0 q.resets_at && leb capacity_min_peak q.used_percent

unfoldable pub peaks_of : ℕ → List QuotaSnapshot → List QuotaSnapshot → List QuotaSnapshot
unfolding add_peak
peaks_of since [] ps = ps
peaks_of since (q ∷ qs) ps = peaks_of since qs (if is_usable since q then add_peak q ps else ps)

-- The loop over the peaks; a window whose events have aged out of the log is passed over.
unfoldable pub fill_peaks : ℕ → Table → List QuotaSnapshot → Samples → ℕ → Samples × ℕ
unfolding observe_capacity subscription_tokens
fill_peaks clock events [] t filled = (t, filled)
fill_peaks clock events (p ∷ ps) t filled =
    let o = observation_of p p.observed_at events in
    let none_left = eqb o.tokens 0 in
    fill_peaks clock events ps (if none_left then t else observe_capacity clock o t)
      (if none_left then filled else suc filled)

unfoldable pub backfill_capacity : ℕ → ℕ → Table → List QuotaSnapshot → Samples → Samples × ℕ
unfolding peaks_of fill_peaks
backfill_capacity clock since events quotas t =
    fill_peaks clock events (peaks_of since quotas []) t 0
