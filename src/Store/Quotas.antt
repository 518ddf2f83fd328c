-- ===== src/Store/Quotas.antt =====
-- internal/store/quota.go and ingestv2.go: the table `quota_snapshots`.
pub mod Again
use omni_token.Prelude.{
  ℕ, ◌+◌, Bool, ◌&&◌, List, [], ◌∷◌, ◌==◌, eqb, is_some, if◌then◌else◌, find_where,
}
use omni_token.Model.Snapshot.{QuotaSnapshot}

-- The primary key without the device.
abbrev pub same_look : QuotaSnapshot → QuotaSnapshot → Bool
same_look q r =
    r.source == q.source
    && r.limit_id == q.limit_id
    && r.scope == q.scope
    && eqb r.window_minutes q.window_minutes
    && eqb r.observed_at q.observed_at

-- The primary key: device, source, limit_id, scope, window_minutes, observed_at.
abbrev pub same_key : QuotaSnapshot → QuotaSnapshot → Bool
same_key q r = r.device == q.device && same_look q r

-- INSERT OR IGNORE
unfoldable pub insert_quota : QuotaSnapshot → List QuotaSnapshot → List QuotaSnapshot × ℕ
insert_quota q t = if is_some (find_where (same_key q) t) then (t, 0) else (q ∷ t, 1)

unfoldable pub insert_quotas_tx : List QuotaSnapshot → List QuotaSnapshot → List QuotaSnapshot × ℕ
unfolding insert_quota
insert_quotas_tx [] t = (t, 0)
insert_quotas_tx (q ∷ qs) t =
    let (t', n) = insert_quota q t in
    let (t'', inserted) = insert_quotas_tx qs t' in (t'', n + inserted)
