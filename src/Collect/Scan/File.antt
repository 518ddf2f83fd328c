-- ===== src/Collect/Scan/File.antt =====
-- internal/collect/scan.go: `scanFile` and `ScanSources`. What the file system shows of a file is a
-- parameter: no file, or its bytes, and whether it opens.
use omni_token.Prelude.{
  ℕ, ◌+◌, ◌-◌, String, Bool, false, not, ◌&&◌, ◌||◌, Option, none, some, List, [], ◌∷◌, eqb, ltb,
  is_some, if◌then◌else◌, length, take, drop,
}
use omni_token.Fallible.{ok, err}
use omni_token.Model.Event.{Event}
use omni_token.Model.Snapshot.{QuotaSnapshot}
use omni_token.Collect.State.{InFlightScan, offset_of, begin_scan, discard_scan}
use omni_token.Collect.Scan.{
  ParseResult, discard_failed, begin_failed, resume_mismatch, World, Outcome, and_then, checked,
  drop_before, resolve_repos, deliver_all, turn_start_of,
}

abbrev pub Bytes : Type 0
Bytes = List ℕ

pub record SourceSpec : Type 0 where
  pub parse : Bytes → String → ℕ → ParseResult
  pub full_reparse : Bool

-- The file's bytes, if there is one, and whether it opens.
pub record FileView : Type 0 where
  pub content : Option Bytes
  pub opens : Bool

-- What one pass over a source is given besides the file.
pub record Pass : Type 0 where
  pub device : String
  pub resolve : Option (String → String)
  pub not_before : Option ℕ
  pub wants_quotas : Bool

abbrev pub is_shorter : ℕ → Option InFlightScan → Bool
is_shorter size none = false
is_shorter size (some scan) = ltb size scan.scan_end

abbrev pub start_of : Bool → ℕ → Option InFlightScan → ℕ
start_of full offset none = if full then 0 else offset
start_of full offset (some scan) = scan.scan_start

abbrev pub end_of : ℕ → Option InFlightScan → ℕ
end_of size none = size
end_of size (some scan) = scan.scan_end

module _ (save_ok sink_ok : ℕ → Bool) (events_digest : List Event → Option String)
    (quotas_digest : List QuotaSnapshot → Option String) where
  abbrev pub deliver_resolved :
      String → Bool → Bool → ℕ → ℕ → List QuotaSnapshot → World × List Event → Outcome ℕ
  deliver_resolved path cross wanted end turn_start quotas (w, events) =
      deliver_all save_ok sink_ok events_digest quotas_digest path cross wanted end turn_start
        quotas events w

  -- After the scan has begun or been taken up again.
  abbrev pub scan_parsed : String → Pass → Bool → ℕ → ℕ → ParseResult → World → Outcome ℕ
  scan_parsed path pass cross end turn_start res w =
      deliver_resolved path cross pass.wants_quotas end turn_start res.quotas
        (resolve_repos save_ok pass.device pass.resolve (drop_before pass.not_before res.events) w)

  abbrev pub after_parse :
      String → SourceSpec → Pass → ℕ → ParseResult → Option InFlightScan → World → Outcome ℕ
  after_parse path spec pass start res none w =
      and_then
        (checked begin_failed w
          (begin_scan save_ok path start (start + res.consumed) res.turn_start_ms w.process))
        (λ u w'.
          scan_parsed path pass spec.full_reparse (start + res.consumed)
            (turn_start_of (w'.process.memory.in_flight path)) res w')
  after_parse path spec pass start res (some scan) w =
      if eqb (start + res.consumed) scan.scan_end
      then scan_parsed path pass false scan.scan_end scan.turn_start_ms res w
      else (w, err resume_mismatch)

  abbrev pub scan_bytes :
      String → SourceSpec → Pass → Bytes → Bool → ℕ → Option InFlightScan → World → Outcome ℕ
  scan_bytes path spec pass content opens offset resuming w =
      let start = start_of spec.full_reparse offset resuming in
      let slice = take (end_of (length content) resuming - start) (drop start content) in
      let res = spec.parse slice pass.device (offset_of (w.process.memory.turn_start path)) in
      if not (is_some resuming) && eqb (length content) offset || not opens
      then (w, ok 0)
      else after_parse path spec pass start res resuming w

  -- The fixed input boundary of an earlier scan may be gone.
  abbrev pub after_offset :
      String → SourceSpec → Pass → Bytes → Bool → ℕ → Option InFlightScan → World → Outcome ℕ
  after_offset path spec pass content opens offset in_flight w =
      if is_shorter (length content) in_flight
      then and_then (checked discard_failed w (discard_scan save_ok path w.process))
          (λ u w'. scan_bytes path spec pass content opens offset none w')
      else scan_bytes path spec pass content opens offset in_flight w

  abbrev pub scan_content : String → SourceSpec → Pass → Option Bytes → Bool → World → Outcome ℕ
  scan_content path spec pass none opens w = (w, ok 0)
  scan_content path spec pass (some content) opens w =
      let offset = offset_of (w.process.memory.files path) in
      if ltb (length content) offset
      then and_then (checked discard_failed w (discard_scan save_ok path w.process)) (λ u w'.
        after_offset path spec pass content opens 0 (w'.process.memory.in_flight path) w')
      else after_offset path spec pass content opens offset (w.process.memory.in_flight path) w

  unfoldable pub scan_file : String → SourceSpec → Pass → FileView → World → Outcome ℕ
  unfolding discard_scan begin_scan drop_before resolve_repos deliver_all
  scan_file path spec pass file w = scan_content path spec pass file.content file.opens w

  -- The paths that `listJSONL` lists, each with its view; `total` counts the events so far.
  unfoldable pub scan_files : SourceSpec → Pass → List (String × FileView) → ℕ → World → Outcome ℕ
  unfolding scan_file
  scan_files spec pass [] total w = (w, ok total)
  scan_files spec pass ((path, file) ∷ rest) total w =
      and_then (scan_file path spec pass file w) (λ n w'. scan_files spec pass rest (total + n) w')

  unfoldable pub scan_sources :
      List (SourceSpec × List (String × FileView)) → Pass → ℕ → World → Outcome ℕ
  unfolding scan_files
  scan_sources [] pass total w = (w, ok total)
  scan_sources ((spec, files) ∷ rest) pass total w =
      and_then (scan_files spec pass files total w) (λ n w'. scan_sources rest pass n w')
