-- ===== src/Collect/Scan/Kept.antt =====
-- internal/collect/scan.go: the ledger of deliveries through a whole scan of a file.
use omni_token.Prelude.{
  ℕ, ◌+◌, ◌-◌, take, drop, String, Bool, true, false, not, ◌&&◌, ◌||◌, Option, none, some, List, [],
  ◌∷◌, inl, inr, ◌==◌, Bool-cases, eqb, ltb, is_some, length,
}
use omni_token.Fallible.{ok, err}
use omni_token.Model.Event.{Event}
use omni_token.Model.Snapshot.{QuotaSnapshot}
use omni_token.Collect.State.{InFlightScan, Process, offset_of, begin_scan, discard_scan}
use omni_token.Collect.Scan.{
  World, Outcome, ScanError, begin_failed, discard_failed, and_then, checked, drop_before, resolved,
  resolve_repos, deliver_all, turn_start_of, ParseResult,
}
use omni_token.Collect.Scan.File.{
  Bytes, SourceSpec, Pass, is_shorter, start_of, end_of, scan_parsed, after_parse, scan_bytes,
  after_offset, scan_content,
}
use omni_token.Collect.Scan.Sound.{
  SoundProcess, begin_scan-Sound, discard_scan-Sound, repo_for-Sound,
}
use omni_token.Collect.Scan.Onward.{SoundWorld}
use omni_token.Collect.Scan.Commit.{Ended, deliver_all-Ended}

module _ (events_digest : List Event → Option String)
    (quotas_digest : List QuotaSnapshot → Option String) where
  -- Every key in the memory and in the state file names an accepted batch.
  pub record Sound (w : World) : Type 0 where
    pub ledger : SoundWorld events_digest quotas_digest w

module _ (save_ok sink_ok : ℕ → Bool) (events_digest : List Event → Option String)
    (quotas_digest : List QuotaSnapshot → Option String) where
  checked-Sound :
      (why : ScanError) (w : World) (r : Process × Bool)
      → SoundProcess events_digest quotas_digest w.accepted w.accepted_quotas r.0
      → Sound events_digest quotas_digest (checked why w r).0
  checked-Sound why w (p, true) h = record { ledger = h }
  checked-Sound why w (p, false) h = record { ledger = h }

  and_then-Sound :
      {A B : Type 0} (o : Outcome A) (next : A → World → Outcome B)
      → Sound events_digest quotas_digest o.0
      → ((a : A) (w : World)
          → Sound events_digest quotas_digest w
          → Sound events_digest quotas_digest (next a w).0)
      → Sound events_digest quotas_digest (and_then o next).0
  and_then-Sound {A} {B} (w, ok a) next h k = k a w h
  and_then-Sound {A} {B} (w, err why) next h k = h

  resolve_repos-Sound :
      (device : String) (resolve : Option (String → String)) (es : List Event) (w : World)
      → Sound events_digest quotas_digest w
      → Sound events_digest quotas_digest (resolve_repos save_ok device resolve es w).0
  unfolding resolve_repos
  resolve_repos-Sound device resolve [] w k = k
  resolve_repos-Sound device resolve (e ∷ es) w k =
      resolve_repos-Sound device resolve es _ (one resolve)
    where
      one :
          (resolve : Option (String → String))
          → Sound events_digest quotas_digest (resolved save_ok device resolve e w).0
      one none = k
      one (some f) = elim (Bool-cases (e.cwd == "")) [
        | inl nowhere ↦ rw nowhere k
        | inr somewhere ↦ rw somewhere (record {
          ledger =
              repo_for-Sound events_digest quotas_digest w.accepted w.accepted_quotas save_ok device
                e.cwd f w.process k.ledger;
        })
      ]

  deliver_all-Sound :
      (path : String) (cross wanted : Bool) (end turn_start : ℕ) (qs : List QuotaSnapshot)
      (es : List Event) (w : World)
      → Sound events_digest quotas_digest w
      → Sound events_digest quotas_digest
          (deliver_all save_ok sink_ok events_digest quotas_digest path cross wanted end turn_start
            qs es w).0
  deliver_all-Sound path cross wanted end turn_start qs es w k =
      ended
        (deliver_all save_ok sink_ok events_digest quotas_digest path cross wanted end turn_start qs
          es w)
        (deliver_all-Ended save_ok sink_ok events_digest quotas_digest path cross wanted end
          turn_start qs es w k.ledger)
    where
      ended :
          (o : Outcome ℕ)
          → Ended save_ok sink_ok events_digest quotas_digest path end es w o
          → Sound events_digest quotas_digest o.0
      ended (w', ok n) h = record { ledger = h.sound }
      ended (w', err why) h = record { ledger = h.sound }

  scan_parsed-Sound :
      (path : String) (pass : Pass) (cross : Bool) (end turn_start : ℕ) (res : ParseResult)
      (w : World)
      → Sound events_digest quotas_digest w
      → Sound events_digest quotas_digest
          (scan_parsed save_ok sink_ok events_digest quotas_digest path pass cross end turn_start
            res w).0
  scan_parsed-Sound path pass cross end turn_start res w k =
      let es = drop_before pass.not_before res.events in
      let r = resolve_repos save_ok pass.device pass.resolve es w in
      deliver_all-Sound path cross pass.wants_quotas end turn_start res.quotas r.1 r.0
        (resolve_repos-Sound pass.device pass.resolve es w k)

  after_parse-Sound :
      (path : String) (spec : SourceSpec) (pass : Pass) (start : ℕ) (res : ParseResult)
      (resuming : Option InFlightScan) (w : World)
      → Sound events_digest quotas_digest w
      → Sound events_digest quotas_digest
          (after_parse save_ok sink_ok events_digest quotas_digest path spec pass start res resuming
            w).0
  after_parse-Sound path spec pass start res none w k =
      and_then-Sound
        (checked begin_failed w
          (begin_scan save_ok path start (start + res.consumed) res.turn_start_ms w.process))
        (λ u w'.
          scan_parsed save_ok sink_ok events_digest quotas_digest path pass spec.full_reparse
            (start + res.consumed) (turn_start_of (w'.process.memory.in_flight path)) res w')
        (checked-Sound begin_failed w _ (
          begin_scan-Sound events_digest quotas_digest w.accepted w.accepted_quotas save_ok path
            start (start + res.consumed) res.turn_start_ms w.process k.ledger))
        (λ u w' k'.
          scan_parsed-Sound path pass spec.full_reparse (start + res.consumed)
            (turn_start_of (w'.process.memory.in_flight path)) res w' k')
  after_parse-Sound path spec pass start res (some scan) w k =
      elim (Bool-cases (eqb (start + res.consumed) scan.scan_end)) [
        | inl same ↦
            rw same (scan_parsed-Sound path pass false scan.scan_end scan.turn_start_ms res w k)
        | inr other ↦ rw other k
      ]

  scan_bytes-Sound :
      (path : String) (spec : SourceSpec) (pass : Pass) (content : Bytes) (opens : Bool)
      (offset : ℕ) (resuming : Option InFlightScan) (w : World)
      → Sound events_digest quotas_digest w
      → Sound events_digest quotas_digest
          (scan_bytes save_ok sink_ok events_digest quotas_digest path spec pass content opens
            offset resuming w).0
  scan_bytes-Sound path spec pass content opens offset resuming w k =
      elim (Bool-cases (not (is_some resuming) && eqb (length content) offset || not opens)) [
        | inl idle ↦ rw idle k
        | inr busy ↦ rw busy (
            after_parse-Sound path spec pass (start_of spec.full_reparse offset resuming)
              (spec.parse
                (take
                  (end_of (length content) resuming - start_of spec.full_reparse offset resuming)
                  (drop (start_of spec.full_reparse offset resuming) content))
                pass.device (offset_of (w.process.memory.turn_start path)))
              resuming w k)
      ]

  discarded-Sound :
      (path : String) (why : ScanError) (w : World)
      → Sound events_digest quotas_digest w
      → Sound events_digest quotas_digest (checked why w (discard_scan save_ok path w.process)).0
  discarded-Sound path why w k = checked-Sound why w _ (
      discard_scan-Sound events_digest quotas_digest w.accepted w.accepted_quotas save_ok path
        w.process k.ledger)

  after_offset-Sound :
      (path : String) (spec : SourceSpec) (pass : Pass) (content : Bytes) (opens : Bool)
      (offset : ℕ) (in_flight : Option InFlightScan) (w : World)
      → Sound events_digest quotas_digest w
      → Sound events_digest quotas_digest
          (after_offset save_ok sink_ok events_digest quotas_digest path spec pass content opens
            offset in_flight w).0
  after_offset-Sound path spec pass content opens offset in_flight w k =
      elim (Bool-cases (is_shorter (length content) in_flight)) [
        | inl gone ↦ rw gone (
            and_then-Sound (checked discard_failed w (discard_scan save_ok path w.process))
              (λ u w'.
                scan_bytes save_ok sink_ok events_digest quotas_digest path spec pass content opens
                  offset none w')
              (discarded-Sound path discard_failed w k)
              (λ u w' k'. scan_bytes-Sound path spec pass content opens offset none w' k'))
        | inr there ↦ rw there (scan_bytes-Sound path spec pass content opens offset in_flight w k)
      ]

  pub scan_content-Sound :
      (path : String) (spec : SourceSpec) (pass : Pass) (content : Option Bytes) (opens : Bool)
      (w : World)
      → Sound events_digest quotas_digest w
      → Sound events_digest quotas_digest
          (scan_content save_ok sink_ok events_digest quotas_digest path spec pass content opens
            w).0
  scan_content-Sound path spec pass none opens w k = k
  scan_content-Sound path spec pass (some content) opens w k =
      elim (Bool-cases (ltb (length content) (offset_of (w.process.memory.files path)))) [
        | inl shorter ↦ rw shorter (
            and_then-Sound (checked discard_failed w (discard_scan save_ok path w.process))
              (λ u w'.
                after_offset save_ok sink_ok events_digest quotas_digest path spec pass content
                  opens 0 (w'.process.memory.in_flight path) w')
              (discarded-Sound path discard_failed w k)
              (λ u w' k'.
                after_offset-Sound path spec pass content opens 0 (w'.process.memory.in_flight path)
                  w' k'))
        | inr grown ↦ rw grown (
            after_offset-Sound path spec pass content opens
              (offset_of (w.process.memory.files path)) (w.process.memory.in_flight path) w k)
      ]
