-- ===== src/Parser/Codex/Totals.antt =====
-- internal/parser/codex/parser.go: the events of a file and its running totals, whichever of the two
-- ways its requests are reported in.
use omni_token.Prelude.{
  ℕ, ◌+◌, String, Bool, true, Option, none, some, List, [], ◌∷◌, ◌≡◌, refl, sym, ◌∙◌, subst, inl,
  inr, arith, Bool-cases, is_some, length,
}
use omni_token.Model.Snapshot.{QuotaSnapshot}
use omni_token.Parser.Codex.Line.{
  Usage, Info, Entry, LineKind, RateLimits, session_meta, turn_context, task_started, task_closed,
  token_count, other_line, kind_of, delta_usage,
}
use omni_token.Parser.Codex.{
  Scan, start, tick, add_limits, is_empty_usage, emit, add_usage, add_info, by_kind, step,
  scan_lines, parse,
}
use omni_token.Parser.Codex.Growth.{settled-close_turn, settled-apply_session_channel}
use omni_token.Parser.Codex.Running.{
  read_tokens, written_tokens, total_of, total_of-append, of_settled, or_zero, IsGrown, IsNext,
  IsDelta, delta_usage-IsDelta, InfoOk, EntryOk, LineOk, IsCumulative, Ledger,
}

module _ (sha1_hex : String → String) (unmarshal : List ℕ → Option Entry)
    (clock : String → Option ℕ) (device : String) where
  emit-totals :
      (e : Entry) (model : String) (before : ℕ) (u : Usage) (total : Option Usage) (s : Scan)
      (t : Option ℕ)
      → is_some t ≡ true
      → (total_of read_tokens
            (emit sha1_hex unmarshal clock device e model before u total s t).events
          ≡ total_of read_tokens s.events + u.input_tokens)
        × (total_of written_tokens
              (emit sha1_hex unmarshal clock device e model before u total s t).events
            ≡ total_of written_tokens s.events + u.output_tokens)
        × ((emit sha1_hex unmarshal clock device e model before u total s t).prev_total
            ≡ s.prev_total)
  emit-totals e model before u total s none timed = cc
  emit-totals e model before u total s (some t) timed = (
    omega (arith, total_of-append read_tokens s.events _),
    omega (arith, total_of-append written_tokens s.events _),
    refl,
  )

  add_usage-Ledger :
      (e : Entry) (model : String) (before : ℕ) (total : Option Usage) (s : Scan) (d : Option Usage)
      (previous : Option Usage) (u : Usage)
      → is_some (clock e.timestamp) ≡ true
      → Ledger (record s { prev_total = previous })
      → IsGrown previous u
      → IsDelta previous u d
      → s.prev_total ≡ some u
      → Ledger (add_usage sha1_hex unmarshal clock device e model before total s d)
        × ((add_usage sha1_hex unmarshal clock device e model before total s d).prev_total ≡ some u)
  add_usage-Ledger e model before total s none previous u timed k grown delta now = (
    record {
      read = k.read ∙ sym delta.0 ∙ (rw now refl);
      written = k.written ∙ sym delta.1 ∙ (rw now refl);
    },
    now,
  )
  add_usage-Ledger e model before total s (some d) previous u timed k grown delta now =
      elim (Bool-cases (is_empty_usage d)) [
        | inl blank ↦
            let none_read : d.input_tokens ≡ 0 = ground arith in
            let none_written : d.output_tokens ≡ 0 = ground arith in
            rw blank (
              record {
                read =
                    let same : total_of read_tokens s.events ≡ u.input_tokens =
                      omega (arith, k.read, delta.0, grown.0, none_read) in
                    same ∙ (rw now refl);
                written =
                    let same : total_of written_tokens s.events ≡ u.output_tokens =
                      omega (arith, k.written, delta.1, grown.1, none_written) in
                    same ∙ (rw now refl);
              },
              now,
            )
        | inr used ↦
            let (read, written, kept) =
              emit-totals e model before d total s (clock e.timestamp) timed in
            rw used (
              record {
                read =
                    read
                    ∙ (let same : total_of read_tokens s.events + d.input_tokens ≡ u.input_tokens =
                          omega (arith, k.read, delta.0, grown.0) in
                        same)
                    ∙ (rw (kept, now) refl);
                written =
                    written
                    ∙ (let same : total_of written_tokens s.events + d.output_tokens
                            ≡ u.output_tokens =
                          omega (arith, k.written, delta.1, grown.1) in
                        same)
                    ∙ (rw (kept, now) refl);
              },
              kept ∙ now,
            )
      ]

  next-IsGrown :
      (before : Option Usage) (u : Usage) (last : Option Usage)
      → IsNext before u last
      → IsGrown before u
  next-IsGrown before u last (inr (grown, agrees)) = grown
  next-IsGrown before u last (inl same) =
      subst (λ o. IsGrown o u) (sym same) (omega arith, omega arith)

  abbrev Keeps : Option Usage → Scan → Type 0
  Keeps after s = Ledger s × (s.prev_total ≡ after)

  add_info-Keeps :
      (e : Entry) (before : ℕ) (info : Option Info) (s : Scan) (after : Option Usage)
      → Ledger s
      → InfoOk clock e info s.prev_total after
      → Keeps after (add_info sha1_hex unmarshal clock device e before info s)
  add_info-Keeps e before none s after k ok = (k, sym ok)
  add_info-Keeps e before (some info) s after k (u, total, next, timed, end) =
      rw (end, total)
        (add_usage-Ledger e info.model before (some u) (record s { prev_total = some u })
          (delta_usage info.last_usage (some u) s.prev_total) s.prev_total u timed
          (record { read = k.read; written = k.written })
          (next-IsGrown s.prev_total u info.last_usage next)
          (delta_usage-IsDelta s.prev_total u info.last_usage next) refl)

  limited :
      (q : Option RateLimits) (s : Scan) (P : Scan → Type 0)
      → ((seen : Bool) (qs : List QuotaSnapshot)
          → P (record s { subscription_seen = seen; quotas = qs }))
      → P (add_limits device q s)
  limited none s P h = h s.subscription_seen s.quotas
  limited (some q) s P h = h _ _

  by_kind-Keeps :
      (k : LineKind) (e : Entry) (before : ℕ) (s : Scan) (after : Option Usage)
      → Ledger s
      → EntryOk clock k e s.prev_total after
      → Keeps after (by_kind sha1_hex unmarshal clock device k e before s)
  by_kind-Keeps session_meta e before s after k ok = (
    record { read = k.read ∙ (rw (ok.0) refl); written = k.written ∙ (rw (ok.0) refl) },
    sym ok.1,
  )
  by_kind-Keeps turn_context e before s after k ok =
      (record { read = k.read; written = k.written }, sym ok)
  by_kind-Keeps task_started e before s after k ok =
      (record { read = k.read; written = k.written }, sym ok)
  by_kind-Keeps task_closed e before s after k ok =
      let same = settled-close_turn _ _ _ _ s.turn s.events in
      (
        record {
          read = of_settled read_tokens _ s.events (λ e. refl) same ∙ k.read;
          written = of_settled written_tokens _ s.events (λ e. refl) same ∙ k.written;
        },
        sym ok,
      )
  by_kind-Keeps token_count e before s after k ok =
      limited e.payload.rate_limits s
        (λ s'. Keeps after (add_info sha1_hex unmarshal clock device e before e.payload.info s'))
        (λ seen qs.
          add_info-Keeps e before e.payload.info
            (record s { subscription_seen = seen; quotas = qs }) after
            (record { read = k.read; written = k.written }) ok)
  by_kind-Keeps other_line e before s after k ok = (k, sym ok)

  tick-Ledger : (t : Option ℕ) (s : Scan) → Ledger s → Ledger (tick t s)
  tick-Ledger none s k = k
  tick-Ledger (some t) s k = record { read = k.read; written = k.written }

  tick-total : (t : Option ℕ) (s : Scan) → (tick t s).prev_total ≡ s.prev_total
  tick-total none s = refl
  tick-total (some t) s = refl

  step-Keeps :
      (line : List ℕ) (s : Scan) (after : Option Usage)
      → Ledger s
      → LineOk clock unmarshal line s.prev_total after
      → Keeps after (step sha1_hex unmarshal clock device line s)
  unfolding step
  step-Keeps line s after k (inl (bad, end)) =
      rw bad (record { read = k.read; written = k.written }, sym end)
  step-Keeps line s after k (inr (e, good, ok)) =
      let s' = record s { consumed = s.consumed + length line } in
      let t = clock e.timestamp in
      rw good (
        by_kind-Keeps (kind_of e) e s.prev_ms (tick t s') after
          (tick-Ledger t s' (record { read = k.read; written = k.written }))
          (subst (λ o. EntryOk clock (kind_of e) e o after) (sym (tick-total t s')) ok))

  scan_lines-Keeps :
      (lines : List (List ℕ)) (s : Scan) (after : Option Usage)
      → Ledger s
      → IsCumulative clock unmarshal s.prev_total lines after
      → Keeps after (scan_lines sha1_hex unmarshal clock device lines s)
  unfolding scan_lines
  scan_lines-Keeps [] s after k end = (k, sym end)
  scan_lines-Keeps (line ∷ lines) s after k (next, ok, more) =
      let (k', now) = step-Keeps line s next k ok in
      scan_lines-Keeps lines (step sha1_hex unmarshal clock device line s) after k'
        (subst (λ o. IsCumulative clock unmarshal o lines after) (sym now) more)

  -- In a file where a session's own line comes only before the first total, and every line with
  -- token counts has a readable timestamp and a total that repeats the last one or has grown from
  -- it, in which case a request's own usage, if given, is the growth, the events' input and cached
  -- tokens add up to the last total's input and their output tokens to its output: nothing is lost
  -- or counted twice.
  pub parse-totals :
      (trusted : Option (String → Bool)) (lines : List (List ℕ)) (after : Option Usage)
      → IsCumulative clock unmarshal none lines after
      → (total_of read_tokens (parse sha1_hex unmarshal clock device trusted lines).events
          ≡ or_zero (λ (p : Usage). p.input_tokens) after)
        × (total_of written_tokens (parse sha1_hex unmarshal clock device trusted lines).events
            ≡ or_zero (λ (p : Usage). p.output_tokens) after)
  unfolding parse
  parse-totals trusted lines after ok =
      let s = scan_lines sha1_hex unmarshal clock device lines start in
      let (k, now) =
        scan_lines-Keeps lines start after (record { read = refl; written = refl }) ok in
      let same = settled-apply_session_channel trusted s.provider s.subscription_seen s.events in
      (
        of_settled read_tokens _ s.events (λ e. refl) same ∙ k.read ∙ (rw now refl),
        of_settled written_tokens _ s.events (λ e. refl) same ∙ k.written ∙ (rw now refl),
      )
