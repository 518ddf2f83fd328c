-- ===== src/Parser/Codex/Fork.antt =====
-- internal/parser/codex/parser.go: a forked thread copies the lines of another file under its own
-- session and under new timestamps. Its events stand for the same generations.
use omni_token.Prelude.{
  ℕ, String, Option, none, some, List, [], ◌∷◌, map, ◌≡◌, ◌⊎◌, refl, sym, ap, subst, Bool, ◌∙◌, inl,
  inr, Bool-cases, is_some, length,
}
use omni_token.Parser.Codex.Turn.{close_turn}
use omni_token.Parser.Codex.Line.{
  Usage, Info, Payload, Entry, LineKind, RateLimits, session_meta, turn_context, task_started,
  task_closed, token_count, other_line, kind_of, delta_usage,
}
use omni_token.Parser.Codex.{
  Scan, start, tick, add_limits, is_empty_usage, or_previous, emit, add_usage, add_info, by_kind,
  after_unmarshal, step, scan_lines, parse,
}
use omni_token.Parser.Codex.Growth.{settled-close_turn, settled-apply_session_channel}
use omni_token.Parser.Codex.Copy.{
  generation, of_settled, map-append, Twin, CopyOf, CopyLine, Copies, joined-id,
}

module _ (sha1_hex : String → String) (unmarshal : List ℕ → Option Entry)
    (clock : String → Option ℕ) (device : String) where
  emit-Twin :
      (e e' : Entry) (model : String) (before before' : ℕ) (u : Usage) (total : Option Usage)
      (s s' : Scan) (t t' : Option ℕ)
      → is_some t ≡ is_some t'
      → Twin s s'
      → Twin
          (emit sha1_hex unmarshal clock device e model before u total s t)
          (emit sha1_hex unmarshal clock device e' model before' u total s' t')
  emit-Twin e e' model before before' u total s s' none none h w = w
  emit-Twin e e' model before before' u total s s' none (some t') h w = cc
  emit-Twin e e' model before before' u total s s' (some t) none h w = cc
  emit-Twin e e' model before before' u total s s' (some t) (some t') h w = record {
    total = w.total;
    turn =
        joined-id s.turn (length s.events) t
        ∙ w.turn
        ∙ sym (joined-id s'.turn (length s'.events) t');
    model = w.model;
    events =
        map-append s.events _
        ∙ (rw (w.events, w.turn, w.model) refl)
        ∙ sym (map-append s'.events _);
  }

  add_usage-Twin :
      (e e' : Entry) (model : String) (before before' : ℕ) (total : Option Usage) (s s' : Scan)
      (u : Option Usage)
      → is_some (clock e.timestamp) ≡ is_some (clock e'.timestamp)
      → Twin s s'
      → Twin
          (add_usage sha1_hex unmarshal clock device e model before total s u)
          (add_usage sha1_hex unmarshal clock device e' model before' total s' u)
  add_usage-Twin e e' model before before' total s s' none timed w = w
  add_usage-Twin e e' model before before' total s s' (some u) timed w =
      elim (Bool-cases (is_empty_usage u)) [
        | inl blank ↦ rw blank w
        | inr used ↦ rw used (
            emit-Twin e e' model before before' u total s s' (clock e.timestamp)
              (clock e'.timestamp) timed w)
      ]

  add_info-Twin :
      (e e' : Entry) (before before' : ℕ) (info : Option Info) (s s' : Scan)
      → is_some (clock e.timestamp) ≡ is_some (clock e'.timestamp)
      → Twin s s'
      → Twin
          (add_info sha1_hex unmarshal clock device e before info s)
          (add_info sha1_hex unmarshal clock device e' before' info s')
  add_info-Twin e e' before before' none s s' timed w = w
  add_info-Twin e e' before before' (some info) s s' timed w =
      let next =
        λ (s : Scan). record s { prev_total = or_previous info.total_usage s.prev_total } in
      let w' : Twin (next s) (next s') = record {
        total = ap (λ p. or_previous info.total_usage p) w.total;
        turn = w.turn;
        model = w.model;
        events = w.events;
      } in
      subst
        (λ u.
          Twin
            (add_usage sha1_hex unmarshal clock device e info.model before info.total_usage (next s)
              (delta_usage info.last_usage info.total_usage s.prev_total))
            (add_usage sha1_hex unmarshal clock device e' info.model before' info.total_usage
              (next s') u))
        (ap (λ p. delta_usage info.last_usage info.total_usage p) w.total)
        (add_usage-Twin e e' info.model before before' info.total_usage (next s) (next s')
          (delta_usage info.last_usage info.total_usage s.prev_total) timed w')

  add_limits-Twin :
      (q : Option RateLimits) (s s' : Scan)
      → Twin s s'
      → Twin (add_limits device q s) (add_limits device q s')
  add_limits-Twin none s s' w = w
  add_limits-Twin (some q) s s' w = record {
    total = w.total;
    turn = w.turn;
    model = w.model;
    events = w.events;
  }

  tick-Twin : (t t' : Option ℕ) (s s' : Scan) → Twin s s' → Twin (tick t s) (tick t' s')
  tick-Twin none none s s' w = w
  tick-Twin none (some t') s s' w = record {
    total = w.total;
    turn = w.turn;
    model = w.model;
    events = w.events;
  }
  tick-Twin (some t) none s s' w = record {
    total = w.total;
    turn = w.turn;
    model = w.model;
    events = w.events;
  }
  tick-Twin (some t) (some t') s s' w = record {
    total = w.total;
    turn = w.turn;
    model = w.model;
    events = w.events;
  }

  closed-Twin :
      (s s' : Scan) (a b c d a' b' c' d' : ℕ)
      → Twin s s'
      → Twin
          (record s { turn = none; events = close_turn a b c d s.turn s.events })
          (record s' { turn = none; events = close_turn a' b' c' d' s'.turn s'.events })
  closed-Twin s s' a b c d a' b' c' d' w = record {
    total = w.total;
    turn = refl;
    model = w.model;
    events =
        of_settled _ s.events (settled-close_turn a b c d s.turn s.events)
        ∙ w.events
        ∙ sym (of_settled _ s'.events (settled-close_turn a' b' c' d' s'.turn s'.events));
  }

  by_kind-Twin :
      (k : LineKind) (e e' : Entry) (before before' : ℕ) (s s' : Scan)
      → is_some (clock e.timestamp) ≡ is_some (clock e'.timestamp)
      → (k ≡ session_meta) ⊎ (e.payload ≡ e'.payload)
      → Twin s s'
      → Twin
          (by_kind sha1_hex unmarshal clock device k e before s)
          (by_kind sha1_hex unmarshal clock device k e' before' s')
  by_kind-Twin session_meta e e' before before' s s' timed p w = record {
    total = refl;
    turn = w.turn;
    model = w.model;
    events = w.events;
  }
  by_kind-Twin turn_context e e' before before' s s' timed (inl meta) w = cc
  by_kind-Twin turn_context e e' before before' s s' timed (inr same) w = record {
    total = w.total;
    turn = w.turn;
    model = rw (same, w.model) refl;
    events = w.events;
  }
  by_kind-Twin task_started e e' before before' s s' timed (inl meta) w = cc
  by_kind-Twin task_started e e' before before' s s' timed (inr same) w = record {
    total = w.total;
    turn = ap (λ (p : Payload). p.turn_id) same;
    model = w.model;
    events = w.events;
  }
  by_kind-Twin task_closed e e' before before' s s' timed p w = closed-Twin s s' _ _ _ _ _ _ _ _ w
  by_kind-Twin token_count e e' before before' s s' timed (inl meta) w = cc
  by_kind-Twin token_count e e' before before' s s' timed (inr same) w =
      subst
        (λ (p : Payload).
          Twin
            (add_info sha1_hex unmarshal clock device e before e.payload.info
              (add_limits device e.payload.rate_limits s))
            (add_info sha1_hex unmarshal clock device e' before' p.info
              (add_limits device p.rate_limits s')))
        (same)
        (add_info-Twin e e' before before' e.payload.info _ _ timed
          (add_limits-Twin e.payload.rate_limits s s' w))
  by_kind-Twin other_line e e' before before' s s' timed p w = w

  after_unmarshal-Twin :
      (e e' : Entry) (s s' : Scan)
      → CopyOf clock e e'
      → Twin s s'
      → Twin
          (after_unmarshal sha1_hex unmarshal clock device (some e) s)
          (after_unmarshal sha1_hex unmarshal clock device (some e') s')
  after_unmarshal-Twin e e' s s' copy w =
      let ticked = tick-Twin (clock e.timestamp) (clock e'.timestamp) s s' w in
      let same =
        by_kind-Twin (kind_of e) e e' s.prev_ms s'.prev_ms _ _ copy.timed copy.payload ticked in
      subst
        (λ (k : LineKind).
          Twin (after_unmarshal sha1_hex unmarshal clock device (some e) s) (
            by_kind sha1_hex unmarshal clock device k e' s'.prev_ms (tick (clock e'.timestamp) s')))
        (copy.kind) (same)

  step-Twin :
      (line line' : List ℕ) (s s' : Scan)
      → CopyLine clock unmarshal line line'
      → Twin s s'
      → Twin
          (step sha1_hex unmarshal clock device line s)
          (step sha1_hex unmarshal clock device line' s')
  unfolding step
  step-Twin line line' s s' (inl (bad, bad')) w =
      rw (bad, bad') (record { total = w.total; turn = w.turn; model = w.model; events = w.events })
  step-Twin line line' s s' (inr (e, e', good, good', copy)) w =
      rw (good, good')
        (after_unmarshal-Twin e e' _ _ copy
          (record { total = w.total; turn = w.turn; model = w.model; events = w.events }))

  scan_lines-Twin :
      (lines lines' : List (List ℕ)) (s s' : Scan)
      → Copies clock unmarshal lines lines'
      → Twin s s'
      → Twin
          (scan_lines sha1_hex unmarshal clock device lines s)
          (scan_lines sha1_hex unmarshal clock device lines' s')
  unfolding scan_lines
  scan_lines-Twin [] [] s s' h w = w
  scan_lines-Twin [] (l ∷ ls) s s' h w = elim h [ ]
  scan_lines-Twin (l ∷ ls) [] s s' h w = elim h [ ]
  scan_lines-Twin (l ∷ ls) (m ∷ ms) s s' h w =
      scan_lines-Twin ls ms _ _ h.1 (step-Twin l m s s' h.0 w)

  -- The copy of a file under another session and other timestamps, as a fork writes it, gives the
  -- same generations in the same order: the same dedup keys, models and token counts.
  pub parse-Copies :
      (trusted : Option (String → Bool)) (lines lines' : List (List ℕ))
      → Copies clock unmarshal lines lines'
      → map generation (parse sha1_hex unmarshal clock device trusted lines').events
        ≡ map generation (parse sha1_hex unmarshal clock device trusted lines).events
  unfolding parse
  parse-Copies trusted lines lines' copies =
      let s = scan_lines sha1_hex unmarshal clock device lines start in
      let s' = scan_lines sha1_hex unmarshal clock device lines' start in
      let w =
        scan_lines-Twin lines lines' start start copies
          (record { total = refl; turn = refl; model = refl; events = refl }) in
      of_settled _ s'.events
        (settled-apply_session_channel trusted s'.provider s'.subscription_seen s'.events)
      ∙ sym w.events
      ∙ sym (
          of_settled _ s.events
            (settled-apply_session_channel trusted s.provider s.subscription_seen s.events))
