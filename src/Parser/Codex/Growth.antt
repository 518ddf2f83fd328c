-- ===== src/Parser/Codex/Growth.antt =====
-- internal/parser/codex/parser.go: a file is parsed whole again whenever it has grown. Lines that
-- come later change no more of an event than its provider and its turn's times.
use omni_token.Prelude.{
  ℕ, zero, suc, ◌+◌, String, Bool, true, false, Option, none, some, List, [], ◌∷◌, ◌++◌, map, ◌≡◌,
  refl, sym, ap, ◌∙◌, inl, inr, Bool-cases, ◌||◌, append_assoc, append-nil, if◌then◌else◌, length,
}
use omni_token.Model.Event.{Event}
use omni_token.Model.Provider.{provider_openai_chatgpt}
use omni_token.Parser.Codex.Turn.{
  OpenTurn, set_at, with_gen, with_ttft, write_shares, measure, close_turn, is_unmeasured,
  is_replayed,
}
use omni_token.Parser.Codex.Line.{
  Usage, Info, Entry, LineKind, session_meta, turn_context, task_started, task_closed, token_count,
  other_line, kind_of, RateLimits, delta_usage, apply_session_channel, in_channel, with_provider,
}
use omni_token.Parser.Codex.{
  Scan, start, tick, add_limits, is_empty_usage, or_previous, emit, add_usage, add_info, by_kind,
  after_unmarshal, step, scan_lines, parse,
}

-- What a closing record or the session's channel may still write is left out.
abbrev pub settled : Event → Event
settled e = record e { gen_ms = 0; ttft_ms = 0; provider = "" }

settled-set_at :
    (f : Event → Event) (n : ℕ) (es : List Event)
    → ((e : Event) → settled (f e) ≡ settled e)
    → map settled (set_at f n es) ≡ map settled es
unfolding set_at
settled-set_at f n [] h = refl
settled-set_at f zero (e ∷ es) h = ap (λ x. x ∷ map settled es) (h e)
settled-set_at f (suc n) (e ∷ es) h = ap (λ xs. settled e ∷ xs) (settled-set_at f n es h)

settled-write_shares :
    (is ns : List ℕ) (es : List Event) → map settled (write_shares is ns es) ≡ map settled es
unfolding write_shares
settled-write_shares [] ns es = refl
settled-write_shares (i ∷ is) [] es = refl
settled-write_shares (i ∷ is) (n ∷ ns) es =
    settled-write_shares is ns (set_at (with_gen n) i es)
    ∙ settled-set_at (with_gen n) i es (λ e. refl)

settled-measure :
    (duration ttft : ℕ) (t : OpenTurn) (is : List ℕ) (es : List Event)
    → map settled (measure duration ttft t is es) ≡ map settled es
settled-measure duration ttft t [] es = refl
settled-measure duration ttft t (i ∷ is) es =
    settled-write_shares t.idx _ (set_at (with_ttft ttft) i es)
    ∙ settled-set_at (with_ttft ttft) i es (λ e. refl)

settled-if :
    (b : Bool) (es es' : List Event)
    → map settled es' ≡ map settled es
    → map settled (if b then es else es') ≡ map settled es
settled-if true es es' h = refl
settled-if false es es' h = h

pub settled-close_turn :
    (close completed duration ttft : ℕ) (t : Option OpenTurn) (es : List Event)
    → map settled (close_turn close completed duration ttft t es) ≡ map settled es
unfolding close_turn
settled-close_turn close completed duration ttft none es = refl
settled-close_turn close completed duration ttft (some t) es =
    settled-if (is_unmeasured completed duration ttft || is_replayed close completed duration t.ts)
      es _ (settled-measure duration ttft t t.idx es)

-- The later events are the earlier ones, settled, and more.
abbrev pub Extends : List Event → List Event → Type 0
Extends es es' = (more : List Event) × (map settled es' ≡ map settled es ++ more)

Extends-refl : (es es' : List Event) → map settled es' ≡ map settled es → Extends es es'
Extends-refl es es' h = ([], h ∙ sym (append-nil (map settled es)))

Extends-trans : (a b c : List Event) → Extends a b → Extends b c → Extends a c
Extends-trans a b c (m, h) (n, k) =
    (m ++ n, k ∙ ap (λ xs. xs ++ n) h ∙ append_assoc (map settled a) m n)

map-append : (es es' : List Event) → map settled (es ++ es') ≡ map settled es ++ map settled es'
map-append [] es' = refl
map-append (e ∷ es) es' = ap (λ xs. settled e ∷ xs) (map-append es es')

module _ (sha1_hex : String → String) (unmarshal : List ℕ → Option Entry)
    (clock : String → Option ℕ) (device : String) where
  emit-Extends :
      (e : Entry) (model : String) (before : ℕ) (u : Usage) (total : Option Usage) (s : Scan)
      (ts : Option ℕ)
      → Extends s.events (emit sha1_hex unmarshal clock device e model before u total s ts).events
  emit-Extends e model before u total s none = Extends-refl s.events s.events refl
  emit-Extends e model before u total s (some ts) = (_, map-append s.events _)

  add_usage-Extends :
      (e : Entry) (model : String) (before : ℕ) (total : Option Usage) (s : Scan) (u : Option Usage)
      → Extends s.events (add_usage sha1_hex unmarshal clock device e model before total s u).events
  add_usage-Extends e model before total s none = Extends-refl s.events s.events refl
  add_usage-Extends e model before total s (some u) = elim (Bool-cases (is_empty_usage u)) [
    | inl blank ↦ rw blank (Extends-refl s.events s.events refl)
    | inr used ↦ rw used (emit-Extends e model before u total s (clock e.timestamp))
  ]

  add_info-Extends :
      (e : Entry) (before : ℕ) (info : Option Info) (s : Scan)
      → Extends s.events (add_info sha1_hex unmarshal clock device e before info s).events
  add_info-Extends e before none s = Extends-refl s.events s.events refl
  add_info-Extends e before (some info) s =
      add_usage-Extends e info.model before info.total_usage
        (record s { prev_total = or_previous info.total_usage s.prev_total })
        (delta_usage info.last_usage info.total_usage s.prev_total)

  pub add_limits-events :
      (q : Option RateLimits) (s : Scan) → (add_limits device q s).events ≡ s.events
  add_limits-events none s = refl
  add_limits-events (some q) s = refl

  by_kind-Extends :
      (k : LineKind) (e : Entry) (before : ℕ) (s : Scan)
      → Extends s.events (by_kind sha1_hex unmarshal clock device k e before s).events
  by_kind-Extends session_meta e before s = Extends-refl s.events s.events refl
  by_kind-Extends turn_context e before s = Extends-refl s.events s.events refl
  by_kind-Extends task_started e before s = Extends-refl s.events s.events refl
  by_kind-Extends task_closed e before s =
      Extends-refl s.events _ (settled-close_turn _ _ _ _ s.turn s.events)
  by_kind-Extends token_count e before s =
      let limited = add_limits device e.payload.rate_limits s in
      rw (add_limits-events e.payload.rate_limits s) at
        (add_info-Extends e before e.payload.info limited)
  by_kind-Extends other_line e before s = Extends-refl s.events s.events refl

  tick-events : (t : Option ℕ) (s : Scan) → (tick t s).events ≡ s.events
  tick-events none s = refl
  tick-events (some t) s = refl

  step-Extends :
      (line : List ℕ) (s : Scan)
      → Extends s.events (step sha1_hex unmarshal clock device line s).events
  unfolding step
  step-Extends line s = after (unmarshal line) (record s { consumed = s.consumed + length line })
    where
      after :
          (o : Option Entry) (s : Scan)
          → Extends s.events (after_unmarshal sha1_hex unmarshal clock device o s).events
      after none s = Extends-refl s.events s.events refl
      after (some e) s =
          rw (tick-events (clock e.timestamp) s) at
            (by_kind-Extends (kind_of e) e s.prev_ms (tick (clock e.timestamp) s))

  scan_lines-Extends :
      (lines : List (List ℕ)) (s : Scan)
      → Extends s.events (scan_lines sha1_hex unmarshal clock device lines s).events
  unfolding scan_lines
  scan_lines-Extends [] s = Extends-refl s.events s.events refl
  scan_lines-Extends (line ∷ lines) s =
      let next = step sha1_hex unmarshal clock device line s in
      Extends-trans s.events next.events _ (step-Extends line s) (scan_lines-Extends lines next)

  scan_lines-append :
      (lines more : List (List ℕ)) (s : Scan)
      → scan_lines sha1_hex unmarshal clock device (lines ++ more) s
        ≡ scan_lines sha1_hex unmarshal clock device more
            (scan_lines sha1_hex unmarshal clock device lines s)
  unfolding scan_lines
  scan_lines-append [] more s = refl
  scan_lines-append (line ∷ lines) more s =
      scan_lines-append lines more (step sha1_hex unmarshal clock device line s)

settled-with_provider :
    (p : String) (es : List Event) → map settled (map (with_provider p) es) ≡ map settled es
settled-with_provider p [] = refl
settled-with_provider p (e ∷ es) = ap (λ xs. settled e ∷ xs) (settled-with_provider p es)

pub settled-apply_session_channel :
    (trusted : Option (String → Bool)) (provider : String) (seen : Bool) (es : List Event)
    → map settled (apply_session_channel trusted provider seen es) ≡ map settled es
unfolding apply_session_channel
settled-apply_session_channel trusted provider seen es =
    elim (Bool-cases (in_channel trusted provider seen)) [
      | inl inside ↦ rw inside (settled-with_provider provider_openai_chatgpt es)
      | inr outside ↦ rw outside refl
    ]

module _ (sha1_hex : String → String) (unmarshal : List ℕ → Option Entry)
    (clock : String → Option ℕ) (device : String) (trusted : Option (String → Bool)) where
  -- Parsing a file that has grown gives the events of the shorter file first, in order, with the same
  -- ids, keys, times, models and token counts: only their providers and the times measured for their
  -- turns may differ.
  pub parse-grown :
      (lines more : List (List ℕ))
      → Extends
          (parse sha1_hex unmarshal clock device trusted lines).events
          (parse sha1_hex unmarshal clock device trusted (lines ++ more)).events
  unfolding parse
  parse-grown lines more =
      let s = scan_lines sha1_hex unmarshal clock device lines start in
      let s' = scan_lines sha1_hex unmarshal clock device more s in
      let (tail, grown) = scan_lines-Extends sha1_hex unmarshal clock device more s in
      rw (scan_lines-append sha1_hex unmarshal clock device lines more start) (
        tail,
        settled-apply_session_channel trusted s'.provider s'.subscription_seen s'.events
            ∙ grown
            ∙ ap (λ xs. xs ++ tail)
                (sym
                  (settled-apply_session_channel trusted s.provider s.subscription_seen s.events)),
      )
