-- ===== src/Tests/ParserTests.antt =====
-- Tests of Parser.
use omni_token.Prelude.{
  ℕ, ◌+◌, ◌≤◌, ◌<◌, String, Option, none, some, List, [], ◌∷◌, ◌++◌, map, ◌≡◌, refl, inl, inr,
  arith, All, eqb, ◌==◌, if◌then◌else◌, length,
}
use omni_token.Model.Event.{Event}
use omni_token.Parser.Codex.Turn.{sum, gaps, raw_shares, shares}
use omni_token.Parser.Codex.Line.{Usage, Payload, Entry, kind_of}
use omni_token.Parser.Codex.{parse}
use omni_token.Parser.Codex.Shares.{Within, tail, shares-IsDivided}
use omni_token.Parser.Codex.Growth.{Extends, parse-grown}
use omni_token.Parser.Codex.Fork.{parse-Copies}
use omni_token.Parser.Codex.Copy.{generation, Copies}
use omni_token.Parser.Codex.Totals.{parse-totals}
use omni_token.Parser.Codex.Running.{total_of, read_tokens, written_tokens, IsCumulative}

abbrev totals : ℕ → ℕ → Usage
totals input output = record {
  input_tokens = input;
  cached_input = 10;
  cache_write_input = 0;
  output_tokens = output;
  reasoning_tokens = 0;
  total_tokens = input + output;
}

abbrev blank_payload : Payload
blank_payload = record {
  rollout_id = "";
  session_id = "";
  cwd = "";
  cli_version = "";
  model_provider = "";
  model = "";
  payload_type = "";
  info = none;
  turn_id = "";
  completed_at = 0;
  duration_ms = 0;
  ttft_ms = 0;
  rate_limits = none;
}

abbrev counted : String → Option Usage → Usage → Entry
counted ts last total = record {
  timestamp = ts;
  entry_type = "event_msg";
  payload = record blank_payload {
    payload_type = "token_count";
    info = some (record { model = "gpt"; last_usage = last; total_usage = some total });
  };
}

abbrev session : String → Entry
session id = record {
  timestamp = id;
  entry_type = "session_meta";
  payload = record blank_payload { rollout_id = id; session_id = id };
}

abbrev started : String → Entry
started ts = record {
  timestamp = ts;
  entry_type = "event_msg";
  payload = record blank_payload {
    payload_type = "task_started";
    turn_id = "aaaaaaaa-aaaa-4aaa-8aaa-aaaaaaaaaaaa";
  };
}

-- The lines by their first byte; from 10 on they are the copies that a fork writes.
abbrev by_byte : ℕ → Option Entry
by_byte b =
    if eqb b 1
    then some (session "a")
    else if eqb b 2
    then some (started "a")
    else if eqb b 3
    then some (counted "a" none (totals 100 40))
    else if eqb b 4
    then some (counted "a" (some (totals 150 50)) (totals 250 90))
    else if eqb b 11
    then some (session "b")
    else if eqb b 12
    then some (started "b")
    else if eqb b 13
    then some (counted "b" none (totals 100 40))
    else if eqb b 14
    then some (counted "b" (some (totals 150 50)) (totals 250 90))
    else none

abbrev unmarshal : List ℕ → Option Entry
unmarshal [] = none
unmarshal (b ∷ bs) = by_byte b

abbrev clock : String → Option ℕ
clock ts = if ts == "a" then some 1000 else some 5000

abbrev digest : String → String
digest s = s

-- The second count is repeated, as a refresh of the rate limits does.
abbrev rollout : List (List ℕ)
rollout = (1 ∷ []) ∷ (2 ∷ []) ∷ (3 ∷ []) ∷ (4 ∷ []) ∷ (4 ∷ []) ∷ []

abbrev fork : List (List ℕ)
fork = (11 ∷ []) ∷ (12 ∷ []) ∷ (13 ∷ []) ∷ (14 ∷ []) ∷ (14 ∷ []) ∷ []

abbrev read_from : List (List ℕ) → List Event
read_from lines = (parse digest unmarshal clock "laptop" none lines).events

two_requests : map (λ (e : Event). e.input_tokens) (read_from rollout) ≡ 90 ∷ 140 ∷ []
unfolding parse
two_requests = refl

shares-IsDivided_example :
    All (λ n. 0 < n) (shares 400 (1000 ∷ 1100 ∷ 1100 ∷ 1900 ∷ []))
    × (400 ≤ sum (shares 400 (1000 ∷ 1100 ∷ 1100 ∷ 1900 ∷ [])))
    × (sum (shares 400 (1000 ∷ 1100 ∷ 1100 ∷ 1900 ∷ []))
        ≤ 400 + length {A = ℕ} (1000 ∷ 1100 ∷ 1100 ∷ 1900 ∷ []))
    × (sum (raw_shares 400 1000 (1100 ∷ 1100 ∷ 1900 ∷ [])) ≡ 400)
    × Within
        (tail (raw_shares 400 1000 (1100 ∷ 1100 ∷ 1900 ∷ [])))
        (gaps 1000 (1100 ∷ 1100 ∷ 1900 ∷ []))
shares-IsDivided_example =
    shares-IsDivided 400 1000 (1100 ∷ 1100 ∷ 1900 ∷ [])
      (omega arith, (omega arith, (omega arith, tt))) (omega arith)

parse-grown_example :
    Extends
      (read_from ((1 ∷ []) ∷ (3 ∷ []) ∷ []))
      (read_from (((1 ∷ []) ∷ (3 ∷ []) ∷ []) ++ (2 ∷ []) ∷ (4 ∷ []) ∷ []))
parse-grown_example =
    parse-grown digest unmarshal clock "laptop" none ((1 ∷ []) ∷ (3 ∷ []) ∷ [])
      ((2 ∷ []) ∷ (4 ∷ []) ∷ [])

fork-Copies : Copies clock unmarshal rollout fork
unfolding kind_of
fork-Copies = (
  inr (_, _, refl, refl, record { kind = refl; timed = refl; payload = inl refl }),
  (
    inr (_, _, refl, refl, record { kind = refl; timed = refl; payload = inr refl }),
    (
      inr (_, _, refl, refl, record { kind = refl; timed = refl; payload = inr refl }),
      (
        inr (_, _, refl, refl, record { kind = refl; timed = refl; payload = inr refl }),
        (inr (_, _, refl, refl, record { kind = refl; timed = refl; payload = inr refl }), tt),
      ),
    ),
  ),
)

parse-Copies_example : map generation (read_from fork) ≡ map generation (read_from rollout)
parse-Copies_example = parse-Copies digest unmarshal clock "laptop" none rollout fork fork-Copies

rollout-IsCumulative : IsCumulative clock unmarshal none rollout (some (totals 250 90))
unfolding kind_of
rollout-IsCumulative = (
  none,
  inr (_, refl, (refl, refl)),
  (
    none,
    inr (_, refl, refl),
    (
      some (totals 100 40),
      inr (_, refl, (_, refl, inr ((omega arith, omega arith), tt), refl, refl)),
      (
        some (totals 250 90),
        inr (_, refl, (_, refl, inr ((omega arith, omega arith), (refl, refl)), refl, refl)),
        (some (totals 250 90), inr (_, refl, (_, refl, inl refl, refl, refl)), refl),
      ),
    ),
  ),
)

parse-totals_example :
    (total_of read_tokens (read_from rollout) ≡ 250)
    × (total_of written_tokens (read_from rollout) ≡ 90)
parse-totals_example =
    parse-totals digest unmarshal clock "laptop" none rollout (some (totals 250 90))
      rollout-IsCumulative
