-- ===== src/Tests/SiteAuthTests.antt =====
-- Tests of SiteAuth.
use omni_token.Prelude.{
  All, Any, ℕ, ◌+◌, ◌≤◌, String, true, none, some, List, [], ◌∷◌, ◌≡◌, refl, arith, min, suc,
  length, count_where, find_where, delete_where,
}
use omni_token.Fallible.{ok, err}
use omni_token.SiteAuth.{empty_site, hour_ns, denied, generate_code, consume_code}
use omni_token.SiteAuth.Handlers.{
  Request, Webauthn, SiteCall, generate_call, code_call, login_begin_call,
}
use omni_token.SiteAuth.Codes.{logged_in, generate_code-consume}
use omni_token.SiteAuth.Serve.{
  serve_all, is_made, is_code_login, is_begun, is_finished, is_passkey_login,
}
use omni_token.SiteAuth.Sessions.{Opens}
use omni_token.SiteAuth.Ledger.{serve_all-spent}
use omni_token.SiteAuth.Attempts.{allowed, is_for, allowed-minute}

abbrev same_text : String → String
same_text s = s

abbrev library : Webauthn String
library = record {
  unmarshal = λ raw. some raw;
  readable = λ raw. true;
  begin_registration = λ cs. some (some "data");
  finish_registration = λ cs d body. none;
  begin_login = some (some "data");
  finish_login = λ known d body. none;
}

abbrev typed : String → String → Request
typed text token = record {
  origin = "https://hub";
  ip = "10.0.0.1";
  session_cookie = none;
  challenge_cookie = none;
  code = some text;
  body = "";
  now = 60;
  token = some token;
  db = λ n. true;
}

-- A code is made, used, and tried again; a login by passkey is begun.
abbrev visits : List SiteCall
visits =
    generate_call hour_ns 0 (some "ABCDEF") true
    ∷ code_call (typed " abcd-ef" "t1")
    ∷ code_call (typed "ABCD-EF" "t2")
    ∷ code_call (typed "ABCD-EF" "t3")
    ∷ login_begin_call (typed "" "t4")
    ∷ []

one_login :
    count_where is_code_login
      (serve_all same_text same_text library "https://hub" "me" visits empty_site).1
    ≡ 1
unfolding serve_all count_where
one_login = refl

serve_all-spent_example :
    let (a, log) = serve_all same_text same_text library "https://hub" "me" visits empty_site in
    (count_where is_code_login log ≤ count_where is_made log)
    × (count_where is_finished log ≤ count_where is_begun log)
    × (length a.sessions ≤ count_where is_code_login log + count_where is_passkey_login log)
    × All (λ s. Any (Opens same_text s) log) a.sessions
serve_all-spent_example = serve_all-spent same_text same_text library "https://hub" "me" visits

generate_code-consume_example :
    (shown : String) × ((generate_code same_text hour_ns 0 (some "ABCDEF") true empty_site).1
      ≡ ok shown)
    × (consume_code same_text same_text shown
          (some "t1")
          60
          true
          (generate_code same_text hour_ns 0 (some "ABCDEF") true empty_site).0
        ≡ (logged_in same_text same_text "t1" 60 empty_site, ok "t1"))
    × ((text next : String) (ever : ℕ)
        → consume_code same_text same_text text
            (some next)
            ever
            true
            (logged_in same_text same_text "t1" 60 empty_site)
          ≡ (logged_in same_text same_text "t1" 60 empty_site, err denied))
unfolding find_where
generate_code-consume_example =
    generate_code-consume same_text same_text hour_ns 0 60 "ABCDEF" "t1" empty_site
      (refl, refl, (refl, refl, (refl, refl, (refl, refl, (refl, refl, (refl, refl, tt)))))) refl
      (omega arith) (omega arith) (omega arith) refl

abbrev tries : List (String × ℕ)
tries = ("a", 5) ∷ ("b", 6) ∷ ("a", 7) ∷ []

allowed-minute_example :
    allowed "a" (("a", 1) ∷ tries) [] ≡ min 20 (suc (count_where (is_for "a") tries))
unfolding find_where delete_where
allowed-minute_example =
    allowed-minute "a" 1 tries [] refl (omega arith) (omega arith, (omega arith, (omega arith, tt)))
