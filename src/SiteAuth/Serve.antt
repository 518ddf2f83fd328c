-- ===== src/SiteAuth/Serve.antt =====
-- internal/siteauth: a sequence of calls of the site's routes and of the command that makes a code.
use omni_token.Prelude.{
  ℕ, String, Bool, true, false, List, [], ◌∷◌, ◌≡◌, refl, eqb, ◌==◌, inl, inr, Bool-cases,
  if◌then◌else◌,
}
use omni_token.SiteAuth.{SiteAuth, Attempt, allow_attempt}
use omni_token.SiteAuth.Handlers.{
  Request, SiteReply, Webauthn, failure, at_limit, write, SiteCall, generate_call, code_call,
  register_begin_call, register_finish_call, login_begin_call, login_finish_call, serve,
}

-- What a call that succeeds counts tried.
abbrev pub is_made : SiteCall × SiteReply → Bool
is_made (generate_call ttl now fresh tx_ok, p) = eqb p.status 200
is_made _ = false

abbrev pub is_code_login : SiteCall × SiteReply → Bool
is_code_login (code_call r, p) = eqb p.status 200
is_code_login _ = false

abbrev pub is_begun : SiteCall × SiteReply → Bool
is_begun (login_begin_call r, p) = eqb p.status 200
is_begun (register_begin_call r, p) = eqb p.status 200
is_begun _ = false

abbrev pub is_passkey_login : SiteCall × SiteReply → Bool
is_passkey_login (login_finish_call r, p) = eqb p.status 200
is_passkey_login _ = false

abbrev pub is_finished : SiteCall × SiteReply → Bool
is_finished (login_finish_call r, p) = eqb p.status 200
is_finished (register_finish_call r, p) = eqb p.status 200
is_finished _ = false

module _ {Data : Type 0} (digest to_upper : String → String) (library : Webauthn Data)
    (origin user : String) where
  -- The store after the calls, and the calls with their replies.
  unfoldable pub serve_all : List SiteCall → SiteAuth → SiteAuth × List (SiteCall × SiteReply)
  unfolding serve
  serve_all [] a = (a, [])
  serve_all (c ∷ calls) a =
      let (b, p) = serve digest to_upper library origin user c a in
      let (end, log) = serve_all calls b in (end, (c, p) ∷ log)

  pub write-Costs :
      (P : SiteAuth → SiteAuth × SiteReply → Type 0)
      (next : Request → SiteAuth → SiteAuth × SiteReply) (limited : Bool) (r : Request)
      (a : SiteAuth)
      → ((b : SiteAuth) → P b (next r b))
      → ((status : ℕ) → eqb status 200 ≡ false → P a (a, failure status))
      → ((tried : List Attempt) (o : SiteAuth × SiteReply)
          → P (record a { attempts = tried }) o
          → P a o)
      → ((tried : List Attempt) → P a (record a { attempts = tried }, failure 429))
      → P a (write origin next limited r a)
  unfolding write
  write-Costs P next limited r a h refused moved many = elim (Bool-cases (r.origin == origin)) [
    | inr other ↦ rw other (refused 403 refl)
    | inl same ↦ rw same (at limited)
  ]
    where
      at_attempts : (o : List Attempt × Bool) → P a (at_limit next r a o)
      at_attempts (tried, true) = moved tried (next r (record a { attempts = tried })) (h _)
      at_attempts (tried, false) = many tried

      at :
          (limited : Bool)
          → P a (
              if limited then at_limit next r a (allow_attempt r.ip r.now a.attempts) else next r a)
      at true = at_attempts (allow_attempt r.ip r.now a.attempts)
      at false = h a
