-- ===== src/SiteAuth/Sessions.antt =====
-- internal/siteauth: which logins the rows of the table of sessions belong to, over any calls.
use omni_token.Prelude.{
  ◌⊎◌, All, Any, All-mono, sym, subst, some, String, true, false, List, [], ◌∷◌, ◌≡◌, refl, inl,
  inr,
}
use omni_token.Fallible.{Fallible, ok, err}
use omni_token.SiteAuth.{AuthError, SiteAuth, generate_code}
use omni_token.SiteAuth.Handlers.{
  Request, SiteReply, Webauthn, code_login, logout, login_begin, register_begin, register_finish,
  login_finish, SiteCall, generate_call, code_call, logout_call, register_begin_call,
  register_finish_call, login_begin_call, login_finish_call, generated, serve,
}
use omni_token.SiteAuth.{Session, session_row}
use omni_token.SiteAuth.Serve.{serve_all, write-Costs}
use omni_token.SiteAuth.Opened.{generate_code-same}
use omni_token.SiteAuth.Signed.{
  Signs, Keeps, code_login-Signs, logout-Keeps, login_begin-Keeps, register_begin-Keeps,
  register_finish-Keeps, login_finish-Signs,
}

-- The reply is a success that sets the cookie of the session, and the row is the one for its token
-- at the time of the request.
abbrev pub SignedIn : (String → String) → Request → SiteReply → Session → Type 0
SignedIn digest r p s =
    (token : String) × (p.status ≡ 200)
    × (p.session ≡ some token)
    × (s ≡ session_row digest token r.now)

-- The call is a login by code or by passkey, and the session is its own.
abbrev pub Opens : (String → String) → Session → SiteCall × SiteReply → Type 0
Opens digest s (code_call r, p) = SignedIn digest r p s
Opens digest s (login_finish_call r, p) = SignedIn digest r p s
Opens digest s _ = ⊥

module _ {Data : Type 0} (digest to_upper : String → String) (library : Webauthn Data)
    (origin user : String) where
  served-All :
      (Q : Session → Type 0) (c : SiteCall) (a : SiteAuth)
      → All Q a.sessions
      → ((s : Session)
          → Opens digest s (c, (serve digest to_upper library origin user c a).1)
          → Q s)
      → All Q (serve digest to_upper library origin user c a).0.sessions
  unfolding serve
  served-All Q (generate_call ttl now fresh tx_ok) a h f =
      made (generate_code digest ttl now fresh tx_ok a)
        (generate_code-same digest ttl now fresh tx_ok a)
    where
      made :
          (o : SiteAuth × Fallible AuthError String)
          → o.0.sessions ≡ a.sessions
          → All Q (generated o).0.sessions
      made (b, err why) same = subst (All Q) (sym same) h
      made (b, ok shown) same = subst (All Q) (sym same) h
  served-All Q (code_call r) a h f =
      write-Costs digest to_upper library origin user (Signs digest to_upper Q r)
        (code_login digest to_upper) true r a (code_login-Signs digest to_upper Q r)
        (λ status other k grant. k) (λ tried o k. k) (λ tried k grant. k) h
        (λ token done sets. f (session_row digest token r.now) (token, done, sets, refl))
  served-All Q (logout_call r) a h f =
      write-Costs digest to_upper library origin user (Keeps digest to_upper Q)
        (logout digest to_upper) false r a (logout-Keeps digest to_upper Q r) (λ status other k. k)
        (λ tried o k. k) (λ tried k. k) h
  served-All Q (register_begin_call r) a h f =
      write-Costs digest to_upper library origin user (Keeps digest to_upper Q)
        (register_begin digest to_upper library) false r a
        (register_begin-Keeps digest to_upper Q library r) (λ status other k. k) (λ tried o k. k)
        (λ tried k. k) h
  served-All Q (register_finish_call r) a h f =
      write-Costs digest to_upper library origin user (Keeps digest to_upper Q)
        (register_finish digest to_upper library) false r a
        (register_finish-Keeps digest to_upper Q library r) (λ status other k. k) (λ tried o k. k)
        (λ tried k. k) h
  served-All Q (login_begin_call r) a h f =
      write-Costs digest to_upper library origin user (Keeps digest to_upper Q)
        (login_begin digest to_upper library) true r a
        (login_begin-Keeps digest to_upper Q library r) (λ status other k. k) (λ tried o k. k)
        (λ tried k. k) h
  served-All Q (login_finish_call r) a h f =
      write-Costs digest to_upper library origin user (Signs digest to_upper Q r)
        (login_finish digest to_upper library user) true r a
        (login_finish-Signs digest to_upper Q library user r) (λ status other k grant. k)
        (λ tried o k. k) (λ tried k grant. k) h
        (λ token done sets. f (session_row digest token r.now) (token, done, sets, refl))

  -- Every session is one of before, or a login's of the log.
  pub serve_all-Opens :
      (P : Session → Type 0) (calls : List SiteCall) (a : SiteAuth)
      → All P a.sessions
      → let o = serve_all digest to_upper library origin user calls a in
        All (λ s. P s ⊎ Any (Opens digest s) o.1) o.0.sessions
  unfolding serve_all
  serve_all-Opens P [] a h = All-mono P (λ s. P s ⊎ ⊥) a.sessions (λ s k. inl k) h
  serve_all-Opens P (c ∷ calls) a h =
      let o = serve digest to_upper library origin user c a in
      let now : Session → Type 0 = λ s. P s ⊎ Opens digest s (c, o.1) in
      let later = serve_all digest to_upper library origin user calls o.0 in
      let here : All now o.0.sessions =
        served-All now c a (All-mono P now a.sessions (λ s k. inl k) h) (λ s k. inr k) in
      All-mono (λ s. now s ⊎ Any (Opens digest s) later.1)
        (λ s. P s ⊎ Any (Opens digest s) ((c, o.1) ∷ later.1)) later.0.sessions
        (λ s k. assoc s (c, o.1) later.1 k) (serve_all-Opens now calls o.0 here)
    where
      assoc :
          (s : Session) (entry : SiteCall × SiteReply) (log : List (SiteCall × SiteReply))
          → (P s ⊎ Opens digest s entry) ⊎ Any (Opens digest s) log
          → P s ⊎ Any (Opens digest s) (entry ∷ log)
      assoc s entry log (inl (inl old)) = inl old
      assoc s entry log (inl (inr new)) = inr (inl new)
      assoc s entry log (inr more) = inr (inr more)
