-- ===== src/SiteAuth/Handlers.antt =====
-- internal/siteauth/http.go: the handlers that change the site's tables, as the mux calls them. The
-- WebAuthn library, the digest and the decoding of a body are parameters. The n-th database call of a
-- request succeeds where its `db` says so; a reply is its status and the two cookies it sets.
use omni_token.Prelude.{
  ℕ, suc, ◌-◌, ◌*◌, String, Bool, true, false, not, ◌&&◌, ◌||◌, Option, none, some, List, [], ◌∷◌,
  ◌==◌, ltb, leb, eqb, if◌then◌else◌, length, find_where, delete_where,
}
use omni_token.Model.Envelope.{codes}
use omni_token.Fallible.{Fallible, ok, err}
use omni_token.SiteAuth.{
  AuthError, Session, SiteAuth, Credential, Attempt, unix, minute_ns, is_session, generate_code,
  consume_code, new_session, store_challenge, take_challenge, save_credential, allow_attempt,
}

-- `code` is the body of POST /auth/code where it is one object with that field and nothing else.
pub record Request : Type 0 where
  pub origin : String
  pub ip : String
  pub session_cookie : Option String
  pub challenge_cookie : Option String
  pub code : Option String
  pub body : String
  pub now : ℕ
  pub token : Option String
  pub db : ℕ → Bool

pub record SiteReply : Type 0 where
  pub status : ℕ
  pub session : Option String
  pub challenge : Option String

abbrev pub failure : ℕ → SiteReply
failure status = record { status = status; session = none; challenge = none }

-- The reply after the challenge's cookie is cleared.
abbrev pub cleared : SiteReply → SiteReply
cleared p = record p { challenge = some "" }

abbrev pub entered : String → SiteReply
entered token = record { status = 200; session = some token; challenge = none }

-- What github.com/go-webauthn/webauthn answers, and whether a stored credential can be decoded.
pub record Webauthn (Data : Type 0) : Type 0 where
  pub unmarshal : String → Option Data
  pub readable : String → Bool
  pub begin_registration : List Credential → Option (Option String)
  pub finish_registration : List Credential → Data → String → Option (String × String)
  pub begin_login : Option (Option String)
  pub finish_login : (String → String → Bool) → Data → String → Option (String × String × Bool)

-- Auth.write around a handler.
abbrev pub at_limit :
    (Request → SiteAuth → SiteAuth × SiteReply)
    → Request
    → SiteAuth
    → List Attempt × Bool
    → SiteAuth × SiteReply
at_limit next r a (attempts, false) = (record a { attempts = attempts }, failure 429)
at_limit next r a (attempts, true) = next r (record a { attempts = attempts })

unfoldable pub write :
    String
    → (Request → SiteAuth → SiteAuth × SiteReply)
    → Bool
    → Request
    → SiteAuth
    → SiteAuth × SiteReply
unfolding allow_attempt
write origin next limited r a =
    if not (r.origin == origin)
    then (a, failure 403)
    else if limited
    then at_limit next r a (allow_attempt r.ip r.now a.attempts)
    else next r a

-- The routes that write, and the command line's own call of GenerateCode.
pub data SiteCall : Type 0 where
  generate_call : ℕ → ℕ → Option String → Bool → SiteCall
  code_call logout_call register_begin_call register_finish_call : Request → SiteCall
  login_begin_call login_finish_call : Request → SiteCall

abbrev pub generated : SiteAuth × Fallible AuthError String → SiteAuth × SiteReply
generated (a, err why) = (a, failure 500)
generated (a, ok shown) = (a, failure 200)

module _ (digest to_upper : String → String) where
  abbrev session_at : Option String → ℕ → Bool → SiteAuth → Option Session
  session_at none now query_ok a = none
  session_at (some value) now query_ok a =
      if eqb (length (codes value)) 43 && query_ok
      then find_where (λ s. is_session (digest value) s && ltb (unix now) s.expires_at) a.sessions
      else none

  -- Auth.session: the row of the request's cookie.
  unfoldable pub current_session : Request → ℕ → SiteAuth → Option Session
  unfolding find_where
  current_session r n a = session_at r.session_cookie r.now (r.db n) a

  abbrev pub without_session : Bool → Option Session → SiteAuth → SiteAuth
  without_session exec_ok none a = a
  without_session exec_ok (some s) a =
      if exec_ok
      then record a { sessions = delete_where (is_session s.token_hash) a.sessions }
      else a

  abbrev pub after_consume : Request → SiteAuth × Fallible AuthError String → SiteAuth × SiteReply
  after_consume r (a, err why) = (a, failure 401)
  after_consume r (a, ok token) =
      (without_session (r.db 2) (current_session r 1 a) a, entered token)

  abbrev pub at_code : Request → Option String → SiteAuth → SiteAuth × SiteReply
  at_code r none a = (a, failure 400)
  at_code r (some text) a =
      after_consume r (consume_code digest to_upper text r.token r.now (r.db 0) a)

  unfoldable pub code_login : Request → SiteAuth → SiteAuth × SiteReply
  unfolding current_session consume_code delete_where
  code_login r a = at_code r r.code a

  abbrev pub at_logout : Request → Option Session → SiteAuth → SiteAuth × SiteReply
  at_logout r none a = (a, failure 401)
  at_logout r (some s) a =
      if r.db 1
      then (
        without_session true (some s) a,
        record { status = 200; session = some ""; challenge = some "" },
      )
      else (a, failure 500)

  unfoldable pub logout : Request → SiteAuth → SiteAuth × SiteReply
  unfolding current_session delete_where
  logout r a = at_logout r (current_session r 0 a) a

  -- Auth.recentSession: the session's digest, if it signed in within ten minutes.
  abbrev pub recent : ℕ → Option Session → Option String
  recent now none = none
  recent now (some s) =
      if ltb (10 * minute_ns) (now - 1000000000 * s.auth_at) then none else some s.token_hash

  module _ {Data : Type 0} (library : Webauthn Data) where
    -- Auth.loadUser: every stored credential has to be readable.
    abbrev pub all_readable : List Credential → Bool
    all_readable [] = true
    all_readable (c ∷ cs) = library.readable c.raw && all_readable cs

    abbrev pub challenge_begun : SiteAuth × Fallible AuthError String → SiteAuth × SiteReply
    challenge_begun (a, err why) = (a, failure 500)
    challenge_begun (a, ok token) =
        (a, record { status = 200; session = none; challenge = some token })

    -- BeginRegistration or BeginDiscoverableLogin, whose data is none where it cannot be encoded.
    abbrev pub at_begin :
        Request → String → String → Option (Option String) → ℕ → SiteAuth → SiteAuth × SiteReply
    at_begin r kind binding none n a = (a, failure 500)
    at_begin r kind binding (some raw) n a =
        challenge_begun
          (store_challenge digest kind binding raw r.token r.now (r.db n) (r.db (suc n)) a)

    unfoldable pub login_begin : Request → SiteAuth → SiteAuth × SiteReply
    unfolding store_challenge
    login_begin r a = at_begin r "login" "" library.begin_login 0 a

    abbrev pub at_recent : Request → Option String → SiteAuth → SiteAuth × SiteReply
    at_recent r none a = (a, failure 401)
    at_recent r (some hash) a =
        if not (r.db 1 && all_readable a.credentials)
        then (a, failure 500)
        else if leb 10 (length a.credentials)
        then (a, failure 400)
        else at_begin r "register" hash (library.begin_registration a.credentials) 2 a

    unfoldable pub register_begin : Request → SiteAuth → SiteAuth × SiteReply
    unfolding current_session store_challenge
    register_begin r a = at_recent r (recent r.now (current_session r 0 a)) a

    -- Auth.challenge, then the rest of the handler with the challenge's data.
    abbrev pub after_take :
        (Data → SiteAuth → SiteAuth × SiteReply)
        → SiteAuth × Fallible AuthError Data
        → SiteAuth × SiteReply
    after_take next (a, err why) = (a, cleared (failure 400))
    after_take next (a, ok d) = let (a', p) = next d a in (a', cleared p)

    abbrev pub at_challenge :
        Request
        → String
        → String
        → Option String
        → ℕ
        → (Data → SiteAuth → SiteAuth × SiteReply)
        → SiteAuth
        → SiteAuth × SiteReply
    at_challenge r kind binding none n next a = (a, failure 400)
    at_challenge r kind binding (some token) n next a =
        after_take next
          (take_challenge digest library.unmarshal token kind binding r.now (r.db n) a)

    abbrev pub credential_stored : Option (List Credential) → SiteAuth → SiteAuth × SiteReply
    credential_stored none a = (a, failure 500)
    credential_stored (some credentials) a = (record a { credentials = credentials }, failure 200)

    abbrev pub at_registered : Request → Option (String × String) → SiteAuth → SiteAuth × SiteReply
    at_registered r none a = (a, failure 400)
    at_registered r (some (id, raw)) a =
        credential_stored (save_credential id raw true r.now (r.db 3) a.credentials) a

    abbrev pub registered : Request → Data → SiteAuth → SiteAuth × SiteReply
    registered r d a =
        if not (r.db 2 && all_readable a.credentials)
        then (a, failure 500)
        else if leb 10 (length a.credentials)
        then (a, failure 400)
        else at_registered r (library.finish_registration a.credentials d r.body) a

    abbrev pub at_binding : Request → Option String → SiteAuth → SiteAuth × SiteReply
    at_binding r none a = (a, failure 401)
    at_binding r (some hash) a =
        at_challenge r "register" hash r.challenge_cookie 1 (registered r) a

    unfoldable pub register_finish : Request → SiteAuth → SiteAuth × SiteReply
    unfolding current_session take_challenge save_credential
    register_finish r a = at_binding r (recent r.now (current_session r 0 a)) a

    -- The lookup that FinishDiscoverableLogin calls.
    unfoldable pub is_known : String → List Credential → String → String → Bool
    is_known user [] raw_id handle = false
    is_known user (c ∷ cs) raw_id handle =
        handle == user && c.id == raw_id || is_known user cs raw_id handle

    abbrev pub session_opened :
        Request → SiteAuth × Fallible AuthError String → SiteAuth × SiteReply
    session_opened r (a, err why) = (a, failure 500)
    session_opened r (a, ok token) =
        (without_session (r.db 5) (current_session r 4 a) a, entered token)

    abbrev pub renewed : Request → Option (List Credential) → SiteAuth → SiteAuth × SiteReply
    renewed r none a = (a, failure 500)
    renewed r (some credentials) a =
        session_opened r
          (new_session digest r.token r.now (r.db 3) (record a { credentials = credentials }))

    abbrev pub at_assertion :
        Request → Option (String × String × Bool) → SiteAuth → SiteAuth × SiteReply
    at_assertion r none a = (a, failure 401)
    at_assertion r (some (id, raw, clone_warning)) a =
        if clone_warning
        then (a, failure 401)
        else renewed r (save_credential id raw false r.now (r.db 2) a.credentials) a

    abbrev pub asserted : String → Request → Data → SiteAuth → SiteAuth × SiteReply
    asserted user r d a =
        if r.db 1 && all_readable a.credentials
        then at_assertion r (library.finish_login (is_known user a.credentials) d r.body) a
        else (a, failure 500)

    unfoldable pub login_finish : String → Request → SiteAuth → SiteAuth × SiteReply
    unfolding current_session take_challenge save_credential new_session delete_where is_known
    login_finish user r a = at_challenge r "login" "" r.challenge_cookie 0 (asserted user r) a

    unfoldable pub serve : String → String → SiteCall → SiteAuth → SiteAuth × SiteReply
    unfolding generate_code write code_login logout register_begin register_finish login_begin
        login_finish
    serve origin user (generate_call ttl now fresh tx_ok) a =
        generated (generate_code digest ttl now fresh tx_ok a)
    serve origin user (code_call r) a = write origin code_login true r a
    serve origin user (logout_call r) a = write origin logout false r a
    serve origin user (register_begin_call r) a = write origin register_begin false r a
    serve origin user (register_finish_call r) a = write origin register_finish false r a
    serve origin user (login_begin_call r) a = write origin login_begin true r a
    serve origin user (login_finish_call r) a = write origin (login_finish user) true r a
