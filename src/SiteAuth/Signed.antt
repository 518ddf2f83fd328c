-- ===== src/SiteAuth/Signed.antt =====
-- internal/siteauth/http.go: what each handler keeps of the table of sessions, and which row it adds.
use omni_token.Prelude.{
  ℕ, suc, String, Bool, true, false, ◌&&◌, Option, none, some, List, ◌≡◌, refl, sym, subst, inl,
  inr, leb, Bool-cases, All, All-delete_where, length,
}
use omni_token.Fallible.{Fallible, ok, err}
use omni_token.SiteAuth.{
  AuthError, Session, SiteAuth, Credential, session_row, consume_code, new_session, store_challenge,
  take_challenge, is_session, save_credential,
}
use omni_token.SiteAuth.Handlers.{
  Request, SiteReply, Webauthn, cleared, without_session, current_session, after_consume, at_code,
  code_login, at_logout, logout, recent, challenge_begun, at_begin, login_begin, at_recent,
  register_begin, after_take, at_challenge, credential_stored, at_registered, registered,
  at_binding, register_finish, is_known, session_opened, renewed, at_assertion, asserted,
  login_finish, all_readable,
}
use omni_token.SiteAuth.Opened.{
  Opening, consume_code-Opening, new_session-Opening, store_challenge-same, take_challenge-same,
}

module _ (digest to_upper : String → String) (Q : Session → Type 0) where
  -- Every session that the reply signs in has the property.
  abbrev pub Grants : Request → SiteReply → Type 0
  Grants r p =
      (token : String)
      → p.status ≡ 200
      → p.session ≡ some token
      → Q (session_row digest token r.now)

  abbrev pub Signs : Request → SiteAuth → SiteAuth × SiteReply → Type 0
  Signs r a o = All Q a.sessions → Grants r o.1 → All Q o.0.sessions

  abbrev pub Keeps : SiteAuth → SiteAuth × SiteReply → Type 0
  Keeps a o = All Q a.sessions → All Q o.0.sessions

  same-All : (a b : SiteAuth) → b.sessions ≡ a.sessions → All Q a.sessions → All Q b.sessions
  same-All a b same h = subst (All Q) (sym same) h

  without_session-All :
      (exec_ok : Bool) (s : Option Session) (a : SiteAuth)
      → All Q a.sessions
      → All Q (without_session digest to_upper exec_ok s a).sessions
  without_session-All exec_ok none a h = h
  without_session-All true (some s) a h = All-delete_where Q (is_session s.token_hash) a.sessions h
  without_session-All false (some s) a h = h

  pub code_login-Signs : (r : Request) (a : SiteAuth) → Signs r a (code_login digest to_upper r a)
  unfolding code_login
  code_login-Signs r a = at r.code
    where
      consumed :
          (o : SiteAuth × Fallible AuthError String)
          → Opening digest r.now a o
          → Signs r a (after_consume digest to_upper r o)
      consumed (b, err why) same h grant = same-All a b same h
      consumed (b, ok token) more h grant =
          without_session-All (r.db 2) (current_session digest to_upper r 1 b) b
            (subst (All Q) (sym more) (grant token refl refl, h))

      at : (c : Option String) → Signs r a (at_code digest to_upper r c a)
      at none = λ h grant. h
      at (some text) =
          consumed (consume_code digest to_upper text r.token r.now (r.db 0) a)
            (consume_code-Opening digest to_upper text r.token r.now (r.db 0) a)

  pub logout-Keeps : (r : Request) (a : SiteAuth) → Keeps a (logout digest to_upper r a)
  unfolding logout
  logout-Keeps r a = at (current_session digest to_upper r 0 a)
    where
      at : (s : Option Session) → Keeps a (at_logout digest to_upper r s a)
      at none h = h
      at (some s) h = elim (Bool-cases (r.db 1)) [
        | inl run ↦ rw run (without_session-All true (some s) a h)
        | inr failed ↦ rw failed h
      ]

  module _ {Data : Type 0} (library : Webauthn Data) where
    begin-Keeps :
        (r : Request) (kind binding : String) (raw : Option (Option String)) (n : ℕ) (a : SiteAuth)
        → Keeps a (at_begin digest to_upper library r kind binding raw n a)
    begin-Keeps r kind binding none n a = λ h. h
    begin-Keeps r kind binding (some raw) n a =
        stored_one (store_challenge digest kind binding raw r.token r.now (r.db n) (r.db (suc n)) a)
          (store_challenge-same digest kind binding raw r.token r.now (r.db n) (r.db (suc n)) a)
      where
        stored_one :
            (o : SiteAuth × Fallible AuthError String)
            → o.0.sessions ≡ a.sessions
            → Keeps a (challenge_begun digest to_upper library o)
        stored_one (b, err why) same h = same-All a b same h
        stored_one (b, ok token) same h = same-All a b same h

    pub login_begin-Keeps :
        (r : Request) (a : SiteAuth) → Keeps a (login_begin digest to_upper library r a)
    unfolding login_begin
    login_begin-Keeps r a = begin-Keeps r "login" "" library.begin_login 0 a

    pub register_begin-Keeps :
        (r : Request) (a : SiteAuth) → Keeps a (register_begin digest to_upper library r a)
    unfolding register_begin
    register_begin-Keeps r a =
        at (recent digest to_upper r.now (current_session digest to_upper r 0 a))
      where
        at : (hash : Option String) → Keeps a (at_recent digest to_upper library r hash a)
        at none h = h
        at (some hash) h =
            elim (Bool-cases (r.db 1 && all_readable digest to_upper library a.credentials)) [
              | inr failed ↦ rw failed h
              | inl read ↦ rw read (elim (Bool-cases (leb 10 (length a.credentials))) [
                | inl full ↦ rw full h
                | inr room ↦
                    rw room (
                      begin-Keeps r "register" hash (library.begin_registration a.credentials) 2 a
                        h)
              ])
            ]

    -- What follows a challenge keeps the property where its reply meets a condition.
    challenge-All :
        (C : SiteReply → Type 0) (r : Request) (kind binding : String) (cookie : Option String)
        (n : ℕ) (next : Data → SiteAuth → SiteAuth × SiteReply) (a : SiteAuth)
        → ((p : SiteReply) → C (cleared p) → C p)
        → ((d : Data) (b : SiteAuth)
            → All Q b.sessions
            → C (next d b).1
            → All Q (next d b).0.sessions)
        → All Q a.sessions
        → C (at_challenge digest to_upper library r kind binding cookie n next a).1
        → All Q (at_challenge digest to_upper library r kind binding cookie n next a).0.sessions
    challenge-All C r kind binding none n next a less k h c = h
    challenge-All C r kind binding (some token) n next a less k h c =
        after (take_challenge digest library.unmarshal token kind binding r.now (r.db n) a)
          (take_challenge-same digest library.unmarshal token kind binding r.now (r.db n) a) c
      where
        after :
            (o : SiteAuth × Fallible AuthError Data)
            → o.0.sessions ≡ a.sessions
            → C (after_take digest to_upper library next o).1
            → All Q (after_take digest to_upper library next o).0.sessions
        after (b, err why) same c = same-All a b same h
        after (b, ok d) same c = k d b (same-All a b same h) (less (next d b).1 c)

    registered-Keeps :
        (r : Request) (d : Data) (a : SiteAuth) → Keeps a (registered digest to_upper library r d a)
    registered-Keeps r d a h = registered-All h
      where
        kept :
            (cs : Option (List Credential))
            → Keeps a (credential_stored digest to_upper library cs a)
        kept none h = h
        kept (some cs) h = h

        at : (c : Option (String × String)) → Keeps a (at_registered digest to_upper library r c a)
        at none h = h
        at (some (id, raw)) h = kept (save_credential id raw true r.now (r.db 3) a.credentials) h

        registered-All : Keeps a (registered digest to_upper library r d a)
        registered-All h =
            elim (Bool-cases (r.db 2 && all_readable digest to_upper library a.credentials)) [
              | inr failed ↦ rw failed h
              | inl read ↦ rw read (elim (Bool-cases (leb 10 (length a.credentials))) [
                | inl full ↦ rw full h
                | inr room ↦ rw room (at (library.finish_registration a.credentials d r.body) h)
              ])
            ]

    pub register_finish-Keeps :
        (r : Request) (a : SiteAuth) → Keeps a (register_finish digest to_upper library r a)
    unfolding register_finish
    register_finish-Keeps r a =
        at (recent digest to_upper r.now (current_session digest to_upper r 0 a))
      where
        at : (hash : Option String) → Keeps a (at_binding digest to_upper library r hash a)
        at none h = h
        at (some hash) h =
            challenge-All (λ p. Unit) r "register" hash r.challenge_cookie 1
              (registered digest to_upper library r) a (λ p c. tt)
              (λ d b k c. registered-Keeps r d b k) h tt

    asserted-Signs :
        (user : String) (r : Request) (d : Data) (a : SiteAuth)
        → Signs r a (asserted digest to_upper library user r d a)
    asserted-Signs user r d a =
        elim (Bool-cases (r.db 1 && all_readable digest to_upper library a.credentials)) [
          | inr failed ↦ rw failed (λ h grant. h)
          | inl read ↦ rw read (
              at (
                library.finish_login (is_known digest to_upper library user a.credentials) d
                  r.body))
        ]
      where
        entering :
            (b : SiteAuth) (o : SiteAuth × Fallible AuthError String)
            → Opening digest r.now b o
            → Signs r b (session_opened digest to_upper library r o)
        entering b (c, err why) same h grant = same-All b c same h
        entering b (c, ok token) more h grant =
            without_session-All (r.db 5) (current_session digest to_upper r 4 c) c
              (subst (All Q) (sym more) (grant token refl refl, h))

        kept : (cs : Option (List Credential)) → Signs r a (renewed digest to_upper library r cs a)
        kept none = λ h grant. h
        kept (some cs) =
            let b = record a { credentials = cs } in
            entering b (new_session digest r.token r.now (r.db 3) b)
              (new_session-Opening digest r.token r.now (r.db 3) b)

        at :
            (c : Option (String × String × Bool))
            → Signs r a (at_assertion digest to_upper library r c a)
        at none = λ h grant. h
        at (some (id, raw, true)) = λ h grant. h
        at (some (id, raw, false)) =
            kept (save_credential id raw false r.now (r.db 2) a.credentials)

    pub login_finish-Signs :
        (user : String) (r : Request) (a : SiteAuth)
        → Signs r a (login_finish digest to_upper library user r a)
    unfolding login_finish
    login_finish-Signs user r a h grant =
        challenge-All (Grants r) r "login" "" r.challenge_cookie 0
          (asserted digest to_upper library user r) a (λ p g. g) (asserted-Signs user r) h grant
