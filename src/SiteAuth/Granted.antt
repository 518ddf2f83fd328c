-- ===== src/SiteAuth/Granted.antt =====
-- internal/siteauth/http.go: every login that a handler grants costs a code or a challenge, whatever
-- the requests and whichever of their database calls fail.
use omni_token.Prelude.{
  ℕ, suc, String, Bool, true, false, Option, none, some, List, eqb, leb, ◌&&◌, inl, inr, arith,
  Bool-cases, if◌then◌else◌, length, length-delete_where,
}
use omni_token.Fallible.{Fallible, ok, err}
use omni_token.SiteAuth.{
  AuthError, Session, SiteAuth, Credential, new_session, store_challenge, take_challenge,
  save_credential, is_session,
}
use omni_token.SiteAuth.Handlers.{
  Request, SiteReply, Webauthn, without_session, current_session, after_consume, at_code,
  code_login, at_logout, logout, recent, challenge_begun, at_begin, login_begin, at_recent,
  register_begin, after_take, at_challenge, credential_stored, at_registered, registered,
  at_binding, register_finish, is_known, session_opened, renewed, at_assertion, asserted,
  login_finish, all_readable,
}
use omni_token.SiteAuth.Spent.{
  Within, Within-refl, Result, consume_code-Result, new_session-Result, store_challenge-Result,
  take_challenge-Result,
}

-- 1 for a call that succeeded.
abbrev pub won : SiteReply → ℕ
won p = if eqb p.status 200 then 1 else 0

Within-then :
    (a b c : SiteAuth) (m u g t e : ℕ)
    → Within a b m u g t e
    → Within b c 0 0 0 0 0
    → Within a c m u g t e
Within-then a b c m u g t e h k =
    (omega (arith, h.0, k.0), omega (arith, h.1, k.1), omega (arith, h.2, k.2))

module _ (digest to_upper : String → String) where
  without_session-Within :
      (exec_ok : Bool) (s : Option Session) (a : SiteAuth)
      → Within a (without_session digest to_upper exec_ok s a) 0 0 0 0 0
  without_session-Within exec_ok none a = Within-refl a
  without_session-Within exec_ok (some s) a =
      ground (arith, length-delete_where (is_session s.token_hash) a.sessions)

  pub code_login-Within :
      (r : Request) (a : SiteAuth)
      → Within a
          (code_login digest to_upper r a).0
          0
          (won (code_login digest to_upper r a).1)
          0
          0
          (won (code_login digest to_upper r a).1)
  unfolding code_login
  code_login-Within r a = at r.code
    where
      consumed :
          (o : SiteAuth × Fallible AuthError String)
          → Result a 0 1 0 0 1 o
          → Within a
              (after_consume digest to_upper r o).0
              0
              (won (after_consume digest to_upper r o).1)
              0
              0
              (won (after_consume digest to_upper r o).1)
      consumed (b, err why) h = h
      consumed (b, ok token) h =
          Within-then a b (after_consume digest to_upper r (b, ok token)).0 0 1 0 0 1 h
            (without_session-Within (r.db 2) (current_session digest to_upper r 1 b) b)

      at :
          (c : Option String)
          → Within a
              (at_code digest to_upper r c a).0
              0
              (won (at_code digest to_upper r c a).1)
              0
              0
              (won (at_code digest to_upper r c a).1)
      at none = Within-refl a
      at (some text) =
          consumed _ (consume_code-Result digest to_upper text r.token r.now (r.db 0) a)

  pub logout-Within :
      (r : Request) (a : SiteAuth) → Within a (logout digest to_upper r a).0 0 0 0 0 0
  unfolding logout
  logout-Within r a = at (current_session digest to_upper r 0 a)
    where
      at : (s : Option Session) → Within a (at_logout digest to_upper r s a).0 0 0 0 0 0
      at none = Within-refl a
      at (some s) = elim (Bool-cases (r.db 1)) [
        | inl run ↦ rw run (without_session-Within true (some s) a)
        | inr failed ↦ rw failed (Within-refl a)
      ]

  module _ {Data : Type 0} (library : Webauthn Data) where
    begin-Within :
        (r : Request) (kind binding : String) (raw : Option (Option String)) (n : ℕ) (a : SiteAuth)
        → Within a
            (at_begin digest to_upper library r kind binding raw n a).0
            0
            0
            (won (at_begin digest to_upper library r kind binding raw n a).1)
            0
            0
    begin-Within r kind binding none n a = Within-refl a
    begin-Within r kind binding (some raw) n a =
        stored_one (store_challenge digest kind binding raw r.token r.now (r.db n) (r.db (suc n)) a)
          (store_challenge-Result digest kind binding raw r.token r.now (r.db n) (r.db (suc n)) a)
      where
        stored_one :
            (o : SiteAuth × Fallible AuthError String)
            → Result a 0 0 1 0 0 o
            → Within a
                (challenge_begun digest to_upper library o).0
                0
                0
                (won (challenge_begun digest to_upper library o).1)
                0
                0
        stored_one (b, err why) h = h
        stored_one (b, ok token) h = h

    pub login_begin-Within :
        (r : Request) (a : SiteAuth)
        → Within a
            (login_begin digest to_upper library r a).0
            0
            0
            (won (login_begin digest to_upper library r a).1)
            0
            0
    unfolding login_begin
    login_begin-Within r a = begin-Within r "login" "" library.begin_login 0 a

    pub register_begin-Within :
        (r : Request) (a : SiteAuth)
        → Within a
            (register_begin digest to_upper library r a).0
            0
            0
            (won (register_begin digest to_upper library r a).1)
            0
            0
    unfolding register_begin
    register_begin-Within r a =
        at (recent digest to_upper r.now (current_session digest to_upper r 0 a))
      where
        at :
            (hash : Option String)
            → Within a
                (at_recent digest to_upper library r hash a).0
                0
                0
                (won (at_recent digest to_upper library r hash a).1)
                0
                0
        at none = Within-refl a
        at (some hash) =
            elim (Bool-cases (r.db 1 && all_readable digest to_upper library a.credentials)) [
              | inr failed ↦ rw failed (Within-refl a)
              | inl read ↦ rw read (elim (Bool-cases (leb 10 (length a.credentials))) [
                | inl full ↦ rw full (Within-refl a)
                | inr room ↦
                    rw room (
                      begin-Within r "register" hash (library.begin_registration a.credentials) 2 a)
              ])
            ]

    -- What follows a challenge costs nothing more, and signs in at most once, if it succeeds.
    abbrev SignsIn : ℕ → SiteAuth → SiteAuth × SiteReply → Type 0
    SignsIn e a o = Within a o.0 0 0 0 0 (if eqb e 0 then 0 else won o.1)

    challenge-Within :
        (e : ℕ) (r : Request) (kind binding : String) (cookie : Option String) (n : ℕ)
        (next : Data → SiteAuth → SiteAuth × SiteReply) (a : SiteAuth)
        → ((d : Data) (b : SiteAuth) → SignsIn e b (next d b))
        → Within a
            (at_challenge digest to_upper library r kind binding cookie n next a).0
            0
            0
            0
            (won (at_challenge digest to_upper library r kind binding cookie n next a).1)
            (if eqb e 0
              then 0
              else won (at_challenge digest to_upper library r kind binding cookie n next a).1)
    challenge-Within e r kind binding none n next a h = ground arith
    challenge-Within e r kind binding (some token) n next a h =
        after (take_challenge digest library.unmarshal token kind binding r.now (r.db n) a)
          (take_challenge-Result digest library.unmarshal token kind binding r.now (r.db n) a)
      where
        after :
            (o : SiteAuth × Fallible AuthError Data)
            → Result a 0 0 0 1 0 o
            → Within a
                (after_take digest to_upper library next o).0
                0
                0
                0
                (won (after_take digest to_upper library next o).1)
                (if eqb e 0 then 0 else won (after_take digest to_upper library next o).1)
        after (b, err why) k = ground arith
        after (b, ok d) k = let l = h d b in ground arith

    registered-SignsIn :
        (r : Request) (d : Data) (a : SiteAuth)
        → SignsIn 0 a (registered digest to_upper library r d a)
    registered-SignsIn r d a =
        elim (Bool-cases (r.db 2 && all_readable digest to_upper library a.credentials)) [
          | inr failed ↦ rw failed (Within-refl a)
          | inl read ↦ rw read (elim (Bool-cases (leb 10 (length a.credentials))) [
            | inl full ↦ rw full (Within-refl a)
            | inr room ↦ rw room (at (library.finish_registration a.credentials d r.body))
          ])
        ]
      where
        kept :
            (cs : Option (List Credential))
            → SignsIn 0 a (credential_stored digest to_upper library cs a)
        kept none = Within-refl a
        kept (some cs) = (omega arith, omega arith, omega arith)

        at :
            (c : Option (String × String))
            → SignsIn 0 a (at_registered digest to_upper library r c a)
        at none = Within-refl a
        at (some (id, raw)) = kept (save_credential id raw true r.now (r.db 3) a.credentials)

    pub register_finish-Within :
        (r : Request) (a : SiteAuth)
        → Within a
            (register_finish digest to_upper library r a).0
            0
            0
            0
            (won (register_finish digest to_upper library r a).1)
            0
    unfolding register_finish
    register_finish-Within r a =
        at (recent digest to_upper r.now (current_session digest to_upper r 0 a))
      where
        at :
            (hash : Option String)
            → Within a
                (at_binding digest to_upper library r hash a).0
                0
                0
                0
                (won (at_binding digest to_upper library r hash a).1)
                0
        at none = Within-refl a
        at (some hash) =
            challenge-Within 0 r "register" hash r.challenge_cookie 1
              (registered digest to_upper library r) a (registered-SignsIn r)

    asserted-SignsIn :
        (user : String) (r : Request) (d : Data) (a : SiteAuth)
        → SignsIn 1 a (asserted digest to_upper library user r d a)
    asserted-SignsIn user r d a =
        elim (Bool-cases (r.db 1 && all_readable digest to_upper library a.credentials)) [
          | inr failed ↦ rw failed (Within-refl a)
          | inl read ↦ rw read (
              at (
                library.finish_login (is_known digest to_upper library user a.credentials) d
                  r.body))
        ]
      where
        entering :
            (b : SiteAuth) (o : SiteAuth × Fallible AuthError String)
            → Result b 0 0 0 0 1 o
            → SignsIn 1 b (session_opened digest to_upper library r o)
        entering b (c, err why) h = h
        entering b (c, ok token) h =
            Within-then b c (session_opened digest to_upper library r (c, ok token)).0 0 0 0 0 1 h
              (without_session-Within (r.db 5) (current_session digest to_upper r 4 c) c)

        kept :
            (cs : Option (List Credential)) → SignsIn 1 a (renewed digest to_upper library r cs a)
        kept none = Within-refl a
        kept (some cs) =
            let b = record a { credentials = cs } in
            entering b (new_session digest r.token r.now (r.db 3) b)
              (new_session-Result digest r.token r.now (r.db 3) b)

        at :
            (c : Option (String × String × Bool))
            → SignsIn 1 a (at_assertion digest to_upper library r c a)
        at none = Within-refl a
        at (some (id, raw, true)) = Within-refl a
        at (some (id, raw, false)) =
            kept (save_credential id raw false r.now (r.db 2) a.credentials)

    pub login_finish-Within :
        (user : String) (r : Request) (a : SiteAuth)
        → Within a
            (login_finish digest to_upper library user r a).0
            0
            0
            0
            (won (login_finish digest to_upper library user r a).1)
            (won (login_finish digest to_upper library user r a).1)
    unfolding login_finish
    login_finish-Within user r a =
        challenge-Within 1 r "login" "" r.challenge_cookie 0
          (asserted digest to_upper library user r) a (asserted-SignsIn user r)
