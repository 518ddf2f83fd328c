-- ===== src/SiteAuth/Ledger.antt =====
-- internal/siteauth: what any sequence of calls costs, and whose its sessions are.
use omni_token.Prelude.{
  ◌⊎◌, All, Any, All-mono, ℕ, ◌+◌, ◌≤◌, String, Bool, true, false, List, [], ◌∷◌, ◌≡◌, refl, eqb,
  inl, inr, arith, length, count_where, if◌then◌else◌,
}
use omni_token.Fallible.{Fallible, ok, err}
use omni_token.SiteAuth.{AuthError, SiteAuth, generate_code, empty_site}
use omni_token.SiteAuth.Handlers.{
  Request, SiteReply, Webauthn, failure, code_login, logout, login_begin, register_begin,
  register_finish, login_finish, write, SiteCall, generate_call, code_call, logout_call,
  register_begin_call, register_finish_call, login_begin_call, login_finish_call, generated, serve,
}
use omni_token.SiteAuth.Spent.{Within, Within-refl, Result, generate_code-Result}
use omni_token.SiteAuth.Granted.{
  code_login-Within, logout-Within, login_begin-Within, register_begin-Within,
  register_finish-Within, login_finish-Within,
}
use omni_token.SiteAuth.Serve.{
  is_made, is_code_login, is_begun, is_passkey_login, is_finished, serve_all, write-Costs,
}
use omni_token.SiteAuth.Sessions.{Opens, serve_all-Opens}

module _ {Data : Type 0} (digest to_upper : String → String) (library : Webauthn Data)
    (origin user : String) where
  -- What one call that is served costs.
  abbrev one : Bool → ℕ
  one b = if b then 1 else 0

  abbrev Served : SiteCall → SiteAuth → SiteAuth × SiteReply → Type 0
  Served c a o =
      Within a o.0 (one (is_made (c, o.1))) (one (is_code_login (c, o.1))) (one (is_begun (c, o.1)))
        (one (is_finished (c, o.1)))
        (one (is_code_login (c, o.1)) + one (is_passkey_login (c, o.1)))

  written :
      (c : SiteCall) (next : Request → SiteAuth → SiteAuth × SiteReply) (limited : Bool)
      (r : Request) (a : SiteAuth)
      → ((b : SiteAuth) → Served c b (next r b))
      → ((status : ℕ) → eqb status 200 ≡ false → Served c a (a, failure status))
      → Served c a (write origin next limited r a)
  written c next limited r a h refused =
      write-Costs digest to_upper library origin user (Served c) next limited r a h refused
        (λ tried o k. k) (λ tried. refused 429 refl)

  serve-Served :
      (c : SiteCall) (a : SiteAuth) → Served c a (serve digest to_upper library origin user c a)
  unfolding serve
  serve-Served (generate_call ttl now fresh tx_ok) a =
      made (generate_code digest ttl now fresh tx_ok a)
        (generate_code-Result digest ttl now fresh tx_ok a)
    where
      made :
          (o : SiteAuth × Fallible AuthError String)
          → Result a 1 0 0 0 0 o
          → Served (generate_call ttl now fresh tx_ok) a (generated o)
      made (b, err why) h = h
      made (b, ok shown) h = h
  serve-Served (code_call r) a =
      written (code_call r) (code_login digest to_upper) true r a
        (λ b. let h = code_login-Within digest to_upper r b in (h.0, h.1, omega (arith, h.2)))
        (λ status other. rw other (Within-refl a))
  serve-Served (logout_call r) a =
      written (logout_call r) (logout digest to_upper) false r a
        (λ b. logout-Within digest to_upper r b) (λ status other. Within-refl a)
  serve-Served (register_begin_call r) a =
      written (register_begin_call r) (register_begin digest to_upper library) false r a
        (λ b. register_begin-Within digest to_upper library r b)
        (λ status other. rw other (Within-refl a))
  serve-Served (register_finish_call r) a =
      written (register_finish_call r) (register_finish digest to_upper library) false r a
        (λ b. register_finish-Within digest to_upper library r b)
        (λ status other. rw other (Within-refl a))
  serve-Served (login_begin_call r) a =
      written (login_begin_call r) (login_begin digest to_upper library) true r a
        (λ b. login_begin-Within digest to_upper library r b)
        (λ status other. rw other (Within-refl a))
  serve-Served (login_finish_call r) a =
      written (login_finish_call r) (login_finish digest to_upper library user) true r a
        (λ b.
          let h = login_finish-Within digest to_upper library user r b in
          (h.0, h.1, omega (arith, h.2)))
        (λ status other. rw other (Within-refl a))

  abbrev Balanced : SiteAuth → SiteAuth × List (SiteCall × SiteReply) → Type 0
  Balanced a o =
      Within a o.0 (count_where is_made o.1) (count_where is_code_login o.1)
        (count_where is_begun o.1) (count_where is_finished o.1)
        (count_where is_code_login o.1 + count_where is_passkey_login o.1)

  serve_all-Balanced :
      (calls : List SiteCall) (a : SiteAuth)
      → Balanced a (serve_all digest to_upper library origin user calls a)
  unfolding serve_all count_where
  serve_all-Balanced [] a = Within-refl a
  serve_all-Balanced (c ∷ calls) a =
      let b = (serve digest to_upper library origin user c a).0 in
      let h = serve-Served c a in
      let k = serve_all-Balanced calls b in
      (omega (arith, h.0, k.0), omega (arith, h.1, k.1), omega (arith, h.2, k.2))

  -- Whatever the calls, and whichever of their database calls fail, from an empty store: at most as
  -- many logins by code succeed as codes were made, at most as many logins by passkey and
  -- registrations together as challenges were begun. There are at most as many sessions as logins,
  -- and each one is the row of the token that a successful login has set as its cookie, with that
  -- login's time and expiry.
  pub serve_all-spent :
      (calls : List SiteCall)
      → let o = serve_all digest to_upper library origin user calls empty_site in
        (count_where is_code_login o.1 ≤ count_where is_made o.1)
        × (count_where is_finished o.1 ≤ count_where is_begun o.1)
        × (length o.0.sessions ≤ count_where is_code_login o.1 + count_where is_passkey_login o.1)
        × All (λ s. Any (Opens digest s) o.1) o.0.sessions
  serve_all-spent calls =
      let h = serve_all-Balanced calls empty_site in
      let o = serve_all digest to_upper library origin user calls empty_site in
      (
        omega (arith, h.0),
        omega (arith, h.1),
        omega (arith, h.2),
        All-mono (λ s. ⊥ ⊎ Any (Opens digest s) o.1) (λ s. Any (Opens digest s) o.1) o.0.sessions
            (λ s k. elim k [ inl none ↦ elim none [ ] | inr any ↦ any ])
            (serve_all-Opens digest to_upper library origin user (λ s. ⊥) calls empty_site tt),
      )
