-- ===== src/SiteAuth/Opened.antt =====
-- internal/siteauth: where the rows of the table of sessions come from, operation by operation.
use omni_token.Prelude.{
  ℕ, String, Bool, Option, none, some, ◌∷◌, ◌≡◌, refl, inl, inr, arith, Bool-cases,
}
use omni_token.Fallible.{Fallible, ok, err}
use omni_token.SiteAuth.{
  AuthError, Challenge, SiteAuth, session_row, generate_code, consume_code, new_session,
  store_challenge, take_challenge, taken,
}

-- The sessions are those before, and one more if a token was made.
abbrev pub Opening :
    (String → String) → ℕ → SiteAuth → SiteAuth × Fallible AuthError String → Type 0
Opening digest now a (b, err why) = b.sessions ≡ a.sessions
Opening digest now a (b, ok token) = b.sessions ≡ session_row digest token now ∷ a.sessions

pub consume_code-Opening :
    (digest to_upper : String → String) (text : String) (token : Option String) (now : ℕ)
    (tx_ok : Bool) (a : SiteAuth)
    → Opening digest now a (consume_code digest to_upper text token now tx_ok a)
unfolding consume_code
consume_code-Opening digest to_upper text none now tx_ok a = refl
consume_code-Opening digest to_upper text (some token) now tx_ok a = ground arith

pub new_session-Opening :
    (digest : String → String) (token : Option String) (now : ℕ) (insert_ok : Bool) (a : SiteAuth)
    → Opening digest now a (new_session digest token now insert_ok a)
unfolding new_session
new_session-Opening digest none now insert_ok a = refl
new_session-Opening digest (some token) now insert_ok a = ground arith

pub generate_code-same :
    (digest : String → String) (ttl now : ℕ) (fresh : Option String) (tx_ok : Bool) (a : SiteAuth)
    → (generate_code digest ttl now fresh tx_ok a).0.sessions ≡ a.sessions
unfolding generate_code
generate_code-same digest ttl now none tx_ok a = refl
generate_code-same digest ttl now (some fresh) tx_ok a = ground arith

pub store_challenge-same :
    (digest : String → String) (kind binding : String) (raw token : Option String) (now : ℕ)
    (purge_ok insert_ok : Bool) (a : SiteAuth)
    → (store_challenge digest kind binding raw token now purge_ok insert_ok a).0.sessions
      ≡ a.sessions
unfolding store_challenge
store_challenge-same digest kind binding none token now purge_ok insert_ok a = refl
store_challenge-same digest kind binding (some raw) none now purge_ok insert_ok a = refl
store_challenge-same digest kind binding (some raw) (some token) now purge_ok insert_ok a =
    ground arith

pub take_challenge-same :
    {Data : Type 0} (digest : String → String) (unmarshal : String → Option Data)
    (token kind binding : String) (now : ℕ) (delete_ok : Bool) (a : SiteAuth)
    → (take_challenge digest unmarshal token kind binding now delete_ok a).0.sessions ≡ a.sessions
unfolding take_challenge
take_challenge-same {Data} digest unmarshal token kind binding now delete_ok a =
    elim (Bool-cases delete_ok) [ inl run ↦ rw run (found _ _) | inr failed ↦ rw failed refl ]
  where
    found :
        (unspent : Challenge → Bool) (o : Option Challenge)
        → (taken digest unmarshal unspent o a).0.sessions ≡ a.sessions
    found unspent none = refl
    found unspent (some c) = refl
