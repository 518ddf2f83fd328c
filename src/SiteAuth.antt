-- ===== src/SiteAuth.antt =====
-- internal/siteauth/auth.go: the login codes, sessions, challenges and attempts of the site. The clock
-- stands still within one call; a token and what each database call returns are arguments.
pub mod Codes
pub mod Handlers
pub mod Spent
pub mod Granted
pub mod Opened
pub mod Signed
pub mod Serve
pub mod Sessions
pub mod Ledger
pub mod Attempts
use Prim.Native.Char.{code}
use Prim.Native.String.{◌++◌ as append}
use omni_token.Prelude.{
  ℕ, suc, ◌+◌, ◌-◌, ◌*◌, ◌/◌, String, Bool, true, false, not, ◌&&◌, ◌||◌, Option, none, some, List,
  [], ◌∷◌, ◌==◌, ltb, leb, eqb, is_some, if◌then◌else◌, length, trim_space, find_where, count_where,
  delete_where, update_where,
}
use omni_token.Fallible.{Fallible, ok, err}

pub data AuthError : Type 0 where
  denied lifetime_refused no_random database_failed malformed : AuthError

pub record LoginCode : Type 0 where
  pub code_hash : String
  pub expires_at : ℕ

pub record Session : Type 0 where
  pub token_hash : String
  pub expires_at : ℕ
  pub auth_at : ℕ

pub record Challenge : Type 0 where
  pub token_hash : String
  pub kind : String
  pub session_hash : String
  pub raw : String
  pub expires_at : ℕ

pub record Credential : Type 0 where
  pub id : String
  pub raw : String
  pub updated_at : ℕ

pub record Attempt : Type 0 where
  pub key : String
  pub start : ℕ
  pub count : ℕ

-- The tables, and the attempts in the process's memory. Of a nil map and no attempt, one is like the
-- other.
pub record SiteAuth : Type 0 where
  pub login_codes : List LoginCode
  pub sessions : List Session
  pub challenges : List Challenge
  pub credentials : List Credential
  pub attempts : List Attempt

abbrev pub empty_site : SiteAuth
empty_site = record {
  login_codes = [];
  sessions = [];
  challenges = [];
  credentials = [];
  attempts = [];
}

-- Times and durations are nanoseconds; the tables hold seconds.
abbrev second_ns : ℕ
second_ns = 1000000000

abbrev pub minute_ns : ℕ
minute_ns = 60 * second_ns

abbrev pub hour_ns : ℕ
hour_ns = 3600 * second_ns

abbrev pub session_lifetime : ℕ
session_lifetime = 720 * hour_ns

abbrev pub challenge_lifetime : ℕ
challenge_lifetime = 5 * minute_ns

abbrev pub unix : ℕ → ℕ
unix ns = ns / second_ns

-- strings.ReplaceAll(s, "-", "")
unfoldable pub without_dashes : String → String
without_dashes String.[] = String.[]
without_dashes (String.◌∷◌ c s) =
    let rest = without_dashes s in if eqb (code c) 45 then rest else String.◌∷◌ c rest

-- The loop of GenerateCode that cuts a code into groups of at most four.
unfoldable pub groups : String → List String
groups String.[] = []
groups (String.◌∷◌ a String.[]) = String.◌∷◌ a String.[] ∷ []
groups (String.◌∷◌ a (String.◌∷◌ b String.[])) = String.◌∷◌ a (String.◌∷◌ b String.[]) ∷ []
groups (String.◌∷◌ a (String.◌∷◌ b (String.◌∷◌ c String.[]))) =
    String.◌∷◌ a (String.◌∷◌ b (String.◌∷◌ c String.[])) ∷ []
groups (String.◌∷◌ a (String.◌∷◌ b (String.◌∷◌ c (String.◌∷◌ d rest)))) =
    String.◌∷◌ a (String.◌∷◌ b (String.◌∷◌ c (String.◌∷◌ d String.[]))) ∷ groups rest

-- strings.Join(groups, "-")
unfoldable pub join_dashes : List String → String
join_dashes [] = ""
join_dashes (g ∷ []) = g
join_dashes (g ∷ (h ∷ gs)) = append g (String.◌∷◌ "-" (join_dashes (h ∷ gs)))

-- Every database call of a transaction has to succeed, or none of them counts.
unfoldable pub generate_code :
    (String → String)
    → ℕ
    → ℕ
    → Option String
    → Bool
    → SiteAuth
    → SiteAuth × Fallible AuthError String
unfolding groups join_dashes
generate_code digest ttl now none tx_ok a =
    (a, err (if eqb ttl 0 || ltb hour_ns ttl then lifetime_refused else no_random))
generate_code digest ttl now (some fresh) tx_ok a =
    if eqb ttl 0 || ltb hour_ns ttl
    then (a, err lifetime_refused)
    else if not tx_ok
    then (a, err database_failed)
    else (
      record a {
        login_codes = record { code_hash = digest fresh; expires_at = unix (now + ttl) } ∷ [];
      },
      ok (join_dashes (groups fresh)),
    )

unfoldable pub normalize_code : (String → String) → String → String
unfolding without_dashes trim_space
normalize_code to_upper s = to_upper (without_dashes (trim_space s))

-- The rows that DELETE FROM login_codes takes.
abbrev pub is_valid_code : String → ℕ → LoginCode → Bool
is_valid_code text now c = c.code_hash == text && ltb (unix now) c.expires_at

-- The digest of the token is the primary key of sessions and of challenges.
abbrev pub is_session : String → Session → Bool
is_session hash s = s.token_hash == hash

abbrev pub is_challenge : String → Challenge → Bool
is_challenge hash c = c.token_hash == hash

abbrev pub purged : ℕ → SiteAuth → SiteAuth
purged now a = record a {
  challenges = delete_where (λ (c : Challenge). leb c.expires_at (unix now)) a.challenges;
}

abbrev pub is_open_challenge : String → String → String → ℕ → Challenge → Bool
is_open_challenge hash kind binding now c =
    c.token_hash == hash
    && c.kind == kind
    && c.session_hash == binding
    && ltb (unix now) c.expires_at

module _ (digest : String → String) where
  abbrev pub session_row : String → ℕ → Session
  session_row token now = record {
    token_hash = digest token;
    expires_at = unix (now + session_lifetime);
    auth_at = unix now;
  }

  unfoldable pub consume_code :
      (String → String)
      → String
      → Option String
      → ℕ
      → Bool
      → SiteAuth
      → SiteAuth × Fallible AuthError String
  unfolding normalize_code delete_where count_where find_where
  consume_code to_upper text none now tx_ok a = (a, err no_random)
  consume_code to_upper text (some token) now tx_ok a =
      let valid = is_valid_code (digest (normalize_code to_upper text)) now in
      if not tx_ok
      then (a, err database_failed)
      else if not (eqb (count_where valid a.login_codes) 1)
      then (a, err denied)
      else if is_some (find_where (is_session (digest token)) a.sessions)
      then (a, err database_failed)
      else (
        record a {
          login_codes = delete_where valid a.login_codes;
          sessions = session_row token now ∷ a.sessions;
        },
        ok token,
      )

  unfoldable pub new_session :
      Option String → ℕ → Bool → SiteAuth → SiteAuth × Fallible AuthError String
  unfolding find_where
  new_session none now insert_ok a = (a, err no_random)
  new_session (some token) now insert_ok a =
      if not insert_ok || is_some (find_where (is_session (digest token)) a.sessions)
      then (a, err database_failed)
      else (record a { sessions = session_row token now ∷ a.sessions }, ok token)

  -- The data's own encoding may fail, which comes first.
  unfoldable pub store_challenge :
      String
      → String
      → Option String
      → Option String
      → ℕ
      → Bool
      → Bool
      → SiteAuth
      → SiteAuth × Fallible AuthError String
  unfolding delete_where find_where
  store_challenge kind binding none token now purge_ok insert_ok a = (a, err malformed)
  store_challenge kind binding (some raw) none now purge_ok insert_ok a = (a, err no_random)
  store_challenge kind binding (some raw) (some token) now purge_ok insert_ok a =
      if not purge_ok
      then (a, err database_failed)
      else if not insert_ok
          || is_some (find_where (is_challenge (digest token)) (purged now a).challenges)
      then (purged now a, err database_failed)
      else (
        record a {
          challenges =
              record {
                token_hash = digest token;
                kind = kind;
                session_hash = binding;
                raw = raw;
                expires_at = unix (now + challenge_lifetime);
              }
              ∷ (purged now a).challenges;
        },
        ok token,
      )

  module _ {Data : Type 0} (unmarshal : String → Option Data) where
    abbrev pub decoded_data : Option Data → Fallible AuthError Data
    decoded_data none = err malformed
    decoded_data (some d) = ok d

    abbrev pub taken :
        (Challenge → Bool) → Option Challenge → SiteAuth → SiteAuth × Fallible AuthError Data
    taken unspent none a = (a, err denied)
    taken unspent (some c) a = (
      record a { challenges = delete_where unspent a.challenges },
      decoded_data (unmarshal c.raw),
    )

    unfoldable pub take_challenge :
        String → String → String → ℕ → Bool → SiteAuth → SiteAuth × Fallible AuthError Data
    unfolding delete_where find_where
    take_challenge token kind binding now delete_ok a =
        let unspent = is_open_challenge (digest token) kind binding now in
        if not delete_ok
        then (a, err database_failed)
        else taken unspent (find_where unspent a.challenges) a

-- The two statements of saveCredential; none is its error. An INSERT fails on an id that is there.
unfoldable pub save_credential :
    String → String → Bool → ℕ → Bool → List Credential → Option (List Credential)
unfolding find_where count_where update_where
save_credential id raw insert now exec_ok credentials =
    let same : Credential → Bool = λ c. c.id == id in
    let set : Credential → Credential = λ c. record c { raw = raw; updated_at = unix now } in
    if not exec_ok
    then none
    else if insert
    then if is_some (find_where same credentials)
      then none
      else some (record { id = id; raw = raw; updated_at = unix now } ∷ credentials)
    else if eqb (count_where same credentials) 1
    then some (update_where same set credentials)
    else none

-- The deletion of old attempts, then the attempt itself.
abbrev pub is_old : ℕ → Attempt → Bool
is_old now v = leb minute_ns (now - v.start)

abbrev pub is_key : String → Attempt → Bool
is_key key v = v.key == key

abbrev pub attempted : Attempt → Attempt
attempted v = record v { count = suc v.count }

abbrev pub at_attempt : String → ℕ → Option Attempt → List Attempt → List Attempt × Bool
at_attempt key now none live =
    if leb 4096 (length live)
    then (live, false)
    else (record { key = key; start = now; count = 1 } ∷ live, true)
at_attempt key now (some v) live = (update_where (is_key key) attempted live, leb (suc v.count) 20)

unfoldable pub allow_attempt : String → ℕ → List Attempt → List Attempt × Bool
unfolding find_where update_where delete_where
allow_attempt key now attempts =
    let live = delete_where (is_old now) attempts in
    at_attempt key now (find_where (is_key key) live) live
