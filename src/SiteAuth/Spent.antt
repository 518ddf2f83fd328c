-- ===== src/SiteAuth/Spent.antt =====
-- internal/siteauth: every login costs a code or a challenge. What each operation takes from and adds
-- to the tables of codes, challenges and sessions.
use omni_token.Prelude.{
  leb, ℕ, ◌+◌, ◌≤◌, String, Bool, Option, none, some, List, [], ◌∷◌, ◌≡◌, refl, inl, inr, arith,
  Bool-cases, length, find_where, delete_where, length-delete_where,
}
use omni_token.Fallible.{Fallible, ok, err}
use omni_token.SiteAuth.{
  AuthError, Challenge, SiteAuth, generate_code, consume_code, new_session, store_challenge,
  take_challenge, is_valid_code, normalize_code, is_open_challenge, taken, decoded_data, unix,
}

-- From one store to another: codes made and used, challenges made and used, sessions made.
abbrev pub Within : SiteAuth → SiteAuth → ℕ → ℕ → ℕ → ℕ → ℕ → Type 0
Within a b made used begun taken entered =
    (length b.login_codes + used ≤ length a.login_codes + made)
    × (length b.challenges + taken ≤ length a.challenges + begun)
    × (length b.sessions ≤ length a.sessions + entered)

pub Within-refl : (a : SiteAuth) → Within a a 0 0 0 0 0
Within-refl a = (omega arith, omega arith, omega arith)

module _ {ℓ} {A : Type ℓ} (p : A → Bool) where
  length-delete_where_le : (t : List A) → length (delete_where p t) ≤ length t
  length-delete_where_le t = omega (arith, length-delete_where p t)

  find_where-delete_where :
      (t : List A) (a : A) → find_where p t ≡ some a → length (delete_where p t) + 1 ≤ length t
  unfolding find_where delete_where
  find_where-delete_where [] a h = cc
  find_where-delete_where (r ∷ t) a h = elim (Bool-cases (p r)) [
    | inl hit ↦ rw hit (omega (arith, length-delete_where_le t))
    | inr miss ↦ rw miss (omega (arith, find_where-delete_where t a (rw miss at h)))
  ]

abbrev pub Result :
    {A : Type 0} → SiteAuth → ℕ → ℕ → ℕ → ℕ → ℕ → SiteAuth × Fallible AuthError A → Type 0
Result a made used begun taken entered (b, err why) = Within a b 0 0 0 0 0
Result a made used begun taken entered (b, ok value) = Within a b made used begun taken entered

pub generate_code-Result :
    (digest : String → String) (ttl now : ℕ) (fresh : Option String) (tx_ok : Bool) (a : SiteAuth)
    → Result a 1 0 0 0 0 (generate_code digest ttl now fresh tx_ok a)
unfolding generate_code
generate_code-Result digest ttl now none tx_ok a = Within-refl a
generate_code-Result digest ttl now (some fresh) tx_ok a = ground arith

pub consume_code-Result :
    (digest to_upper : String → String) (text : String) (token : Option String) (now : ℕ)
    (tx_ok : Bool) (a : SiteAuth)
    → Result a 0 1 0 0 1 (consume_code digest to_upper text token now tx_ok a)
unfolding consume_code
consume_code-Result digest to_upper text none now tx_ok a = Within-refl a
consume_code-Result digest to_upper text (some token) now tx_ok a =
    let valid = is_valid_code (digest (normalize_code to_upper text)) now in
    ground (arith, length-delete_where valid a.login_codes)

pub new_session-Result :
    (digest : String → String) (token : Option String) (now : ℕ) (insert_ok : Bool) (a : SiteAuth)
    → Result a 0 0 0 0 1 (new_session digest token now insert_ok a)
unfolding new_session
new_session-Result digest none now insert_ok a = Within-refl a
new_session-Result digest (some token) now insert_ok a = ground arith

pub store_challenge-Result :
    (digest : String → String) (kind binding : String) (raw token : Option String) (now : ℕ)
    (purge_ok insert_ok : Bool) (a : SiteAuth)
    → Result a 0 0 1 0 0 (store_challenge digest kind binding raw token now purge_ok insert_ok a)
unfolding store_challenge
store_challenge-Result digest kind binding none token now purge_ok insert_ok a = Within-refl a
store_challenge-Result digest kind binding (some raw) none now purge_ok insert_ok a = Within-refl a
store_challenge-Result digest kind binding (some raw) (some token) now purge_ok insert_ok a =
    ground
      (arith, length-delete_where_le (λ (c : Challenge). leb c.expires_at (unix now)) a.challenges)

pub take_challenge-Result :
    {Data : Type 0} (digest : String → String) (unmarshal : String → Option Data)
    (token kind binding : String) (now : ℕ) (delete_ok : Bool) (a : SiteAuth)
    → Result a 0 0 0 1 0 (take_challenge digest unmarshal token kind binding now delete_ok a)
unfolding take_challenge
take_challenge-Result {Data} digest unmarshal token kind binding now delete_ok a =
    let unspent = is_open_challenge (digest token) kind binding now in
    elim (Bool-cases delete_ok) [
      | inl run ↦ rw run (found unspent (find_where unspent a.challenges) refl)
      | inr failed ↦ rw failed (Within-refl a)
    ]
  where
    read :
        (b : SiteAuth) (d : Option Data)
        → Within a b 0 0 0 1 0
        → Result a 0 0 0 1 0 (b, decoded_data digest unmarshal d)
    read b none h = (h.0, omega (arith, h.1), h.2)
    read b (some d) h = h

    found :
        (unspent : Challenge → Bool) (o : Option Challenge)
        → find_where unspent a.challenges ≡ o
        → Result a 0 0 0 1 0 (taken digest unmarshal unspent o a)
    found unspent none h = Within-refl a
    found unspent (some c) h =
        read (record a { challenges = delete_where unspent a.challenges }) (unmarshal c.raw)
          (
            omega arith,
            omega (arith, find_where-delete_where unspent a.challenges c h),
            omega arith,
          )
