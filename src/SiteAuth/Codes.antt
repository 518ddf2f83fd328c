-- ===== src/SiteAuth/Codes.antt =====
-- internal/siteauth/auth.go: the code that GenerateCode shows is one that consumeCode takes, once.
use Prim.Native.Char.{code}
use Prim.Native.String.{◌++◌ as append}
use omni_token.Prelude.{
  ℕ, ◌+◌, ◌≤◌, ◌<◌, String, true, false, none, some, List, [], ◌∷◌, ◌≡◌, refl, ap, ◌∙◌, eqb, ltb,
  ◌||◌, arith, trim_space, is_space, trim_left, trim_right, find_where, eq_refl, All, count_where,
  delete_where,
}
use text.Mathlib.TextLemmas.{nil-append, cons-append, append-nil}
use omni_token.Fallible.{ok, err}
use omni_token.SiteAuth.{
  SiteAuth, unix, hour_ns, groups, join_dashes, without_dashes, generate_code, normalize_code,
  session_row, is_session, consume_code, denied,
}

-- No character of the text is a dash or a space.
abbrev pub IsPlain : String → Type 0
IsPlain String.[] = Unit
IsPlain (String.◌∷◌ c s) = (eqb (code c) 45 ≡ false) × (is_space (code c) ≡ false) × IsPlain s

abbrev NoSpace : String → Type 0
NoSpace String.[] = Unit
NoSpace (String.◌∷◌ c s) = (is_space (code c) ≡ false) × NoSpace s

trim_left-NoSpace : (s : String) → NoSpace s → trim_left s ≡ s
unfolding trim_left
trim_left-NoSpace String.[] h = refl
trim_left-NoSpace (String.◌∷◌ c s) h = rw h.0 refl

trim_right-NoSpace : (s : String) → NoSpace s → trim_right s ≡ s
unfolding trim_right
trim_right-NoSpace String.[] h = refl
trim_right-NoSpace (String.◌∷◌ c s) h = rw h.0 (ap (λ t. String.◌∷◌ c t) (trim_right-NoSpace s h.1))

trim_space-NoSpace : (s : String) → NoSpace s → trim_space s ≡ s
unfolding trim_space
trim_space-NoSpace s h = ap trim_right (trim_left-NoSpace s h) ∙ trim_right-NoSpace s h

without_dashes-IsPlain : (s : String) → IsPlain s → without_dashes s ≡ s
unfolding without_dashes
without_dashes-IsPlain String.[] h = refl
without_dashes-IsPlain (String.◌∷◌ c s) h =
    rw h.0 (ap (λ t. String.◌∷◌ c t) (without_dashes-IsPlain s h.2))

concat : List String → String
concat [] = ""
concat (g ∷ gs) = append g (concat gs)

without_dashes-append :
    (g t : String) → IsPlain g → without_dashes (append g t) ≡ append g (without_dashes t)
unfolding without_dashes
without_dashes-append String.[] t h = rw (nil-append t, nil-append (without_dashes t)) refl
without_dashes-append (String.◌∷◌ c s) t (h, space, more) =
    rw (cons-append c s t, cons-append c s (without_dashes t), h)
      (ap (λ r. String.◌∷◌ c r) (without_dashes-append s t more))

NoSpace-IsPlain : (s : String) → IsPlain s → NoSpace s
NoSpace-IsPlain String.[] h = tt
NoSpace-IsPlain (String.◌∷◌ c s) (h, space, more) = (space, NoSpace-IsPlain s more)

NoSpace-append : (s t : String) → NoSpace s → NoSpace t → NoSpace (append s t)
NoSpace-append String.[] t h k = rw (nil-append t) k
NoSpace-append (String.◌∷◌ c s) t h k = rw (cons-append c s t) (h.0, NoSpace-append s t h.1 k)

concat-groups : (s : String) → concat (groups s) ≡ s
unfolding concat groups
concat-groups String.[] = refl
concat-groups (String.◌∷◌ a String.[]) = rw (cons-append a "" "", nil-append "") refl
concat-groups (String.◌∷◌ a (String.◌∷◌ b String.[])) =
    rw (cons-append a (String.◌∷◌ b "") "", cons-append b "" "", nil-append "") refl
concat-groups (String.◌∷◌ a (String.◌∷◌ b (String.◌∷◌ c String.[]))) =
    rw
      (
        cons-append a (String.◌∷◌ b (String.◌∷◌ c "")) "",
        cons-append b (String.◌∷◌ c "") "",
        cons-append c "" "",
        nil-append "",
      )
      refl
concat-groups (String.◌∷◌ a (String.◌∷◌ b (String.◌∷◌ c (String.◌∷◌ d rest)))) =
    rw
      (
        cons-append a (String.◌∷◌ b (String.◌∷◌ c (String.◌∷◌ d ""))) (concat (groups rest)),
        cons-append b (String.◌∷◌ c (String.◌∷◌ d "")) (concat (groups rest)),
        cons-append c (String.◌∷◌ d "") (concat (groups rest)),
        cons-append d "" (concat (groups rest)),
        nil-append (concat (groups rest)),
        concat-groups rest,
      )
      refl

groups-IsPlain : (s : String) → IsPlain s → All IsPlain (groups s)
unfolding groups
groups-IsPlain String.[] h = tt
groups-IsPlain (String.◌∷◌ a String.[]) h = (h, tt)
groups-IsPlain (String.◌∷◌ a (String.◌∷◌ b String.[])) h = (h, tt)
groups-IsPlain (String.◌∷◌ a (String.◌∷◌ b (String.◌∷◌ c String.[]))) h = (h, tt)
groups-IsPlain (String.◌∷◌ a (String.◌∷◌ b (String.◌∷◌ c (String.◌∷◌ d rest))))
      (p, q, (r, s, (t, u, (v, w, more)))) =
    ((p, q, (r, s, (t, u, (v, w, tt)))), groups-IsPlain rest more)

without_dashes-join :
    (gs : List String) → All IsPlain gs → without_dashes (join_dashes gs) ≡ concat gs
unfolding join_dashes concat without_dashes
without_dashes-join [] h = refl
without_dashes-join (g ∷ []) h = rw (append-nil g) (without_dashes-IsPlain g h.0)
without_dashes-join (g ∷ (k ∷ gs)) h =
    without_dashes-append g (String.◌∷◌ "-" (join_dashes (k ∷ gs))) h.0
    ∙ ap (λ r. append g r) (without_dashes-join (k ∷ gs) h.1)

join-NoSpace : (gs : List String) → All IsPlain gs → NoSpace (join_dashes gs)
unfolding join_dashes
join-NoSpace [] h = tt
join-NoSpace (g ∷ []) h = NoSpace-IsPlain g h.0
join-NoSpace (g ∷ (k ∷ gs)) h =
    NoSpace-append g (String.◌∷◌ "-" (join_dashes (k ∷ gs))) (NoSpace-IsPlain g h.0)
      (refl, join-NoSpace (k ∷ gs) h.1)

module _ (digest to_upper : String → String) where
  normalize_code-shown :
      (fresh : String)
      → IsPlain fresh
      → to_upper fresh ≡ fresh
      → normalize_code to_upper (join_dashes (groups fresh)) ≡ fresh
  unfolding normalize_code
  normalize_code-shown fresh plain upper =
      let each = groups-IsPlain fresh plain in
      ap (λ s. to_upper (without_dashes s))
        (trim_space-NoSpace (join_dashes (groups fresh)) (join-NoSpace (groups fresh) each))
      ∙ ap to_upper (without_dashes-join (groups fresh) each ∙ concat-groups fresh)
      ∙ upper

  -- The store after a login with the only code.
  abbrev pub logged_in : String → ℕ → SiteAuth → SiteAuth
  logged_in token now a = record a {
    login_codes = [];
    sessions = session_row digest token now ∷ a.sessions;
  }

  -- A code of letters and digits that ToUpper leaves alone, made for at most an hour, is shown in
  -- groups. What is shown, given back before its expiry, opens one session under the token, if no
  -- session has it yet; after that no text is a code any more, at any time.
  pub generate_code-consume :
      (ttl now later : ℕ) (fresh token : String) (a : SiteAuth)
      → IsPlain fresh
      → to_upper fresh ≡ fresh
      → 0 < ttl
      → ttl ≤ hour_ns
      → unix later < unix (now + ttl)
      → find_where (is_session (digest token)) a.sessions ≡ none
      → (shown : String) × ((generate_code digest ttl now (some fresh) true a).1 ≡ ok shown)
        × (consume_code digest to_upper shown
              (some token)
              later
              true
              (generate_code digest ttl now (some fresh) true a).0
            ≡ (logged_in token later a, ok token))
        × ((text next : String) (ever : ℕ)
            → consume_code digest to_upper text (some next) ever true (logged_in token later a)
              ≡ (logged_in token later a, err denied))
  unfolding generate_code consume_code count_where delete_where
  generate_code-consume ttl now later fresh token a plain upper some_time hour soon new =
      let long : (eqb ttl 0 || ltb hour_ns ttl) ≡ false = ground arith in
      let early : ltb (unix later) (unix (now + ttl)) ≡ true = ground arith in
      (
        join_dashes (groups fresh),
        rw long refl,
        rw (long, normalize_code-shown fresh plain upper, eq_refl (digest fresh), early, new) refl,
        λ text next ever. refl,
      )
