-- ===== src/Store/Procs/Replace.antt =====
-- internal/store/ingestv2.go: what a process report that is applied leaves of the live sessions.
use omni_token.Prelude.{
  ◌<◌, Bool, true, false, not, List, [], ◌∷◌, ◌≡◌, ◌⊎◌, inl, inr, refl, ap, ◌∙◌, arith, Bool-cases,
  ltb, eqb, eqb_refl, ◌==◌, eq_refl, if◌then◌else◌, All, All-mono, Any-mono, Any, All-delete_where,
  All-delete_where_self, delete_where, select_where,
}
use omni_token.Model.Snapshot.{ProcReport, ProcSession}
use omni_token.Store.Database.{LiveSession}
use omni_token.Store.Procs.{
  of_device, of_process, replace_session, live_session, apply_sessions, before, previous_report,
  Live, apply_proc_report_tx,
}

module _ {ℓ} {A : Type ℓ} where
  Any-delete_where :
      (P : A → Type 0) (p : A → Bool) (xs : List A)
      → ((x : A) → P x → p x ≡ false)
      → Any P xs
      → Any P (delete_where p xs)
  unfolding delete_where
  Any-delete_where P p [] keep h = elim h [ ]
  Any-delete_where P p (x ∷ xs) keep (inl h) = rw (keep x h) (inl h)
  Any-delete_where P p (x ∷ xs) keep (inr h) = elim (Bool-cases (p x)) [
    | inl gone ↦ rw gone (Any-delete_where P p xs keep h)
    | inr stays ↦ rw stays (inr (Any-delete_where P p xs keep h))
  ]

  All-both : (P Q : A → Type 0) (xs : List A) → All P xs → All Q xs → All (λ x. P x × Q x) xs
  All-both P Q [] h k = tt
  All-both P Q (x ∷ xs) h k = ((h.0, k.0), All-both P Q xs h.1 k.1)

  select_where-delete_where :
      (p q : A → Bool) (xs : List A)
      → ((x : A) → p x ≡ true → q x ≡ false)
      → select_where q (delete_where p xs) ≡ select_where q xs
  unfolding select_where delete_where
  select_where-delete_where p q [] f = refl
  select_where-delete_where p q (x ∷ xs) f = elim (Bool-cases (p x)) [
    | inl gone ↦ rw (gone, f x gone) (select_where-delete_where p q xs f)
    | inr stays ↦
        rw stays (ap (λ rest. if q x then x ∷ rest else rest) (select_where-delete_where p q xs f))
  ]

module _ (report : ProcReport) where
  abbrev pub IsListed : List ProcSession → LiveSession → Type 0
  IsListed ss r = Any (λ s. live_session report s ≡ r) ss

  abbrev is_ours : LiveSession → Bool
  is_ours r = of_device report.device r

  abbrev pub is_other : LiveSession → Bool
  is_other r = not (of_device report.device r)

  -- The row of a process as this report states it.
  abbrev pub Has : ProcSession → LiveSession → Type 0
  Has s r = (of_process report.device s.pid r ≡ true) × (r.observed_at ≡ report.observed_at)

  replace-Has :
      (s new : ProcSession) (t : List LiveSession)
      → Any (Has s) t
      → Any (Has s) (replace_session (live_session report new) t)
  unfolding replace_session
  replace-Has s new t h = elim (Bool-cases (eqb new.pid s.pid)) [
    | inl same ↦ inl (ground (arith, same, eq_refl report.device), refl)
    | inr other ↦ inr (
        Any-delete_where (Has s) (of_process report.device new.pid) t
          (λ r k. ground (arith, k.0, other)) h)
  ]

  apply_sessions-Has :
      (s : ProcSession) (known : List LiveSession) (ss : List ProcSession) (t : List LiveSession)
      → Any (Has s) t
      → Any (Has s) (apply_sessions report known ss t).0
  unfolding apply_sessions
  apply_sessions-Has s known [] t h = h
  apply_sessions-Has s known (x ∷ ss) t h = apply_sessions-Has s known ss _ (replace-Has s x t h)

  new-Has :
      (s : ProcSession) (t : List LiveSession)
      → Any (Has s) (replace_session (live_session report s) t)
  unfolding replace_session
  new-Has s t = inl (rw (eq_refl report.device, eqb_refl s.pid) (refl, refl))

  replace-is_other :
      (s : ProcSession) (t : List LiveSession)
      → select_where is_other (replace_session (live_session report s) t) ≡ select_where is_other t
  unfolding replace_session select_where
  replace-is_other s t = rw (eq_refl report.device) (
      select_where-delete_where (of_process report.device s.pid) is_other t
        (λ r h. ground (arith, h)))

  apply_sessions-All-Has :
      (known : List LiveSession) (ss : List ProcSession) (t : List LiveSession)
      → All (λ s. Any (Has s) (apply_sessions report known ss t).0) ss
  unfolding apply_sessions
  apply_sessions-All-Has known [] t = tt
  apply_sessions-All-Has known (s ∷ ss) t =
      (apply_sessions-Has s known ss _ (new-Has s t), apply_sessions-All-Has known ss _)

  apply_sessions-is_other :
      (known : List LiveSession) (ss : List ProcSession) (t : List LiveSession)
      → select_where is_other (apply_sessions report known ss t).0 ≡ select_where is_other t
  unfolding apply_sessions
  apply_sessions-is_other known [] t = refl
  apply_sessions-is_other known (s ∷ ss) t =
      apply_sessions-is_other known ss _ ∙ replace-is_other s t

  apply_sessions-All :
      (P : LiveSession → Type 0) (known : List LiveSession) (ss : List ProcSession)
      (t : List LiveSession)
      → All (λ s. P (live_session report s)) ss
      → All P t
      → All P (apply_sessions report known ss t).0
  unfolding apply_sessions replace_session
  apply_sessions-All P known [] t h k = k
  apply_sessions-All P known (s ∷ ss) t h k =
      apply_sessions-All P known ss _ h.1 (h.0, All-delete_where P _ t k)

  -- The row is another device's, or it was observed before the report.
  abbrev pub IsOlder : LiveSession → Type 0
  IsOlder r = (of_device report.device r ≡ false) ⊎ (r.observed_at < report.observed_at)

  -- The row is another device's, or a session of the report.
  abbrev pub IsReported : LiveSession → Type 0
  IsReported r = (of_device report.device r ≡ false) ⊎ IsListed report.sessions r

  -- What the row is before the final DELETE.
  abbrev IsKnown : LiveSession → Type 0
  IsKnown r = IsOlder r ⊎ IsListed report.sessions r

  All-IsListed :
      (ss all : List ProcSession)
      → ((s : ProcSession) → Any (λ x. x ≡ s) ss → Any (λ x. x ≡ s) all)
      → All (λ s. IsListed all (live_session report s)) ss
  All-IsListed [] all into = tt
  All-IsListed (s ∷ ss) all into = (
    Any-mono _ _ all (λ x h. ap (live_session report) h) (into s (inl refl)),
    All-IsListed ss all (λ x h. into x (inr h)),
  )

  IsKnown-IsReported :
      (r : LiveSession)
      → IsKnown r × (before report.device report.observed_at r ≡ false)
      → IsReported r
  IsKnown-IsReported r (inr listed, kept) = inr listed
  IsKnown-IsReported r (inl (inl other), kept) = inl other
  IsKnown-IsReported r (inl (inr older), kept) = inl (ground (arith, older, kept))

  -- A report that names its device and its time and is not older than the device's last one, on a
  -- table whose rows of the device were all observed before it, replaces the device's sessions:
  -- every row of the device afterwards is a session of the report, every session of the report has
  -- its row, and the rows of the other devices are the same, in order.
  pub apply_proc_report-replaces :
      (live : Live)
      → (report.device == "") ≡ false
      → eqb report.observed_at 0 ≡ false
      → ltb report.observed_at (previous_report report.device live.reports) ≡ false
      → All IsOlder live.sessions
      → let after = (apply_proc_report_tx report live).0.sessions in
        All IsReported after
        × All (λ s. Any (Has s) after) report.sessions
        × (select_where is_other after ≡ select_where is_other live.sessions)
  unfolding apply_proc_report_tx
  apply_proc_report-replaces live named timed newer older =
      let gone = before report.device report.observed_at in
      let t = (apply_sessions report live.sessions report.sessions live.sessions).0 in
      let known : All IsKnown t =
        apply_sessions-All IsKnown live.sessions report.sessions live.sessions
          (All-mono _ _ report.sessions (λ s h. inr h)
            (All-IsListed report.sessions report.sessions (λ s h. h)))
          (All-mono _ _ live.sessions (λ r h. inl h) older) in
      rw (named, timed, newer)
        (
          All-mono _ _ (delete_where gone t) IsKnown-IsReported (
              All-both IsKnown (λ r. gone r ≡ false) (delete_where gone t)
                (All-delete_where IsKnown gone t known) (All-delete_where_self gone t)),
          All-mono _ _ report.sessions
              (λ s h. Any-delete_where (Has s) gone t (λ r k. ground (arith, k.0, k.1)) h)
              (apply_sessions-All-Has live.sessions report.sessions live.sessions),
          select_where-delete_where gone is_other t (λ r h. ground (arith, h))
              ∙ apply_sessions-is_other live.sessions report.sessions live.sessions,
        )
