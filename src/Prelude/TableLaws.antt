-- ===== src/Prelude/TableLaws.antt =====
-- What UPDATE, DELETE and SELECT keep of a table.
use Prim.Native.Nat.{◌+◌}
use mathlib.Core.Path.{◌≡◌, refl, subst}
use mathlib.Core.Bool.{Bool, true, false}
use mathlib.Core.List.{List, [], ◌∷◌}
use mathlib.Core.Logic.{inl, inr}
use mathlib.Core.Option.{none, some}
use native.Mathlib.Omega.{arith}
use omni_token.Prelude.Lists.{length, All, All-mono}
use omni_token.Prelude.Tests.{if◌then◌else◌, Bool-cases, of_some}
use omni_token.Prelude.Tables.{find_where, count_where, update_where, delete_where, sum_where}

module _ {ℓ κ} {A : Type ℓ} (P : A → Type κ) (p : A → Bool) where
  pub All-update_where :
      (f : A → A) (t : List A) → ((r : A) → P r → P (f r)) → All P t → All P (update_where p f t)
  unfolding update_where
  All-update_where f [] k h = tt
  All-update_where f (r ∷ t) k h = elim (Bool-cases (p r)) [
    | inl e ↦ rw e (k r h.0, All-update_where f t k h.1)
    | inr e ↦ rw e (h.0, All-update_where f t k h.1)
  ]

  pub All-delete_where : (t : List A) → All P t → All P (delete_where p t)
  unfolding delete_where
  All-delete_where [] h = tt
  All-delete_where (r ∷ t) h = elim (Bool-cases (p r)) [
    | inl e ↦ rw e (All-delete_where t h.1)
    | inr e ↦ rw e (h.0, All-delete_where t h.1)
  ]

module _ {ℓ} {A : Type ℓ} (p : A → Bool) where
  pub find_where-none-All : (t : List A) → find_where p t ≡ none → All (λ r. p r ≡ false) t
  unfolding find_where
  find_where-none-All [] h = tt
  find_where-none-All (r ∷ t) h = elim (Bool-cases (p r)) [
    | inl e ↦ cc (rw e at h)
    | inr e ↦ (e, find_where-none-All t (rw e at h))
  ]

  pub find_where-All-false : (t : List A) → All (λ r. p r ≡ false) t → find_where p t ≡ none
  unfolding find_where
  find_where-All-false [] h = refl
  find_where-All-false (r ∷ t) h = rw h.0 (find_where-All-false t h.1)

  pub find_where-some : (t : List A) (a : A) → find_where p t ≡ some a → p a ≡ true
  unfolding find_where
  find_where-some [] a h = cc
  find_where-some (r ∷ t) a h = ground (arith, find_where-some t a)

  pub All-delete_where_self : (t : List A) → All (λ r. p r ≡ false) (delete_where p t)
  unfolding delete_where
  All-delete_where_self [] = tt
  All-delete_where_self (r ∷ t) = elim (Bool-cases (p r)) [
    | inl e ↦ rw e (All-delete_where_self t)
    | inr e ↦ rw e (e, All-delete_where_self t)
  ]

  pub length-delete_where : (t : List A) → length (delete_where p t) + count_where p t ≡ length t
  unfolding delete_where count_where
  length-delete_where [] = refl
  length-delete_where (r ∷ t) = ground (arith, length-delete_where t)

  pub length-update_where : (f : A → A) (t : List A) → length (update_where p f t) ≡ length t
  unfolding update_where
  length-update_where f [] = refl
  length-update_where f (r ∷ t) = ground (arith, length-update_where f t)

  -- An UPDATE that touches no row changes nothing.
  pub update_where-count_zero :
      (f : A → A) (t : List A) → count_where p t ≡ 0 → update_where p f t ≡ t
  unfolding update_where count_where
  update_where-count_zero f [] h = refl
  update_where-count_zero f (r ∷ t) h = ground (arith, update_where-count_zero f t)

  pub count_where-All-false : (t : List A) → All (λ r. p r ≡ false) t → count_where p t ≡ 0
  unfolding count_where
  count_where-All-false [] h = refl
  count_where-All-false (r ∷ t) h = rw h.0 (omega (arith, count_where-All-false t h.1))

  pub delete_where-All-false : (t : List A) → All (λ r. p r ≡ false) t → delete_where p t ≡ t
  unfolding delete_where
  delete_where-All-false [] h = refl
  delete_where-All-false (r ∷ t) h = rw (h.0, delete_where-All-false t h.1)

module _ {ℓ κ} {A : Type ℓ} (P : A → Type κ) where
  pub All-find_where : (p : A → Bool) (t : List A) {a : A} → find_where p t ≡ some a → All P t → P a
  unfolding find_where
  All-find_where p [] e h = cc
  All-find_where p (r ∷ t) e h = elim (Bool-cases (p r)) [
    | inl hit ↦ subst P (of_some (rw hit at e)) h.0
    | inr miss ↦ All-find_where p t (rw miss at e) h.1
  ]

-- Every row is related to every later row.
module _ {ℓ} {A : Type ℓ} (R : A → A → Type 0) where
  abbrev pub Pairs : List A → Type 0
  Pairs [] = Unit
  Pairs (r ∷ t) = All (R r) t × Pairs t

  pub Pairs-delete_where : (p : A → Bool) (t : List A) → Pairs t → Pairs (delete_where p t)
  unfolding delete_where
  Pairs-delete_where p [] h = tt
  Pairs-delete_where p (r ∷ t) h = elim (Bool-cases (p r)) [
    | inl e ↦ rw e (Pairs-delete_where p t h.1)
    | inr e ↦ rw e (All-delete_where (R r) p t h.0, Pairs-delete_where p t h.1)
  ]

  pub Pairs-update_where :
      (p : A → Bool) (f : A → A) (t : List A)
      → ((r q : A) → R r q → R (f r) q)
      → ((r q : A) → R r q → R r (f q))
      → Pairs t
      → Pairs (update_where p f t)
  unfolding update_where
  Pairs-update_where p f [] k l h = tt
  Pairs-update_where p f (r ∷ t) k l h =
      let later = All-update_where (R r) p f t (l r) h.0 in
      let rest = Pairs-update_where p f t k l h.1 in
      elim (Bool-cases (p r)) [
        | inl e ↦ rw e (All-mono (R r) (R (f r)) _ (k r) later, rest)
        | inr e ↦ rw e (later, rest)
      ]

-- An UPDATE seen from two rows at once.
module _ {ℓ} {A : Type ℓ} (R S : A → A → Type 0) (p : A → Bool) (f : A → A) where
  abbrev pub updated : A → A
  updated r = if p r then f r else r

  All-updated :
      (r : A) (t : List A)
      → ((q : A) → R r q → S (updated r) (updated q))
      → All (R r) t
      → All (S (updated r)) (update_where p f t)
  unfolding update_where
  All-updated r [] k h = tt
  All-updated r (q ∷ t) k h = (k q h.0, All-updated r t k h.1)

  pub Pairs-updated :
      (t : List A)
      → ((r q : A) → R r q → S (updated r) (updated q))
      → Pairs R t
      → Pairs S (update_where p f t)
  unfolding update_where
  Pairs-updated [] k h = tt
  Pairs-updated (r ∷ t) k h = (All-updated r t (k r) h.0, Pairs-updated t k h.1)

-- A relation between all rows holds between each row and the later ones, both ways round.
module _ {ℓ} {A : Type ℓ} (R : A → A → Type 0) where
  abbrev pub BothWays : A → A → Type 0
  BothWays r q = R r q × R q r

  All-both : (r : A) (t : List A) → All (R r) t → All (λ q. R q r) t → All (BothWays r) t
  All-both r [] h k = tt
  All-both r (q ∷ t) h k = ((h.0, k.0), All-both r t h.1 k.1)

  All-tail : (r : A) (t s : List A) → All (λ q. All (R q) (r ∷ t)) s → All (λ q. All (R q) t) s
  All-tail r t s h = All-mono (λ q. All (R q) (r ∷ t)) (λ q. All (R q) t) s (λ q k. k.1) h

  pub Pairs-All : (t : List A) → All (λ r. All (R r) t) t → Pairs BothWays t
  Pairs-All [] h = tt
  Pairs-All (r ∷ t) h = (
    All-both r t h.0.1 (All-mono (λ q. All (R q) (r ∷ t)) (λ q. R q r) t (λ q k. k.0) h.1),
    Pairs-All t (All-tail r t t h.1),
  )

module _ {ℓ} {A : Type ℓ} (R S : A → A → Type 0) where
  All-both_of : (r : A) (t : List A) → All (R r) t → All (S r) t → All (λ q. R r q × S r q) t
  All-both_of r [] h k = tt
  All-both_of r (q ∷ t) h k = ((h.0, k.0), All-both_of r t h.1 k.1)

  pub Pairs-both_of : (t : List A) → Pairs R t → Pairs S t → Pairs (λ r q. R r q × S r q) t
  Pairs-both_of [] h k = tt
  Pairs-both_of (r ∷ t) h k = (All-both_of r t h.0 k.0, Pairs-both_of t h.1 k.1)

pub count_where-sum {ℓ} :
    {A : Type ℓ} (p : A → Bool) (t : List A) → count_where p t ≡ sum_where p (λ r. 1) t
unfolding count_where sum_where
count_where-sum p [] = refl
count_where-sum p (r ∷ t) = ground (arith, count_where-sum p t)
