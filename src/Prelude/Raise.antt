-- ===== src/Prelude/Raise.antt =====
-- Code that may raise. A transaction returns the new tables beside its result, so what it wrote
-- before an exception is rolled back: the caller still has the tables from before.
use mathlib.Core.Path.{◌≡◌, refl, ap, subst}
use mathlib.Core.Bool.{Bool, true, false}
use mathlib.Core.Option.{Option, none, some}
use hysteria2_panel.Prelude.Tests.{if◌then◌else◌}

pub data Result {ℓ} (E A : Type ℓ) : Type ℓ where
  ok : A → Result E A
  err : E → Result E A

-- `if row is None: return other`
abbrev pub maybe {ℓ κ} : {A : Type ℓ} {B : Type κ} → Option A → B → (A → B) → B
maybe none other k = other
maybe (some a) other k = k a

module _ {ℓ} {E : Type ℓ} where
  infixl 5 ◌>>=◌ ◌>>◌
  abbrev pub ◌>>=◌ : {A B : Type ℓ} → Result E A → (A → Result E B) → Result E B
  ok a >>= f = f a
  err e >>= f = err e

  abbrev pub ◌>>◌ : {B : Type ℓ} → Result E Unit → Result E B → Result E B
  m >> k = m >>= λ _. k

  -- `if not test: raise e`
  abbrev pub guard : Bool → E → Result E Unit
  guard true e = ok tt
  guard false e = err e

  -- `if row is None: raise e`
  abbrev pub found : {A : Type ℓ} → Option A → E → Result E A
  found none e = err e
  found (some a) e = ok a

  state_of : {A S : Type ℓ} → S → Result E (A × S) → S
  state_of s (ok (_, s')) = s'
  state_of s (err _) = s

  value_of : {A : Type ℓ} → A → Result E A → A
  value_of a (ok b) = b
  value_of a (err _) = a

  pub ok-injective : {A : Type ℓ} {a b : A} → ◌≡◌ {A = Result E A} (ok a) (ok b) → a ≡ b
  unfolding value_of
  ok-injective {a = a} e = ap (value_of a) e

  -- What a call that did not raise has passed.
  pub guard-ok :
      {A : Type ℓ} (b : Bool) (e : E) (k : Result E A) {a : A}
      → (guard b e >> k) ≡ ok a
      → (b ≡ true) × (k ≡ ok a)
  guard-ok true e k h = (refl, h)
  guard-ok false e k h = absurd (cc)

  pub guard-passed : (b : Bool) (e : E) → ◌≡◌ {A = Result E Unit} (guard b e) (ok tt) → b ≡ true
  guard-passed true e h = refl
  guard-passed false e h = absurd (cc)

  pub found-ok :
      {A : Type ℓ} (o : Option A) (e : E) (a : A)
      → ◌≡◌ {A = Result E A} (found o e) (ok a)
      → o ≡ some a
  found-ok none e a h = absurd (cc)
  found-ok (some b) e a h = ap some (ok-injective h)

  pub bind-ok :
      {A B : Type ℓ} (m : Result E A) (f : A → Result E B) {b : B}
      → (m >>= f) ≡ ok b
      → (a : A) × (m ≡ ok a) × (f a ≡ ok b)
  bind-ok (ok a) f h = (a, refl, h)
  bind-ok (err e) f h = absurd (cc)

-- `P` holds of the tables that a transaction commits.
pub record Commits {ℓ κ} {E A S : Type ℓ} (P : S → Type κ) (r : Result E (A × S))
    : Type (ℓ ⊔ κ) where
  pub at : (a : A) (s : S) → r ≡ ok (a, s) → P s

module _ {ℓ κ} {E A S : Type ℓ} {P : S → Type κ} where
  pub Commits-ok : (a : A) (s : S) → P s → Commits {E = E} P (ok (a, s))
  unfolding state_of
  Commits-ok a s h = record { at = λ a' s' e. subst P (ap (state_of s) e) h }

  pub Commits-ok_pair : (p : A × S) → P (p.1) → Commits {E = E} P (ok p)
  Commits-ok_pair (a, s) h = Commits-ok a s h

  pub Commits-err : (e : E) → Commits {A = A} P (err e)
  Commits-err e = record { at = λ a s h. absurd (cc) }

  pub Commits-guard :
      (b : Bool) (e : E) (k : Result E (A × S))
      → (b ≡ true → Commits P k)
      → Commits P (guard b e >> k)
  Commits-guard true e k h = h refl
  Commits-guard false e k h = Commits-err e

  pub Commits-if :
      (b : Bool) (k l : Result E (A × S))
      → (b ≡ true → Commits P k)
      → (b ≡ false → Commits P l)
      → Commits P (if b then k else l)
  Commits-if true k l h g = h refl
  Commits-if false k l h g = g refl

module _ {ℓ κ} {E A B S : Type ℓ} {P : S → Type κ} where
  pub Commits-found :
      (o : Option A) (e : E) (k : A → Result E (B × S))
      → ((a : A) → o ≡ some a → Commits P (k a))
      → Commits P (found o e >>= k)
  Commits-found none e k h = Commits-err e
  Commits-found (some a) e k h = h a refl

  pub Commits-bind :
      (m : Result E A) (k : A → Result E (B × S))
      → ((a : A) → m ≡ ok a → Commits P (k a))
      → Commits P (m >>= k)
  Commits-bind (ok a) k h = h a refl
  Commits-bind (err e) k h = Commits-err e

  pub Commits-maybe :
      (o : Option A) (other : Result E (B × S)) (k : A → Result E (B × S))
      → Commits P other
      → ((a : A) → o ≡ some a → Commits P (k a))
      → Commits P (maybe o other k)
  Commits-maybe none other k p h = p
  Commits-maybe (some a) other k p h = h a refl

-- A transaction whose first part commits what `Q` holds of
module _ {ℓ κ ι} {E A B S : Type ℓ} {Q : S → Type ι} {P : S → Type κ} where
  pub Commits-then :
      (m : Result E (A × S)) (k : A × S → Result E (B × S))
      → Commits Q m
      → ((a : A) (s : S) → m ≡ ok (a, s) → Q s → Commits P (k (a, s)))
      → Commits P (m >>= k)
  Commits-then m k first rest =
      Commits-bind m k (λ p e. rest (p.0) (p.1) e (first.at (p.0) (p.1) e))

pub ruleset commits_rules =
    (Commits-ok, Commits-err, Commits-guard, Commits-if, Commits-found, Commits-bind, Commits-maybe)
