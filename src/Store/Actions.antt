-- ===== src/Store/Actions.antt =====
-- An async service call: it reads and writes the state and returns, or raises an `ApiError`. What
-- was written before a raise stays written.
use flowdeck_backend.Base.{
  ◌≡◌, refl, ap, ◌∙◌, Bool, true, false, Option, none, some, if◌then◌else◌, arith,
}
use flowdeck_backend.Store.Errors.{ApiError, Result, ok, err}

abbrev pub Exec : Type 0 → Type 0 → Type 0
Exec S A = S → Result A × S

abbrev pub or_raise : {A : Type 0} → Option A → ApiError → Result A
or_raise none e = err e
or_raise (some a) e = ok a

pub or_raise-eq-ok :
    {A : Type 0} (o : Option A) (e : ApiError) (a : A) → or_raise o e ≡ ok a → o ≡ some a
or_raise-eq-ok none e a h = cc
or_raise-eq-ok (some b) e a h = cc

module _ {S A : Type 0} where
  unfoldable pub pure : A → Exec S A
  pure a s = (ok a, s)

  -- A read of the state that may raise.
  unfoldable pub reads : (S → Result A) → Exec S A
  reads r s = (r s, s)

  abbrev pub gets : (S → A) → Exec S A
  gets f = reads (λ s. ok (f s))

module _ {S : Type 0} where
  unfoldable pub modify : (S → S) → Exec S (Unit {0})
  modify f s = (ok tt, f s)

  abbrev pub raise_if : Bool → ApiError → Exec S (Unit {0})
  raise_if c e = reads (λ _. if c then err e else ok tt)

  infixl 5 ◌>>=◌ ◌>>◌
  unfoldable pub ◌>>=◌ : {A B : Type 0} → Exec S A → (A → Exec S B) → Exec S B
  ◌>>=◌ m f s = let (r, s') = m s in elim r [ ok a ↦ f a s' | err e ↦ (err e, s') ]

  abbrev pub ◌>>◌ : {A B : Type 0} → Exec S A → Exec S B → Exec S B
  m >> k = m >>= λ _. k

  -- `if (c) { await action; }`
  unfoldable pub when : Bool → Exec S (Unit {0}) → Exec S (Unit {0})
  when true a = a
  when false a = pure tt

-- The action, run at `s`, ends in a state with `P`, whether it returns or raises.
pub record Keeps {S A : Type 0} (P : S → Type 0) (m : Exec S A) (s : S) : Type 0 where
  pub at : P (m s).1

module _ {S B : Type 0} (P : S → Type 0) where
  pub Keeps-pure : (b : B) (s : S) → P s → Keeps P (pure b) s
  unfolding pure
  Keeps-pure b s h = record { at = h }

  pub Keeps-modify :
      (g : S → S) (f : Unit {0} → Exec S B) (s : S)
      → Keeps P (f tt) (g s)
      → Keeps P (modify g >>= f) s
  unfolding modify ◌>>=◌
  Keeps-modify g f s k = record { at = k.at }

module _ {S A B : Type 0} (P : S → Type 0) where
  -- The rest of a block, once the first call has ended.
  resume : (A → Exec S B) → Result A × S → Result B × S
  resume f (ok a, s) = f a s
  resume f (err e, s) = (err e, s)

  bind-eq-resume : (m : Exec S A) (f : A → Exec S B) (s : S) → (m >>= f) s ≡ resume f (m s)
  unfolding ◌>>=◌ resume
  bind-eq-resume m f s = ground arith

  resume-keeps :
      (f : A → Exec S B) (x : Result A) (s : S)
      → P s
      → ((a : A) → x ≡ ok a → Keeps P (f a) s)
      → P (resume f (x, s)).1
  unfolding resume
  resume-keeps f (ok a) s h k = (k a refl).at
  resume-keeps f (err e) s h k = h

  -- After a read: `P` holds now, and after the rest, whatever value the read returns.
  pub Keeps-reads :
      (r : S → Result A) (f : A → Exec S B) (s : S)
      → P s
      → ((a : A) → r s ≡ ok a → Keeps P (f a) s)
      → Keeps P (reads r >>= f) s
  unfolding reads
  Keeps-reads r f s h k = record {
    at = rw (bind-eq-resume (reads r) f s) (resume-keeps f (r s) s h k);
  }

  -- After a call that keeps `P`.
  pub Keeps-call :
      (m : Exec S A) (f : A → Exec S B) (s : S)
      → Keeps P m s
      → ((a : A) (s' : S) → P s' → Keeps P (f a) s')
      → Keeps P (m >>= f) s
  Keeps-call m f s h k = record {
    at = rw (bind-eq-resume m f s) (resume-keeps f (m s).0 (m s).1 h.at (λ a _. k a (m s).1 h.at));
  }

module _ {S A B : Type 0} (P : S → Type 0) where
  pub Keeps-gets :
      (g : S → A) (f : A → Exec S B) (s : S) → Keeps P (f (g s)) s → Keeps P (gets g >>= f) s
  unfolding reads ◌>>=◌
  Keeps-gets g f s k = record { at = k.at }

module _ {S B : Type 0} (P : S → Type 0) where
  -- After a guard that raises if `c` holds.
  pub Keeps-guard :
      (c : Bool) (e : ApiError) (f : Unit {0} → Exec S B) (s : S)
      → P s
      → (c ≡ false → Keeps P (f tt) s)
      → Keeps P (raise_if c e >>= f) s
  unfolding reads ◌>>=◌
  Keeps-guard true e f s h k = record { at = h }
  Keeps-guard false e f s h k = record { at = (k refl).at }

module _ {S : Type 0} (P : S → Type 0) where
  pub Keeps-when :
      (c : Bool) (a : Exec S (Unit {0})) (s : S) → P s → Keeps P a s → Keeps P (when c a) s
  unfolding when pure
  Keeps-when true a s h k = k
  Keeps-when false a s h k = record { at = h }

module _ {S A B : Type 0} where
  -- A read that returns, and one that raises.
  pub reads-returns :
      (r : S → Result A) (f : A → Exec S B) (s : S) (a : A) → r s ≡ ok a → (reads r >>= f) s ≡ f a s
  unfolding reads ◌>>=◌
  reads-returns r f s a e = rw e refl

  pub reads-raises :
      (r : S → Result A) (f : A → Exec S B) (s : S) (e : ApiError)
      → r s ≡ err e
      → (reads r >>= f) s ≡ (err e, s)
  unfolding reads ◌>>=◌
  reads-raises r f s e h = rw h refl

  -- A call that returns `a` and leaves `s'`.
  pub call-returns :
      (m : Exec S A) (f : A → Exec S B) (s : S) (a : A) (s' : S)
      → m s ≡ (ok a, s')
      → (m >>= f) s ≡ f a s'
  unfolding resume
  call-returns m f s a s' e = bind-eq-resume (λ _. Unit {0}) m f s ∙ ap (resume (λ _. Unit {0}) f) e

  pub call-raises :
      (m : Exec S A) (f : A → Exec S B) (s : S) (e : ApiError) (s' : S)
      → m s ≡ (err e, s')
      → (m >>= f) s ≡ (err e, s')
  unfolding resume
  call-raises m f s a s' e = bind-eq-resume (λ _. Unit {0}) m f s ∙ ap (resume (λ _. Unit {0}) f) e

module _ {S B : Type 0} where
  -- Both ways on from a guard.
  pub guard-eq :
      (c : Bool) (e : ApiError) (f : Unit {0} → Exec S B) (s : S)
      → (raise_if c e >>= f) s ≡ (if c then (err e, s) else f tt s)
  unfolding ◌>>=◌ reads
  guard-eq true e f s = refl
  guard-eq false e f s = refl
