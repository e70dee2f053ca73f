-- ===== src/Store/Outcomes.antt =====
-- Rules for what an action returns together with the state that it leaves.
use flowdeck_backend.Base.{Bool, arith, false, refl, true, ◌≡◌}
use flowdeck_backend.Store.Actions.{
  Exec, Keeps, gets, modify, pure, raise_if, reads, reads-returns, ◌>>=◌,
}
use flowdeck_backend.Store.Errors.{ApiError, Result, err, ok}

-- `Q` holds of the result and the final state of the action, run at `s`.
pub record Ensures {S A : Type 0} (Q : Result A → S → Type 0) (m : Exec S A) (s : S) : Type 0 where
  pub at : Q (m s).0 (m s).1

-- What a refused request leaves: the state that it began in.
abbrev pub UnlessRefused : {S A : Type 0} → S → (A → S → Type 0) → Result A → S → Type 0
UnlessRefused s P (ok a) s' = P a s'
UnlessRefused s P (err e) s' = s' ≡ s

-- The action returns, and leaves a state with `P`.
abbrev pub Returns : {S A : Type 0} → (S → Type 0) → Result A → S → Type 0
Returns P (ok a) s' = P s'
Returns P (err e) s' = ⊥

module _ {S B : Type 0} (Q : Result B → S → Type 0) where
  pub Ensures-pure : (b : B) (s : S) → Q (ok b) s → Ensures Q (pure b) s
  unfolding pure
  Ensures-pure b s h = record { at = h }

  pub Ensures-modify :
      (g : S → S) (f : Unit {0} → Exec S B) (s : S)
      → Ensures Q (f tt) (g s)
      → Ensures Q (modify g >>= f) s
  unfolding modify ◌>>=◌
  Ensures-modify g f s k = record { at = k.at }

  pub Ensures-guard :
      (c : Bool) (e : ApiError) (f : Unit {0} → Exec S B) (s : S)
      → Q (err e) s
      → (c ≡ false → Ensures Q (f tt) s)
      → Ensures Q (raise_if c e >>= f) s
  unfolding reads ◌>>=◌
  Ensures-guard true e f s h k = record { at = h }
  Ensures-guard false e f s h k = record { at = (k refl).at }

module _ {S A B : Type 0} (Q : Result B → S → Type 0) where
  pub Ensures-gets :
      (g : S → A) (f : A → Exec S B) (s : S) → Ensures Q (f (g s)) s → Ensures Q (gets g >>= f) s
  unfolding reads ◌>>=◌
  Ensures-gets g f s k = record { at = k.at }

  continue : (A → Exec S B) → Result A × S → Result B × S
  continue f (ok a, s) = f a s
  continue f (err e, s) = (err e, s)

  bind-eq-continue : (m : Exec S A) (f : A → Exec S B) (s : S) → (m >>= f) s ≡ continue f (m s)
  unfolding ◌>>=◌ continue
  bind-eq-continue m f s = ground arith

  continue-ensures :
      (f : A → Exec S B) (x : Result A) (s : S)
      → ((e : ApiError) → Q (err e) s)
      → ((a : A) → x ≡ ok a → Ensures Q (f a) s)
      → Q (continue f (x, s)).0 (continue f (x, s)).1
  unfolding continue
  continue-ensures f (ok a) s h k = (k a refl).at
  continue-ensures f (err e) s h k = h e

  pub Ensures-reads :
      (r : S → Result A) (f : A → Exec S B) (s : S)
      → ((e : ApiError) → Q (err e) s)
      → ((a : A) → r s ≡ ok a → Ensures Q (f a) s)
      → Ensures Q (reads r >>= f) s
  unfolding reads
  Ensures-reads r f s h k = record {
    at = rw (bind-eq-continue (reads r) f s) (continue-ensures f (r s) s h k);
  }

  -- After a call that cannot raise and ends in a state with `P`.
  pub Ensures-call :
      (P : S → Type 0) (m : Exec S A) (f : A → Exec S B) (s : S)
      → Ensures (Returns P) m s
      → ((a : A) (s' : S) → P s' → Ensures Q (f a) s')
      → Ensures Q (m >>= f) s
  unfolding continue
  Ensures-call P m f s h k = record { at = rw (bind-eq-continue m f s) (go (m s).0 (m s).1 h.at) }
    where
      go :
          (x : Result A) (s' : S) → Returns P x s' → Q (continue f (x, s')).0 (continue f (x, s')).1
      go (ok a) s' hs = (k a s' hs).at
      go (err e) s' hs = absurd hs

module _ {S B : Type 0} where
  pub Ensures-map :
      (s₀ : S) (P P' : B → S → Type 0) (m : Exec S B) (s : S)
      → Ensures (UnlessRefused s₀ P) m s
      → ((b : B) (s' : S) → P b s' → P' b s')
      → Ensures (UnlessRefused s₀ P') m s
  Ensures-map s₀ P P' m s h k = record { at = go (m s).0 (m s).1 h.at }
    where
      go : (x : Result B) (s' : S) → UnlessRefused s₀ P x s' → UnlessRefused s₀ P' x s'
      go (ok b) s' p = k b s' p
      go (err e) s' p = p

module _ {S A B : Type 0} (Q : Result B → S → Type 0) where
  -- After a read that is known to return.
  pub Ensures-returns :
      (r : S → Result A) (f : A → Exec S B) (s : S) (a : A)
      → r s ≡ ok a
      → Ensures Q (f a) s
      → Ensures Q (reads r >>= f) s
  Ensures-returns r f s a e k = record { at = rw (reads-returns r f s a e) k.at }

  -- After a call that ends in a state with `P`, whether it returns or raises.
  pub Ensures-either :
      (P : S → Type 0) (m : Exec S A) (f : A → Exec S B) (s : S)
      → Keeps P m s
      → ((e : ApiError) (s' : S) → P s' → Q (err e) s')
      → ((a : A) (s' : S) → P s' → Ensures Q (f a) s')
      → Ensures Q (m >>= f) s
  unfolding continue
  Ensures-either P m f s h k j = record {
    at = rw (bind-eq-continue Q m f s) (go (m s).0 (m s).1 h.at);
  }
    where
      go : (x : Result A) (s' : S) → P s' → Q (continue Q f (x, s')).0 (continue Q f (x, s')).1
      go (ok a) s' hs = (j a s' hs).at
      go (err e) s' hs = k e s' hs
