-- ===== src/Workspaces/Members/Forgetting.antt =====
-- `forgetMembership` of src/middlewares/workspaceAccess.ts, as the requests on members call it.
-- What a call leaves while Redis answers: nothing of the membership, nor of those forgotten before.
use flowdeck_backend.Base.{[], arith, inl, inr, none, refl, true, ℕ, ◌/◌, ◌∙◌, ◌∷◌, ◌≡◌, ◌⊎◌}
use flowdeck_backend.Cache.{CacheKey, Redis, drop, same_key}
use flowdeck_backend.Cache.Counters.{drop-find, drop-returns, same_key_refl}
use flowdeck_backend.Models.{Db, Models, on_cache}
use flowdeck_backend.Store.{Ensures, Result, Returns, ok}
use flowdeck_backend.Workspaces.Access.{IsForgotten}
use flowdeck_backend.Workspaces.Members.{forget_membership}

abbrev pub Forgot : ℕ → ℕ → {m : Models} → Db m → Db m → Type 0
Forgot ws u {m} db db' =
    (db'.memberships ≡ db.memberships)
    × IsForgotten ws u db'
    × ((v : ℕ) → IsForgotten ws v db → IsForgotten ws v db')

Returns-ok :
    {S A : Type 0} (P : S → Type 0) (r : Result A) (a : A) (s : S) → r ≡ ok a → P s → Returns P r s
Returns-ok P r a s e h = rw e h

module _ (redis : Redis) where
  forgotten_key :
      (now : ℕ) (k j : CacheKey) (s : redis.Store)
      → redis.up s ≡ true
      → (same_key k j ≡ true) ⊎ (redis.find j s ≡ none)
      → redis.find j (drop redis now (k ∷ []) s).1 ≡ none
  forgotten_key now k j s u (inl same) = (drop-find redis now (k ∷ []) j s u).0 ∙ (rw same refl)
  forgotten_key now k j s u (inr gone) =
      (drop-find redis now (k ∷ []) j s u).0 ∙ (ground (arith, gone))

module _ {m : Models} where
  pub forget_membership-Returns :
      (now ws u : ℕ) (db : Db m)
      → m.redis.up db.cached ≡ true
      → Ensures (Returns (Forgot ws u db)) (forget_membership now ws u) db
  unfolding forget_membership on_cache
  forget_membership-Returns now ws u db up =
      let k = CacheKey.membership ws u in
      let t = now / 1000 in
      let still = (drop-find m.redis t (k ∷ []) k db.cached up).1 in
      let (n, e) = drop-returns m.redis t (k ∷ []) db.cached in
      record {
        at =
            Returns-ok (Forgot ws u db) (drop m.redis t (k ∷ []) db.cached).0 n
              (record db { cached = (drop m.redis t (k ∷ []) db.cached).1 }) e
              (
                refl,
                (still, forgotten_key m.redis t k k db.cached up (inl (same_key_refl k))),
                λ v gone. (
                  still,
                  forgotten_key m.redis t k (CacheKey.membership ws v) db.cached up (inr gone.1),
                ),
              );
      }
