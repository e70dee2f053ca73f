-- ===== src/Cache/Remember.antt =====
-- `remember` of src/services/cache.service.ts: a value that is read from the cache, and otherwise
-- resolved and kept there for some seconds.
use flowdeck_backend.Base.{Option, String, ap, none, refl, some, true, ℕ, ◌∙◌, ◌≡◌}
use flowdeck_backend.Cache.{attempt, or_fallback, parsed, read_json, replied, reply, write_json}
use flowdeck_backend.Cache.Commands.{CacheKey, Value, live, value_of}
use flowdeck_backend.Models.{Db, Models, on_cache}
use flowdeck_backend.Store.{Exec, Result, call-returns, gets, ok, pure, reads-returns, ◌>>=◌, ◌>>◌}

module _ {m : Models} {A : Type 0} (stringify : A → Value) (parse : Value → Option A) where
  -- The end of `remember`: `cached !== null`, or not.
  unfoldable pub or_resolve : ℕ → CacheKey → ℕ → Exec (Db m) A → Option A → Exec (Db m) A
  or_resolve now key seconds resolver (some a) = pure a
  or_resolve now key seconds resolver none = do
    fresh ← resolver
    on_cache (write_json m.redis now key (stringify fresh) seconds)
    pure fresh

  unfoldable pub remember : ℕ → CacheKey → ℕ → Exec (Db m) A → Exec (Db m) A
  remember now key seconds resolver = do
    cached ← on_cache (read_json m.redis parse now key)
    or_resolve now key seconds resolver cached

  -- What Redis holds for the key.
  abbrev pub recalled : ℕ → CacheKey → Db m → Option A
  recalled now key db = parsed parse (value_of (live now (m.redis.find key db.cached)))

  read_json-recalled :
      (now : ℕ) (key : CacheKey) (db : Db m)
      → m.redis.up db.cached ≡ true
      → on_cache (read_json m.redis parse now key) db ≡ (ok (recalled now key db), db)
  unfolding on_cache read_json attempt or_fallback
  read_json-recalled now key db u = rw (m.redis.get_lem now key db.cached u) refl

  -- A value in the cache is returned, whatever the resolver would say.
  pub remember-recalled :
      (now : ℕ) (key : CacheKey) (seconds : ℕ) (resolver : Exec (Db m) A) (a : A) (db : Db m)
      → m.redis.up db.cached ≡ true
      → recalled now key db ≡ some a
      → remember now key seconds resolver db ≡ (ok a, db)
  unfolding remember or_resolve pure
  remember-recalled now key seconds resolver a db u e =
      call-returns (on_cache (read_json m.redis parse now key)) _ db _ db
        (read_json-recalled now key db u)
      ∙ (rw e refl)

  -- A write returns, also when it fails.
  wrote :
      (now : ℕ) (key : CacheKey) (v : Value) (seconds : ℕ) (db : Db m)
      → (reply : Option String) × (db' : Db m) × (on_cache (write_json m.redis now key v seconds) db
          ≡ (ok reply, db'))
  unfolding on_cache write_json attempt or_fallback
  wrote now key v seconds db = go (m.redis.set_ex now key v seconds db.cached)
    where
      kept : Result (Option String) × m.redis.Store → Result (Option String) × Db m
      kept r = (r.0, record db { cached = r.1 })

      go :
          (o : Option String × m.redis.Store)
          → (reply : Option String) × (db' : Db m) × (kept
                (or_fallback {A = Option String} none (replied o))
              ≡ (ok reply, db'))
      go (none, s) = (none, record db { cached = s }, refl)
      go (some t, s) = (some t, record db { cached = s }, refl)

  or_resolve-fresh :
      (now : ℕ) (key : CacheKey) (seconds : ℕ) (f : Db m → A) (db : Db m)
      → (or_resolve now key seconds (gets f) none db).0 ≡ ok (f db)
  unfolding or_resolve pure
  or_resolve-fresh now key seconds f db =
      let (reply, db', e) = wrote now key (stringify (f db)) seconds db in
      ap (λ r. r.0)
        (reads-returns (λ s. ok (f s)) _ db (f db) refl
          ∙ call-returns (on_cache (write_json m.redis now key (stringify (f db)) seconds)) _ db
              reply db' e)

  -- With none there, what the resolver reads is returned.
  pub remember-resolved :
      (now : ℕ) (key : CacheKey) (seconds : ℕ) (f : Db m → A) (db : Db m)
      → m.redis.up db.cached ≡ true
      → recalled now key db ≡ none
      → (remember now key seconds (gets f) db).0 ≡ ok (f db)
  unfolding remember
  remember-resolved now key seconds f db u e =
      ap (λ r. r.0)
        (call-returns (on_cache (read_json m.redis parse now key)) _ db _ db
            (read_json-recalled now key db u)
          ∙ ap (λ o. or_resolve now key seconds (gets f) o db) e)
      ∙ or_resolve-fresh now key seconds f db
