-- ===== src/Cache/Memory.antt =====
-- A Redis server that lives in memory: the laws of its commands can be met.
use flowdeck_backend.Base.{
  Bool, List, Option, String, any, arith, false, if◌then◌else◌, none, refl, some, true, ℕ, ◌+◌, ◌<◌,
  ◌==◌, ◌≡◌,
}
use flowdeck_backend.Cache.Commands.{
  CacheKey, Entry, Redis, Value, counted, expiring, live, pred, present, same_key, succ, ttl_of,
  value_of, ℤ,
}

abbrev pub Entries : Type 0
Entries = CacheKey → Option Entry

-- `none` while the server is down
abbrev pub Memory : Type 0
Memory = Option Entries

abbrev pub put : CacheKey → Option Entry → Entries → Entries
put k e s j = if same_key k j then e else s j

abbrev pub ask {ℓ} : {A : Type ℓ} → (Entries → A) → Memory → Option A
ask f none = none
ask f (some s) = some (f s)

abbrev pub change : {A : Type 0} → (Entries → Option A × Entries) → Memory → Option A × Memory
change f none = (none, none)
change f (some s) = ((f s).0, some (f s).1)

abbrev pub memory_incr : (ℤ → ℤ) → ℕ → CacheKey → Entries → Option ℤ × Entries
memory_incr f now k s =
    ((counted f (live now (s k))).0, λ j. put k (counted f (live now (s j))).1 s j)

abbrev pub memory_expire : ℕ → CacheKey → ℕ → Entries → Option ℕ × Entries
memory_expire now k t s =
    (some (present (live now (s k))), λ j. put k (expiring (now + t) (live now (s j))) s j)

abbrev pub memory_set_ex : ℕ → CacheKey → Value → ℕ → Entries → Option String × Entries
memory_set_ex now k v t s =
    if t == 0
    then (none, s)
    else (some "OK", put k (some (record { value = v; expires = some (now + t) })) s)

abbrev pub memory_del : List CacheKey → Entries → Option ℕ × Entries
memory_del ks s = (some 0, λ j. if any (λ k. same_key k j) ks then none else s j)

abbrev pub entry_at : Memory → CacheKey → Option Entry
entry_at none k = none
entry_at (some s) k = s k

abbrev pub is_up : Memory → Bool
is_up none = false
is_up (some s) = true

pub change-is_up :
    {A : Type 0} (f : Entries → Option A × Entries) (s : Memory) → is_up (change f s).1 ≡ is_up s
change-is_up f none = refl
change-is_up f (some s) = refl

pub when_up :
    (P : Memory → Type 0) → ((s : Entries) → P (some s)) → (s : Memory) → is_up s ≡ true → P s
when_up P h none u = cc
when_up P h (some s) u = h s

pub put-found :
    (now : ℕ) (k j : CacheKey) (v : Value) (t : ℕ) (s : Entries)
    → 0 < t
    → (memory_set_ex now k v t s).1 j
      ≡ (if same_key k j then some (record { value = v; expires = some (now + t) }) else s j)
put-found now k j v t s p = ground (arith, p)

pub put-other :
    (now : ℕ) (k j : CacheKey) (v : Value) (t : ℕ) (s : Entries)
    → same_key k j ≡ false
    → (memory_set_ex now k v t s).1 j ≡ s j
put-other now k j v t s d = ground (arith, d)

abbrev pub memory_redis : Redis
memory_redis = record {
  Store = Memory;
  up = is_up;
  find = λ k s. entry_at s k;
  get = λ now k s. ask (λ s. value_of (live now (s k))) s;
  exists = λ now k s. ask (λ s. present (live now (s k))) s;
  ttl = λ now k s. ask (λ s. ttl_of now (live now (s k))) s;
  incr = λ now k s. change (memory_incr succ now k) s;
  decr = λ now k s. change (memory_incr pred now k) s;
  expire = λ now k t s. change (memory_expire now k t) s;
  set_ex = λ now k v t s. change (memory_set_ex now k v t) s;
  del = λ now ks s. change (memory_del ks) s;
  get_lem = λ now k.
      when_up
        (λ s. ask (λ s. value_of (live now (s k))) s ≡ some (value_of (live now (entry_at s k))))
        (λ s. refl);
  exists_lem = λ now k.
      when_up
        (λ s. ask (λ s. present (live now (s k))) s ≡ some (present (live now (entry_at s k))))
        (λ s. refl);
  ttl_lem = λ now k.
      when_up
        (λ s.
          ask (λ s. ttl_of now (live now (s k))) s ≡ some (ttl_of now (live now (entry_at s k))))
        (λ s. refl);
  incr_reply = λ now k.
      when_up
        (λ s. (change (memory_incr succ now k) s).0 ≡ (counted succ (live now (entry_at s k))).0)
        (λ s. refl);
  find-incr = λ now k j.
      when_up
        (λ s.
          entry_at (change (memory_incr succ now k) s).1 j
          ≡ (if same_key k j then (counted succ (live now (entry_at s j))).1 else entry_at s j))
        (λ s. refl);
  up-incr = λ now k s. change-is_up (memory_incr succ now k) s;
  expire_reply = λ now k t.
      when_up (λ s. (change (memory_expire now k t) s).0 ≡ some (present (live now (entry_at s k))))
        (λ s. refl);
  find-expire = λ now k j t.
      when_up
        (λ s.
          entry_at (change (memory_expire now k t) s).1 j
          ≡ (if same_key k j then expiring (now + t) (live now (entry_at s j)) else entry_at s j))
        (λ s. refl);
  up-expire = λ now k t s. change-is_up (memory_expire now k t) s;
  find-set_ex = λ now k j v t s u p.
      when_up
        (λ s. entry_at (change (memory_set_ex now k v t) s).1 j ≡ (
          if same_key k j
          then some (record { value = v; expires = some (now + t) })
          else entry_at s j))
        (λ s. put-found now k j v t s p) s u;
  find-set_ex_other = λ now k j v t s u d.
      when_up (λ s. entry_at (change (memory_set_ex now k v t) s).1 j ≡ entry_at s j)
        (λ s. put-other now k j v t s d) s u;
  up-set_ex = λ now k v t s. change-is_up (memory_set_ex now k v t) s;
  find-del = λ now ks j.
      when_up
        (λ s.
          entry_at (change (memory_del ks) s).1 j
          ≡ (if any (λ k. same_key k j) ks then none else entry_at s j))
        (λ s. refl);
  up-del = λ now ks s. change-is_up (memory_del ks) s;
}
