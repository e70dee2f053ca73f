-- ===== src/Cache/Commands.antt =====
-- Redis as cache.service.ts uses it through ioredis. The client is not part of the repository: its
-- commands are fields, and the laws state their documented effect while the server answers.
-- A command that fails replies `none`. The clock counts seconds.
use flowdeck_backend.Base.{
  Bool, List, Option, String, any, false, if◌then◌else◌, ltb, none, same_codes, same_text, some,
  true, ℕ, ◌&&◌, ◌+◌, ◌-◌, ◌<◌, ◌==◌, ◌≡◌,
}
use flowdeck_backend.Models.Workspaces.{WorkspaceRole}

-- The constructors are the functions of `cacheKey`, the keys of RateLimitStore, and `membershipKey`.
pub data CacheKey : Type 0 where
  login_failures_by_email : String → CacheKey
  login_failures_by_ip blocked_ip : List ℕ → CacheKey
  rate_limit : String → List ℕ → CacheKey
  membership : ℕ → ℕ → CacheKey

abbrev pub same_key : CacheKey → CacheKey → Bool
same_key (CacheKey.login_failures_by_email e) k = elim k [
  | CacheKey.login_failures_by_email f ↦ same_text e f
  | _ ↦ false
]
same_key (CacheKey.login_failures_by_ip a) k = elim k [
  | CacheKey.login_failures_by_ip b ↦ same_codes a b
  | _ ↦ false
]
same_key (CacheKey.blocked_ip a) k = elim k [ CacheKey.blocked_ip b ↦ same_codes a b | _ ↦ false ]
same_key (CacheKey.rate_limit p a) k = elim k [
  | CacheKey.rate_limit q b ↦ same_text p q && same_codes a b
  | _ ↦ false
]
same_key (CacheKey.membership w u) k = elim k [
  | CacheKey.membership x v ↦ w == x && u == v
  | _ ↦ false
]

-- An integer, as INCR and DECR count.
pub data ℤ : Type 0 where
  pos negsuc : ℕ → ℤ

abbrev pub succ : ℤ → ℤ
succ (ℤ.pos n) = ℤ.pos (n + 1)
succ (ℤ.negsuc n) = if n == 0 then ℤ.pos 0 else ℤ.negsuc (n - 1)

abbrev pub pred : ℤ → ℤ
pred (ℤ.pos n) = if n == 0 then ℤ.negsuc 0 else ℤ.pos (n - 1)
pred (ℤ.negsuc n) = ℤ.negsuc (n + 1)

-- What a key holds: the numeral of an integer, the JSON text of a membership or of `false`, or
-- another text.
pub data Value : Type 0 where
  integer : ℤ → Value
  json : Option WorkspaceRole → Value
  text : String → Value

pub record Entry : Type 0 where
  pub value : Value
  pub expires : Option ℕ

-- What TTL replies: -2, -1, or the seconds that are left.
pub data Ttl : Type 0 where
  no_key no_expiry : Ttl
  left : ℕ → Ttl

-- An entry, until it expires.
abbrev pub unexpired : ℕ → Entry → Option ℕ → Option Entry
unexpired now e none = some e
unexpired now e (some t) = if ltb now t then some e else none

abbrev pub live : ℕ → Option Entry → Option Entry
live now none = none
live now (some e) = unexpired now e e.expires

abbrev pub value_of : Option Entry → Option Value
value_of none = none
value_of (some e) = some e.value

abbrev pub left_until : ℕ → Option ℕ → Ttl
left_until now none = Ttl.no_expiry
left_until now (some t) = Ttl.left (t - now)

abbrev pub ttl_of : ℕ → Option Entry → Ttl
ttl_of now none = Ttl.no_key
ttl_of now (some e) = left_until now e.expires

-- INCR and DECR start a missing key at 0, keep the expiry, and refuse a value that is no integer.
abbrev pub counted_value : (ℤ → ℤ) → Entry → Value → Option ℤ × Option Entry
counted_value f e (Value.integer n) = (some (f n), some (record e { value = Value.integer (f n) }))
counted_value f e (Value.json a) = (none, some e)
counted_value f e (Value.text t) = (none, some e)

abbrev pub counted : (ℤ → ℤ) → Option Entry → Option ℤ × Option Entry
counted f none =
    (some (f (ℤ.pos 0)), some (record { value = Value.integer (f (ℤ.pos 0)); expires = none }))
counted f (some e) = counted_value f e e.value

abbrev pub present : Option Entry → ℕ
present none = 0
present (some e) = 1

abbrev pub expiring : ℕ → Option Entry → Option Entry
expiring at none = none
expiring at (some e) = some (record e { expires = some at })

pub record Redis : Type 1 where
  pub Store : Type 0
  -- whether the server answers
  pub up : Store → Bool
  pub find : CacheKey → Store → Option Entry
  pub get : ℕ → CacheKey → Store → Option (Option Value)
  pub exists : ℕ → CacheKey → Store → Option ℕ
  pub ttl : ℕ → CacheKey → Store → Option Ttl
  pub incr : ℕ → CacheKey → Store → Option ℤ × Store
  pub decr : ℕ → CacheKey → Store → Option ℤ × Store
  pub expire : ℕ → CacheKey → ℕ → Store → Option ℕ × Store
  pub set_ex : ℕ → CacheKey → Value → ℕ → Store → Option String × Store
  pub del : ℕ → List CacheKey → Store → Option ℕ × Store
  pub get_lem :
      (now : ℕ) (k : CacheKey) (s : Store)
      → up s ≡ true
      → get now k s ≡ some (value_of (live now (find k s)))
  pub exists_lem :
      (now : ℕ) (k : CacheKey) (s : Store)
      → up s ≡ true
      → exists now k s ≡ some (present (live now (find k s)))
  pub ttl_lem :
      (now : ℕ) (k : CacheKey) (s : Store)
      → up s ≡ true
      → ttl now k s ≡ some (ttl_of now (live now (find k s)))
  pub incr_reply :
      (now : ℕ) (k : CacheKey) (s : Store)
      → up s ≡ true
      → (incr now k s).0 ≡ (counted succ (live now (find k s))).0
  pub find-incr :
      (now : ℕ) (k j : CacheKey) (s : Store)
      → up s ≡ true
      → find j (incr now k s).1
        ≡ (if same_key k j then (counted succ (live now (find j s))).1 else find j s)
  pub up-incr : (now : ℕ) (k : CacheKey) (s : Store) → up (incr now k s).1 ≡ up s
  pub expire_reply :
      (now : ℕ) (k : CacheKey) (t : ℕ) (s : Store)
      → up s ≡ true
      → (expire now k t s).0 ≡ some (present (live now (find k s)))
  pub find-expire :
      (now : ℕ) (k j : CacheKey) (t : ℕ) (s : Store)
      → up s ≡ true
      → find j (expire now k t s).1
        ≡ (if same_key k j then expiring (now + t) (live now (find j s)) else find j s)
  pub up-expire : (now : ℕ) (k : CacheKey) (t : ℕ) (s : Store) → up (expire now k t s).1 ≡ up s
  pub find-set_ex :
      (now : ℕ) (k j : CacheKey) (v : Value) (t : ℕ) (s : Store)
      → up s ≡ true
      → 0 < t
      → find j (set_ex now k v t s).1
        ≡ (if same_key k j then some (record { value = v; expires = some (now + t) }) else find j s)
  -- SET with EX 0 is an error.
  pub find-set_ex_other :
      (now : ℕ) (k j : CacheKey) (v : Value) (t : ℕ) (s : Store)
      → up s ≡ true
      → same_key k j ≡ false
      → find j (set_ex now k v t s).1 ≡ find j s
  pub up-set_ex :
      (now : ℕ) (k : CacheKey) (v : Value) (t : ℕ) (s : Store) → up (set_ex now k v t s).1 ≡ up s
  pub find-del :
      (now : ℕ) (ks : List CacheKey) (j : CacheKey) (s : Store)
      → up s ≡ true
      → find j (del now ks s).1 ≡ (if any (λ k. same_key k j) ks then none else find j s)
  pub up-del : (now : ℕ) (ks : List CacheKey) (s : Store) → up (del now ks s).1 ≡ up s
