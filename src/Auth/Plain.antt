-- ===== src/Auth/Plain.antt =====
-- Tokens that are their claims, written out: the laws of `Crypto` can be met.
use Prim.Native.Char.{Char, code}
use text.Mathlib.TextLemmas.{cons-ne-nil}
use Prim.Native.String.{String}
use flowdeck_backend.Auth.Tokens.{AccessClaims, Crypto, RefreshClaims, Verified, lasting}
use flowdeck_backend.Base.{
  Option, ap, arith, false, if◌then◌else◌, none, refl, same_text, same_text_ne, same_text_refl,
  some, suc, sym, zero, ℕ, ◌+◌, ◌-◌, ◌==◌, ◌∙◌, ◌≡◌,
}
use flowdeck_backend.Models.{SystemRole}

-- A number as so many `a`, and an end.
unfoldable pub number : ℕ → String → String
number zero s = String.◌∷◌ "b" s
number (suc n) s = String.◌∷◌ "a" (number n s)

unfoldable pub more_of : ℕ × String → ℕ × String
more_of (n, s) = (suc n, s)

unfoldable pub read_number : String → ℕ × String
unfolding more_of
read_number String.[] = (0, "")
read_number (String.◌∷◌ c s) =
    let rest = more_of (read_number s) in if code c == b'a' then rest else (0, s)

read_number-number : (n : ℕ) (s : String) → read_number (number n s) ≡ (n, s)
unfolding number read_number
read_number-number zero s = refl
read_number-number (suc n) s = ap more_of (read_number-number n s)

abbrev role_number : SystemRole → ℕ
role_number SystemRole.user = 0
role_number SystemRole.support = 1
role_number SystemRole.super_admin = 2

abbrev role_of : ℕ → SystemRole
role_of n =
    if n == 0
    then SystemRole.user
    else if n == 1
    then SystemRole.support
    else SystemRole.super_admin

abbrev option_number : Option ℕ → ℕ
option_number none = 0
option_number (some n) = n + 1

abbrev option_of : ℕ → Option ℕ
option_of n = if n == 0 then none else some (n - 1)

unfoldable pub write_access : ℕ → AccessClaims → String
write_access until c =
    number until (number c.sub (number (role_number c.role) (number (option_number c.ver) "")))

-- The number that stands first, and what follows.
abbrev first : String → ℕ
first s = (read_number s).0

abbrev rest : String → String
rest s = (read_number s).1

unfoldable pub read_access : ℕ → String → Verified AccessClaims
read_access now s = lasting now (first s) (record {
  sub = first (rest s);
  role = role_of (first (rest (rest s)));
  ver = option_of (first (rest (rest (rest s))));
})

role_of-role_number : (r : SystemRole) → role_of (role_number r) ≡ r
role_of-role_number SystemRole.user = refl
role_of-role_number SystemRole.support = refl
role_of-role_number SystemRole.super_admin = refl

option_of-option_number : (o : Option ℕ) → option_of (option_number o) ≡ o
option_of-option_number none = refl
option_of-option_number (some n) = ground arith

-- Reading one number off a text that begins with it.
read-off : (n : ℕ) (s t : String) → t ≡ number n s → (first t ≡ n) × (rest t ≡ s)
read-off n s t e =
    let r = ap read_number e ∙ read_number-number n s in (ap (λ p. p.0) r, ap (λ p. p.1) r)

lasting-access :
    (now until until' : ℕ) (c d : AccessClaims)
    → until ≡ until'
    → c.sub ≡ d.sub
    → c.role ≡ d.role
    → c.ver ≡ d.ver
    → lasting now until c ≡ lasting now until' d
lasting-access now until until' c d e s r v = rw (e, s, r, v) refl

pub read_access-write_access :
    (now until : ℕ) (c : AccessClaims)
    → read_access now (write_access until c) ≡ lasting now until c
unfolding read_access write_access
read_access-write_access now until c =
    let s₃ = number (option_number c.ver) "" in
    let s₂ = number (role_number c.role) s₃ in
    let s₁ = number c.sub s₂ in
    let (u, r₁) = read-off until s₁ (number until s₁) refl in
    let (a, r₂) = read-off c.sub s₂ (rest (number until s₁)) r₁ in
    let (b, r₃) = read-off (role_number c.role) s₃ (rest (rest (number until s₁))) r₂ in
    let (v, _) = read-off (option_number c.ver) "" (rest (rest (rest (number until s₁)))) r₃ in
    lasting-access now _ until _ c u a (ap role_of b ∙ role_of-role_number c.role)
      (ap option_of v ∙ option_of-option_number c.ver)

pub write_access-nonempty : (until : ℕ) (c : AccessClaims) → write_access until c ≡ "" → ⊥
unfolding write_access number
write_access-nonempty zero c h = cons-ne-nil _ _ h
write_access-nonempty (suc n) c h = cons-ne-nil _ _ h

-- Each character of the family after an `a`, and an end; then `jti`.
unfoldable pub write_text : String → String → String
write_text String.[] s = String.◌∷◌ "b" s
write_text (String.◌∷◌ c t) s = String.◌∷◌ "a" (String.◌∷◌ c (write_text t s))

unfoldable pub before : Char → String × String → String × String
before c (t, s) = (String.◌∷◌ c t, s)

unfoldable pub read_text : String → String × String
unfolding before
read_text String.[] = ("", "")
read_text (String.◌∷◌ c String.[]) = ("", "")
read_text (String.◌∷◌ c (String.◌∷◌ d s)) =
    let more = before d (read_text s) in if code c == b'a' then more else ("", String.◌∷◌ d s)

read_text-write_text :
    (t s : String) → read_text (write_text t (String.◌∷◌ "-" s)) ≡ (t, String.◌∷◌ "-" s)
unfolding write_text read_text
read_text-write_text String.[] s = refl
read_text-write_text (String.◌∷◌ c t) s = ap (before c) (read_text-write_text t s)

-- A mark stands before `jti`, which may be empty.
unfoldable pub unmarked : String → String
unmarked String.[] = ""
unmarked (String.◌∷◌ c s) = s

unfoldable pub write_refresh : ℕ → RefreshClaims → String
write_refresh until c = number until (number c.sub (write_text c.family (String.◌∷◌ "-" c.jti)))

unfoldable pub read_refresh : ℕ → String → Verified RefreshClaims
read_refresh now s = lasting now (first s) (record {
  sub = first (rest s);
  family = (read_text (rest (rest s))).0;
  jti = unmarked (read_text (rest (rest s))).1;
})

lasting-refresh :
    (now until until' : ℕ) (c d : RefreshClaims)
    → until ≡ until'
    → c.sub ≡ d.sub
    → c.family ≡ d.family
    → c.jti ≡ d.jti
    → lasting now until c ≡ lasting now until' d
lasting-refresh now until until' c d e s f j = rw (e, s, f, j) refl

pub read_refresh-write_refresh :
    (now until : ℕ) (c : RefreshClaims)
    → read_refresh now (write_refresh until c) ≡ lasting now until c
unfolding read_refresh write_refresh unmarked
read_refresh-write_refresh now until c =
    let s₂ = write_text c.family (String.◌∷◌ "-" c.jti) in
    let s₁ = number c.sub s₂ in
    let (u, r₁) = read-off until s₁ (number until s₁) refl in
    let (a, r₂) = read-off c.sub s₂ (rest (number until s₁)) r₁ in
    let t = ap read_text r₂ ∙ read_text-write_text c.family c.jti in
    lasting-refresh now _ until _ c u a (ap (λ p. p.0) t) (ap (λ p. unmarked p.1) t)

-- Tokens that expire at different moments differ.
pub write_refresh-other :
    (until until' : ℕ) (c d : RefreshClaims)
    → (until ≡ until' → ⊥)
    → same_text (write_refresh until c) (write_refresh until' d) ≡ false
unfolding write_refresh
write_refresh-other until until' c d h = same_text_ne _ _ λ e. h (
    sym (read-off until (number c.sub (write_text c.family (String.◌∷◌ "-" c.jti))) _ refl).0
    ∙ ap first e
    ∙ (read-off until' (number d.sub (write_text d.family (String.◌∷◌ "-" d.jti))) _ refl).0)

unfoldable pub plain_crypto : Crypto
unfolding read_access write_access read_refresh write_refresh unmarked read_text write_text before
    read_number number more_of
plain_crypto = record {
  sign_access = write_access;
  verify_access = read_access;
  sign_refresh = write_refresh;
  verify_refresh = read_refresh;
  sha256 = λ t. t;
  hash_password = λ salt p. p;
  compare_password = same_text;
  verify_access_lem = read_access-write_access;
  verify_refresh_lem = read_refresh-write_refresh;
  sign_access-nonempty = write_access-nonempty;
  compare_password_lem = λ salt p. same_text_refl p;
}
