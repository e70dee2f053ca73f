-- ===== src/Helpers/Password.antt =====
-- src/helpers/password.ts. A password is the list of its code points.
use flowdeck_backend.Base.{
  Bool, List, [], any, arith, count, elem, false, leb, length, ltb, not, refl, true, ℕ, ◌&&◌, ◌||◌,
  ◌↔◌, ◌∷◌, ◌≡◌, ◌≤◌,
}

abbrev pub min_length : ℕ
min_length = 10

abbrev pub max_length : ℕ
max_length = 128

pub data Issue : Type 0 where
  too_short too_long no_lower no_upper no_digit no_symbol : Issue

abbrev pub is_lower : ℕ → Bool
is_lower c = leb b'a' c && leb c b'z'

abbrev pub is_upper : ℕ → Bool
is_upper c = leb b'A' c && leb c b'Z'

abbrev pub is_digit : ℕ → Bool
is_digit c = leb b'0' c && leb c b'9'

-- What `trim` removes: the white space and the line ends of ECMAScript.
abbrev pub is_space : ℕ → Bool
is_space c =
    (leb 9 c && leb c 13)
    || elem c (32 ∷ 160 ∷ 0x1680 ∷ 0x2028 ∷ 0x2029 ∷ 0x202f ∷ 0x205f ∷ 0x3000 ∷ 0xfeff ∷ [])
    || (leb 0x2000 c && leb c 0x200a)

abbrev pub is_symbol : ℕ → Bool
is_symbol c = not (is_space c) && not (is_lower c) && not (is_upper c) && not (is_digit c)

-- `if (c) { issues.push(issue); }`, before the rest
abbrev pub push_if : Bool → Issue → List Issue → List Issue
push_if true i is = i ∷ is
push_if false i is = is

unfoldable pub password_issues : List ℕ → List Issue
password_issues cs = push_if (ltb (length cs) min_length) Issue.too_short (
    push_if (ltb max_length (length cs)) Issue.too_long (
      push_if (not (any is_lower cs)) Issue.no_lower (
        push_if (not (any is_upper cs)) Issue.no_upper (
          push_if (not (any is_digit cs)) Issue.no_digit
            (push_if (not (any is_symbol cs)) Issue.no_symbol [])))))

-- What the issues ask for, each by itself.
pub record IsStrong (cs : List ℕ) : Type 0 where
  pub at_least : min_length ≤ length cs
  pub at_most : length cs ≤ max_length
  pub has_lower : 1 ≤ count is_lower cs
  pub has_upper : 1 ≤ count is_upper cs
  pub has_digit : 1 ≤ count is_digit cs
  pub has_symbol : 1 ≤ count is_symbol cs

not_ltb : (a b : ℕ) → ltb a b ≡ false → b ≤ a
not_ltb a b h = ground arith

ltb-false : (a b : ℕ) → b ≤ a → ltb a b ≡ false
ltb-false a b h = ground arith

any-count : (p : ℕ → Bool) (cs : List ℕ) → any p cs ≡ true → 1 ≤ count p cs
any-count p [] h = cc
any-count p (c ∷ cs) h = ground (arith, any-count p cs)

count-any : (p : ℕ → Bool) (cs : List ℕ) → 1 ≤ count p cs → any p cs ≡ true
count-any p [] h = absurd (omega (arith, h))
count-any p (c ∷ cs) h = ground (arith, count-any p cs)

push_if-empty :
    (b : Bool) (i : Issue) (is : List Issue) → push_if b i is ≡ [] → (b ≡ false) × (is ≡ [])
push_if-empty true i is h = cc
push_if-empty false i is h = (refl, h)

any-false : (p : ℕ → Bool) (cs : List ℕ) → not (any p cs) ≡ false → 1 ≤ count p cs
any-false p cs h = any-count p cs (ground (arith, h))

-- The list of issues is empty exactly for a password of 10 to 128 code points that has a lower and an
-- upper case letter, a digit, and a character that is none of these and no white space.
pub password_issues_iff : (cs : List ℕ) → (password_issues cs ≡ []) ↔ IsStrong cs
unfolding password_issues
password_issues_iff cs = (strong, none_left)
  where
    strong : password_issues cs ≡ [] → IsStrong cs
    strong h =
        let (a, h₁) = push_if-empty (ltb (length cs) min_length) Issue.too_short _ h in
        let (b, h₂) = push_if-empty (ltb max_length (length cs)) Issue.too_long _ h₁ in
        let (c, h₃) = push_if-empty (not (any is_lower cs)) Issue.no_lower _ h₂ in
        let (d, h₄) = push_if-empty (not (any is_upper cs)) Issue.no_upper _ h₃ in
        let (e, h₅) = push_if-empty (not (any is_digit cs)) Issue.no_digit _ h₄ in
        let (f, _) = push_if-empty (not (any is_symbol cs)) Issue.no_symbol _ h₅ in
        record {
          at_least = not_ltb (length cs) min_length a;
          at_most = not_ltb max_length (length cs) b;
          has_lower = any-false is_lower cs c;
          has_upper = any-false is_upper cs d;
          has_digit = any-false is_digit cs e;
          has_symbol = any-false is_symbol cs f;
        }

    none_left : IsStrong cs → password_issues cs ≡ []
    none_left s =
        rw
          (
            ltb-false (length cs) min_length s.at_least,
            ltb-false max_length (length cs) s.at_most,
            count-any is_lower cs s.has_lower,
            count-any is_upper cs s.has_upper,
            count-any is_digit cs s.has_digit,
            count-any is_symbol cs s.has_symbol,
          )
          refl
