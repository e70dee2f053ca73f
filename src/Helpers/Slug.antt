-- ===== src/Helpers/Slug.antt =====
-- src/helpers/slug.ts. A text is the list of its code points. What `normalize('NFKD').toLowerCase()`
-- makes of a name is the argument of `slug_of`.
use flowdeck_backend.Base.{
  Bool, List, [], and-parts, arith, false, if◌then◌else◌, leb, length, not, refl, suc, take, true,
  zero, ℕ, ◌&&◌, ◌++◌, ◌==◌, ◌||◌, ◌∷◌, ◌≡◌, ◌≤◌,
}

abbrev pub separator : ℕ
separator = b'-'

abbrev pub max_length : ℕ
max_length = 60

-- `ALLOWED`
abbrev pub is_allowed : ℕ → Bool
is_allowed c = (leb b'a' c && leb c b'z') || (leb b'0' c && leb c b'9')

abbrev pub is_combining_mark : ℕ → Bool
is_combining_mark c = leb 0x0300 c && leb c 0x036f

-- `output.length > 0 && output.at(-1) !== SEPARATOR`
abbrev pub takes_separator : List ℕ → Bool
takes_separator [] = false
takes_separator (c ∷ []) = not (c == separator)
takes_separator (c ∷ d ∷ cs) = takes_separator (d ∷ cs)

unfoldable pub push_character : List ℕ → ℕ → List ℕ
push_character output c =
    if is_combining_mark c
    then output
    else if is_allowed c
    then output ++ c ∷ []
    else if takes_separator output
    then output ++ separator ∷ []
    else output

unfoldable pub push_all : List ℕ → List ℕ → List ℕ
push_all output [] = output
push_all output (c ∷ cs) = push_all (push_character output c) cs

abbrev drop_if_last : ℕ → List ℕ → List ℕ
drop_if_last c [] = if c == separator then [] else c ∷ []
drop_if_last c (d ∷ ds) = c ∷ d ∷ ds

-- `while (output.at(-1) === SEPARATOR) { output.pop(); }`
unfoldable pub trim_end : List ℕ → List ℕ
trim_end [] = []
trim_end (c ∷ cs) = drop_if_last c (trim_end cs)

unfoldable pub slug_of : List ℕ → List ℕ
unfolding push_all trim_end
slug_of folded = take max_length (trim_end (push_all [] folded))

-- Read from the left: letters and digits, and separators that each follow one of these.
abbrev pub is_slug_after : Bool → List ℕ → Bool
is_slug_after b [] = true
is_slug_after b (c ∷ cs) =
    (is_allowed c || (c == separator && b)) && is_slug_after (is_allowed c) cs

abbrev ends : Bool → List ℕ → Bool
ends b [] = b
ends b (c ∷ cs) = ends (is_allowed c) cs

push-is_slug_after :
    (b : Bool) (out : List ℕ) (c : ℕ)
    → is_slug_after b out ≡ true
    → (is_allowed c || (c == separator && ends b out)) ≡ true
    → is_slug_after b (out ++ c ∷ []) ≡ true
push-is_slug_after b [] c h k = ground (arith, k)
push-is_slug_after b (d ∷ out) c h k = ground (arith, h, k, push-is_slug_after (is_allowed d) out c)

takes-ends :
    (b : Bool) (out : List ℕ)
    → is_slug_after b out ≡ true
    → takes_separator out ≡ true
    → ends b out ≡ true
takes-ends b [] h k = cc
takes-ends b (c ∷ []) h k = ground (arith, h, k)
takes-ends b (c ∷ d ∷ out) h k =
    takes-ends (is_allowed c) (d ∷ out) (and-parts _ (is_slug_after (is_allowed c) (d ∷ out)) h).1 k

push_character-is_slug_after :
    (out : List ℕ) (c : ℕ)
    → is_slug_after false out ≡ true
    → is_slug_after false (push_character out c) ≡ true
unfolding push_character
push_character-is_slug_after out c h = ground (
  arith,
  h,
  push-is_slug_after false out c h,
  push-is_slug_after false out separator h,
  takes-ends false out h,
)

push_all-is_slug_after :
    (out cs : List ℕ)
    → is_slug_after false out ≡ true
    → is_slug_after false (push_all out cs) ≡ true
unfolding push_all
push_all-is_slug_after out [] h = h
push_all-is_slug_after out (c ∷ cs) h =
    push_all-is_slug_after (push_character out c) cs (push_character-is_slug_after out c h)

kept :
    (b : Bool) (c : ℕ) (cs : List ℕ)
    → (is_allowed c || (c == separator && b)) ≡ true
    → is_slug_after (is_allowed c) cs ≡ true
    → is_slug_after b (drop_if_last c cs) ≡ true
kept b c [] h k = ground (arith, h)
kept b c (d ∷ cs) h k = ground (arith, h, k)

trim_end-is_slug_after :
    (b : Bool) (cs : List ℕ) → is_slug_after b cs ≡ true → is_slug_after b (trim_end cs) ≡ true
unfolding trim_end
trim_end-is_slug_after b [] h = refl
trim_end-is_slug_after b (c ∷ cs) h =
    kept b c (trim_end cs) (and-parts _ (is_slug_after (is_allowed c) cs) h).0
      (trim_end-is_slug_after (is_allowed c) cs (and-parts _ (is_slug_after (is_allowed c) cs) h).1)

take-is_slug_after :
    (n : ℕ) (b : Bool) (cs : List ℕ)
    → is_slug_after b cs ≡ true
    → is_slug_after b (take n cs) ≡ true
take-is_slug_after zero b cs h = refl
take-is_slug_after (suc n) b [] h = refl
take-is_slug_after (suc n) b (c ∷ cs) h = ground (arith, h, take-is_slug_after n (is_allowed c) cs)

length-take-le : (n : ℕ) (cs : List ℕ) → length (take n cs) ≤ n
length-take-le zero cs = omega arith
length-take-le (suc n) [] = omega arith
length-take-le (suc n) (c ∷ cs) = omega (arith, length-take-le n cs)

-- A slug has at most 60 characters: lower case letters, digits, and separators of which none stands
-- first and no two stand together.
pub slug_of-is_slug :
    (folded : List ℕ)
    → (is_slug_after false (slug_of folded) ≡ true) × (length (slug_of folded) ≤ max_length)
unfolding slug_of
slug_of-is_slug folded = (
  take-is_slug_after max_length false (trim_end (push_all [] folded))
      (trim_end-is_slug_after false (push_all [] folded) (push_all-is_slug_after [] folded refl)),
  length-take-le max_length (trim_end (push_all [] folded)),
)
