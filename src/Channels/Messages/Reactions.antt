-- ===== src/Channels/Messages/Reactions.antt =====
-- `toggleReaction` of src/services/channel.service.ts: the reactions of a message after a click.
use flowdeck_backend.Base.{
  Bool, Bool-cases, List, Option, Option-cases, String, [], ap, arith, count, elem, false, filter,
  find, inl, inr, length, ltb, map_first, none, not, refl, same_text, same_text_refl, some, sym,
  true, ℕ, ◌++◌, ◌+◌, ◌==◌, ◌∙◌, ◌∷◌, ◌≡◌, ◌≤◌,
}
use flowdeck_backend.Channels.Messages.{is_for, is_used, toggle_user, toggled}
use flowdeck_backend.Models.{Reaction}

abbrev pub is_among : ℕ → Option Reaction → Bool
is_among u none = false
is_among u (some r) = elem u r.users

-- Has the user reacted with the emoji?
abbrev pub has_reacted : String → ℕ → List Reaction → Bool
has_reacted emoji u rs = is_among u (find (is_for emoji) rs)

elem-filter_out : (u : ℕ) (xs : List ℕ) → elem u (filter (λ x. not (x == u)) xs) ≡ false
elem-filter_out u [] = refl
elem-filter_out u (x ∷ xs) = ground (arith, elem-filter_out u xs)

elem-append_last : (u : ℕ) (xs : List ℕ) → elem u (xs ++ u ∷ []) ≡ true
elem-append_last u [] = ground arith
elem-append_last u (x ∷ xs) = ground (arith, elem-append_last u xs)

find-filter-none :
    (emoji : String) (rs : List Reaction)
    → count (is_for emoji) rs ≡ 0
    → find (is_for emoji) (filter is_used rs) ≡ none
find-filter-none emoji [] z = refl
find-filter-none emoji (r ∷ rs) z = ground (arith, find-filter-none emoji rs)

has_reacted-new :
    (emoji : String) (u : ℕ) (rs : List Reaction)
    → same_text emoji emoji ≡ true
    → find (is_for emoji) rs ≡ none
    → has_reacted emoji u (filter is_used (rs ++ record { emoji = emoji; users = u ∷ [] } ∷ []))
      ≡ true
has_reacted-new emoji u [] same absent = ground (arith, same)
has_reacted-new emoji u (r ∷ rs) same absent = ground (arith, has_reacted-new emoji u rs same)

elem-toggle_user : (u : ℕ) (r : Reaction) → elem u (toggle_user u r).users ≡ not (elem u r.users)
elem-toggle_user u r = ground (arith, elem-filter_out u r.users, elem-append_last u r.users)

length-append_one : (u : ℕ) (xs : List ℕ) → length (xs ++ u ∷ []) ≡ length xs + 1
length-append_one u [] = refl
length-append_one u (x ∷ xs) = ground (arith, length-append_one u xs)

elem-unused : (u : ℕ) (us : List ℕ) → ltb 0 (length us) ≡ false → elem u us ≡ false
elem-unused u [] h = refl
elem-unused u (x ∷ us) h = ground arith

-- Of reactions of which only the first is for the emoji.
has_reacted-first :
    (emoji : String) (u : ℕ) (y : Reaction) (rs : List Reaction)
    → is_for emoji y ≡ true
    → count (is_for emoji) rs ≡ 0
    → has_reacted emoji u (filter is_used (y ∷ rs)) ≡ elem u y.users
has_reacted-first emoji u y rs t rest = elim (Bool-cases (is_used y)) [
  | inl used ↦ rw used (rw t refl)
  | inr unused ↦
      rw unused (rw (find-filter-none emoji rs rest) (sym (elem-unused u y.users unused)))
]

has_reacted-later :
    (emoji : String) (u : ℕ) (y : Reaction) (rs : List Reaction)
    → is_for emoji y ≡ false
    → has_reacted emoji u (filter is_used (y ∷ rs)) ≡ has_reacted emoji u (filter is_used rs)
has_reacted-later emoji u y rs t = elim (Bool-cases (is_used y)) [
  | inl used ↦ rw used (rw t refl)
  | inr unused ↦ rw unused refl
]

has_reacted-toggled_user :
    (emoji : String) (u : ℕ) (rs : List Reaction) (r : Reaction)
    → count (is_for emoji) rs ≤ 1
    → find (is_for emoji) rs ≡ some r
    → has_reacted emoji u (filter is_used (map_first (is_for emoji) (toggle_user u) rs))
      ≡ not (elem u r.users)
has_reacted-toggled_user emoji u [] r once found = cc
has_reacted-toggled_user emoji u (x ∷ rs) r once found = elim (Bool-cases (is_for emoji x)) [
  | inl t ↦
      let same : x ≡ r = ground arith in
      rw t (
        has_reacted-first emoji u (toggle_user u x) rs t (ground arith)
        ∙ elem-toggle_user u x
        ∙ ap (λ (k : Reaction). not (elem u k.users)) same)
  | inr t ↦ rw t (
      has_reacted-later emoji u x (map_first (is_for emoji) (toggle_user u) rs) t
      ∙ has_reacted-toggled_user emoji u rs r (ground arith) (ground arith))
]

-- A click on an emoji turns the user's reaction with it on or off, where no two reactions of the
-- message are for that emoji.
pub has_reacted-toggled :
    (emoji : String) (u : ℕ) (rs : List Reaction)
    → count (is_for emoji) rs ≤ 1
    → has_reacted emoji u (toggled emoji u rs) ≡ not (has_reacted emoji u rs)
unfolding toggled
has_reacted-toggled emoji u rs once = elim (Option-cases (find (is_for emoji) rs)) [
  | inl absent ↦ rw absent (has_reacted-new emoji u rs (same_text_refl emoji) absent)
  | inr (r, found) ↦ rw found (has_reacted-toggled_user emoji u rs r once found)
]
