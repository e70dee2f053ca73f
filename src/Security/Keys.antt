-- ===== src/Security/Keys.antt =====
-- src/helpers/network.ts: the key of an address.
use mathlib.Core.List.{append-nil, append_assoc}
use flowdeck_backend.Base.{
  All, Bool, List, [], ap, arith, elem, false, not, refl, some, sym, true, ℕ, ◌++◌, ◌==◌, ◌∙◌, ◌∷◌,
  ◌≡◌,
}
use flowdeck_backend.Security.Network.{
  Address, client_key, colon, has_double_colon, join, prefix_key, split_from,
}

abbrev pub no_colon : Address → Bool
no_colon g = not (elem colon g)

colon-parts :
    (c : ℕ) (g : Address) → no_colon (c ∷ g) ≡ true → ((c == colon) ≡ false) × (no_colon g ≡ true)
colon-parts c g h = ground arith

split_from-group :
    (g group ip : Address)
    → no_colon g ≡ true
    → split_from group (g ++ ip) ≡ split_from (group ++ g) ip
unfolding split_from
split_from-group [] group ip h = rw (append-nil group) refl
split_from-group (c ∷ g) group ip h =
    let (this, rest) = colon-parts c g h in
    rw (this, split_from-group g (group ++ c ∷ []) ip rest, append_assoc group (c ∷ []) g) refl

split_from-last : (group : Address) → split_from group [] ≡ group ∷ []
unfolding split_from
split_from-last group = refl

elem-colon : (g ip : Address) → elem colon (g ++ colon ∷ ip) ≡ true
elem-colon [] ip = refl
elem-colon (c ∷ g) ip = ground (arith, elem-colon g ip)

first-colon : (g k : Address) (gs : List Address) → elem colon (join (g ∷ k ∷ gs)) ≡ true
unfolding join
first-colon g k gs = elem-colon g (join (k ∷ gs))

-- Reading what was joined gives the groups, when no group has a colon.
split_from-join :
    (g : Address) (gs : List Address)
    → All (λ g. no_colon g ≡ true) (g ∷ gs)
    → split_from [] (join (g ∷ gs)) ≡ g ∷ gs
unfolding split_from join
split_from-join g [] (h, _) = ap (split_from []) (sym (append-nil g)) ∙ split_from-group g [] [] h
split_from-join g (k ∷ gs) (h, hs) =
    split_from-group g [] (colon ∷ join (k ∷ gs)) h ∙ ap (◌∷◌ g) (split_from-join k gs hs)

client_key-colon :
    (ip : Address) → elem colon ip ≡ true → client_key (some ip) ≡ prefix_key ip (split_from [] ip)
unfolding client_key
client_key-colon [] h = cc
client_key-colon (c ∷ ip) h = rw h refl

-- An IPv6 address of more than four groups, written without `::`, is known by its first four: all the
-- addresses of one such prefix share a key, and with it their counters and their block.
pub client_key-join :
    (a b c d e : Address) (rest : List Address)
    → All (λ g. no_colon g ≡ true) (a ∷ b ∷ c ∷ d ∷ e ∷ rest)
    → has_double_colon (join (a ∷ b ∷ c ∷ d ∷ e ∷ rest)) ≡ false
    → client_key (some (join (a ∷ b ∷ c ∷ d ∷ e ∷ rest)))
      ≡ join (a ∷ b ∷ c ∷ d ∷ []) ++ colon ∷ colon ∷ []
unfolding prefix_key
client_key-join a b c d e rest h short =
    client_key-colon (join (a ∷ b ∷ c ∷ d ∷ e ∷ rest)) (first-colon a b (c ∷ d ∷ e ∷ rest))
    ∙ (rw (split_from-join a (b ∷ c ∷ d ∷ e ∷ rest) h, short) (ground arith))
