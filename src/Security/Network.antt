-- ===== src/Security/Network.antt =====
-- src/helpers/network.ts. An address is the list of its code units.
use flowdeck_backend.Base.{
  Bool, List, Option, [], codes, elem, false, if◌then◌else◌, leb, length, none, not, some, take, ℕ,
  ◌&&◌, ◌++◌, ◌==◌, ◌||◌, ◌∷◌,
}

abbrev pub Address : Type 0
Address = List ℕ

abbrev pub colon : ℕ
colon = b':'

-- `ip.includes('::')`
unfoldable pub has_double_colon : Address → Bool
has_double_colon [] = false
has_double_colon (c ∷ []) = false
has_double_colon (c ∷ d ∷ ip) = (c == colon && d == colon) || has_double_colon (d ∷ ip)

-- `ip.split(':')`, with the group that is being read
unfoldable pub split_from : Address → Address → List Address
split_from group [] = group ∷ []
split_from group (c ∷ ip) =
    let ended = group ∷ split_from [] ip in
    let longer = split_from (group ++ c ∷ []) ip in if c == colon then ended else longer

unfoldable pub join : List Address → Address
join [] = []
join (g ∷ []) = g
join (g ∷ h ∷ gs) = g ++ colon ∷ join (h ∷ gs)

abbrev pub ipv6_prefix_groups : ℕ
ipv6_prefix_groups = 4

unfoldable pub prefix_key : Address → List Address → Address
unfolding has_double_colon join
prefix_key ip groups =
    if has_double_colon ip || leb (length groups) ipv6_prefix_groups
    then ip
    else join (take ipv6_prefix_groups groups) ++ colon ∷ colon ∷ []

unfoldable pub client_key : Option Address → Address
unfolding prefix_key split_from
client_key none = codes "unknown"
client_key (some []) = codes "unknown"
client_key (some (c ∷ ip)) =
    if not (elem colon (c ∷ ip)) then c ∷ ip else prefix_key (c ∷ ip) (split_from [] (c ∷ ip))
