-- ===== src/Helpers/Pagination.antt =====
-- src/helpers/pagination.ts. The stages of the aggregation are what MongoDB does with them: $skip and
-- $limit on the rows, and their number.
-- The validators make both at least 1.
use native.Mathlib.Nat.{lt-div-mul-add, le-div_iff_mul-le}
use flowdeck_backend.Base.{
  Bool, List, [], ap, arith, drop, length, ltb, ltb-lt, refl, subst, suc, sym, take, true, zero, ℕ,
  ◌*◌, ◌++◌, ◌+◌, ◌-◌, ◌/◌, ◌<◌, ◌↔◌, ◌∙◌, ◌∷◌, ◌≡◌, ◌≤◌,
}

pub record PageQuery : Type 0 where
  pub page : ℕ
  pub limit : ℕ

pub record PageMeta : Type 0 where
  pub page : ℕ
  pub limit : ℕ
  pub total : ℕ
  pub pages : ℕ
  pub has_next : Bool
  pub has_previous : Bool

pub record Paged {ℓ} (A : Type ℓ) : Type ℓ where
  pub items : List A
  pub pagination : PageMeta

unfoldable pub to_skip : PageQuery → ℕ
to_skip q = (q.page - 1) * q.limit

-- `Math.max(n, 1)`
abbrev pub at_least_one : ℕ → ℕ
at_least_one zero = 1
at_least_one (suc n) = suc n

-- `Math.max(Math.ceil(total / limit), 1)`
unfoldable pub page_count : ℕ → ℕ → ℕ
page_count limit total = at_least_one ((total + (limit - 1)) / limit)

unfoldable pub build_meta : PageQuery → ℕ → PageMeta
build_meta q total = record {
  page = q.page;
  limit = q.limit;
  total = total;
  pages = page_count q.limit total;
  has_next = ltb q.page (page_count q.limit total);
  has_previous = ltb 1 q.page;
}

zero_plus : (b : ℕ) → 0 + b ≡ b
zero_plus b = omega arith

suc_plus : (a b : ℕ) → suc a + b ≡ suc (a + b)
suc_plus a b = omega arith

before_suc : (n : ℕ) → suc n - 1 ≡ n
before_suc n = omega arith

suc_times : (n l : ℕ) → n * l + l ≡ suc n * l
suc_times n l = omega arith

zero_times : (n : ℕ) → 0 ≡ 0 * n
zero_times n = omega arith

module _ {ℓ} {A : Type ℓ} where
  -- `paginateStages`, and `unwrapFacet` of what it answers
  unfoldable pub paginate : List A → PageQuery → Paged A
  unfolding to_skip build_meta
  paginate rows q = record {
    items = take q.limit (drop (to_skip q) rows);
    pagination = build_meta q (length rows);
  }

  take-none : (n : ℕ) → take {A = A} n [] ≡ []
  take-none zero = refl
  take-none (suc n) = refl

  take-add : (a b : ℕ) (xs : List A) → take (a + b) xs ≡ take a xs ++ take b (drop a xs)
  take-add zero b xs = ap (λ k. take k xs) (zero_plus b)
  take-add (suc a) b [] = ap (λ k. take k []) (suc_plus a b) ∙ sym (take-none b)
  take-add (suc a) b (x ∷ xs) =
      ap (λ k. take k (x ∷ xs)) (suc_plus a b) ∙ ap (◌∷◌ x) (take-add a b xs)

  take-all : (n : ℕ) (xs : List A) → length xs ≤ n → take n xs ≡ xs
  take-all n [] h = take-none n
  take-all zero (x ∷ xs) h = absurd (omega (arith, h))
  take-all (suc n) (x ∷ xs) h = ap (◌∷◌ x) (take-all n xs (omega (arith, h)))

  -- The pages from the first to page `n`, one after the other.
  unfoldable pub first_pages : List A → ℕ → ℕ → List A
  first_pages rows limit zero = []
  first_pages rows limit (suc n) =
      first_pages rows limit n ++ (paginate rows (record { page = suc n; limit = limit })).items

  first_pages-take :
      (rows : List A) (limit n : ℕ) → first_pages rows limit n ≡ take (n * limit) rows
  unfolding first_pages paginate to_skip
  first_pages-take rows limit zero = subst (λ k. [] ≡ take k rows) (zero_times limit) refl
  first_pages-take rows limit (suc n) = rw (first_pages-take rows limit n) (
      ap (λ k. take (n * limit) rows ++ take limit (drop (k * limit) rows)) (before_suc n)
      ∙ sym (take-add (n * limit) limit rows)
      ∙ ap (λ k. take k rows) (suc_times n limit))

covered : (q limit total : ℕ) → total ≤ q * limit → total ≤ at_least_one q * limit
covered zero limit total h = omega (arith, h)
covered (suc q) limit total h = h

enough : (limit total : ℕ) → 0 < limit → total ≤ page_count limit total * limit
unfolding page_count
enough limit total p =
    let last = lt-div-mul-add {a = total + (limit - 1)} {b = limit} p in
    covered ((total + (limit - 1)) / limit) limit total (omega (arith, last, p))

lt-of_ltb : (a b : ℕ) → ltb a b ≡ true → a < b
lt-of_ltb a b h = ground arith

above : (page q : ℕ) → 1 ≤ page → ltb page (at_least_one q) ≡ ltb page q
above page zero h = ground arith
above page (suc q) h = refl

module _ {ℓ} {A : Type ℓ} where
  -- The pages of a list, from the first to the last that the count of pages tells, are the list: each
  -- row is on one page, in its order. The limit is at least 1.
  pub first_pages-eq_rows :
      (rows : List A) (q : PageQuery)
      → 0 < q.limit
      → first_pages rows q.limit (paginate rows q).pagination.pages ≡ rows
  unfolding paginate build_meta
  first_pages-eq_rows rows q p =
      first_pages-take rows q.limit (page_count q.limit (length rows))
      ∙ take-all (page_count q.limit (length rows) * q.limit) rows (enough q.limit (length rows) p)

  -- A page has a next one exactly if rows follow it. Page and limit are at least 1.
  has_next_iff :
      (rows : List A) (q : PageQuery)
      → 1 ≤ q.page
      → 0 < q.limit
      → ((paginate rows q).pagination.has_next ≡ true) ↔ (q.page * q.limit < length rows)
  unfolding paginate build_meta page_count
  has_next_iff rows q one p =
      let same = above q.page ((length rows + (q.limit - 1)) / q.limit) one in
      let (there, back) =
        le-div_iff_mul-le {k = q.limit} {x = suc q.page} {y = length rows + (q.limit - 1)} p in
      (
        λ h. omega (arith, there (lt-of_ltb q.page _ (sym same ∙ h)), p),
        λ h. same ∙ ltb-lt q.page _ (back (omega (arith, h, p))),
      )
