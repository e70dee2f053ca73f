-- ===== src/Store/Collections.antt =====
-- A MongoDB collection as the services use it through mongoose. The driver is not part of the
-- repository: its operations are fields, and the laws state their documented effect on the
-- documents, in natural order. `list_collection` shows that the laws can be met.
use flowdeck_backend.Base.{
  ℕ, ◌≡◌, refl, Bool, Option, List, [], ◌∷◌, ◌++◌, find, count, map_where, map_first, remove_first,
  filter,
}

pub record Collection (D : Type 0) : Type 1 where
  pub Coll : Type 0
  pub docs : Coll → List D
  pub find_one : (D → Bool) → Coll → Option D
  pub find_many : (D → Bool) → Coll → List D
  pub count_documents : (D → Bool) → Coll → ℕ
  pub create : D → Coll → Coll
  pub update_one : (D → Bool) → (D → D) → Coll → Coll
  pub update_many : (D → Bool) → (D → D) → Coll → Coll
  pub delete_one : (D → Bool) → Coll → Coll
  pub find_one_lem : (p : D → Bool) (c : Coll) → find_one p c ≡ find p (docs c)
  pub find_many_lem : (p : D → Bool) (c : Coll) → find_many p c ≡ filter p (docs c)
  pub count_lem : (p : D → Bool) (c : Coll) → count_documents p c ≡ count p (docs c)
  pub docs-create : (d : D) (c : Coll) → docs (create d c) ≡ docs c ++ d ∷ []
  pub docs-update_one :
      (p : D → Bool) (f : D → D) (c : Coll) → docs (update_one p f c) ≡ map_first p f (docs c)
  pub docs-update_many :
      (p : D → Bool) (f : D → D) (c : Coll) → docs (update_many p f c) ≡ map_where p f (docs c)
  pub docs-delete_one : (p : D → Bool) (c : Coll) → docs (delete_one p c) ≡ remove_first p (docs c)

-- A collection held as a list.
abbrev pub list_collection : (D : Type 0) → Collection D
list_collection D = record {
  Coll = List D;
  docs = λ c. c;
  find_one = find;
  find_many = filter;
  count_documents = count;
  create = λ d c. c ++ d ∷ [];
  update_one = map_first;
  update_many = map_where;
  delete_one = remove_first;
  find_one_lem = λ p c. refl;
  find_many_lem = λ p c. refl;
  count_lem = λ p c. refl;
  docs-create = λ d c. refl;
  docs-update_one = λ p f c. refl;
  docs-update_many = λ p f c. refl;
  docs-delete_one = λ p c. refl;
}
