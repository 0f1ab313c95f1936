-- ===== src/Server/Mirror/Rows.antt =====
-- The maps that the core writes for its entities, one entry for each id in topology order, and an
-- insert at one of them.
use Prim.Native.String.{String}
use mathlib.Core.Option.{some-injective}
use iemmixer.Base.{
  ℕ, zero, suc, ◌+◌, ◌≡◌, refl, sym, ap, ◌∙◌, subst, inl, inr, true, false, ◌||◌, some, List, [],
  ◌∷◌, ◌++◌, map, arith, get_elem?, set, lookup, insert, collect, contains, same, same_iff,
  Bool-cases,
}
use mathlib.Core.List.{append_assoc, append-nil}
use iemmixer.Engine.Compile.Names.{AllDifferent, contains_get}

abbrev keys : {V : Type 0} → List (String × V) → List String
keys = map (λ e. e.0)

insert-fresh :
    {V : Type 0} (k : String) (v : V) (m : List (String × V))
    → contains (keys m) k ≡ false
    → insert k v m ≡ m ++ ((k, v) ∷ [])
insert-fresh k v [] h = refl
insert-fresh k v ((j, w) ∷ m) h = ground (arith, h, insert-fresh k v m)

contains-append :
    {V : Type 0} (m r : List (String × V)) (k : String)
    → contains (keys (m ++ r)) k ≡ (contains (keys m) k || contains (keys r) k)
contains-append [] r k = refl
contains-append ((j, w) ∷ m) r k = ground (arith, contains-append m r k)

different_middle :
    {V : Type 0} (m r : List (String × V)) (k : String) (v : V)
    → AllDifferent (keys (m ++ ((k, v) ∷ r)))
    → contains (keys m) k ≡ false
different_middle [] r k v h = refl
different_middle ((j, w) ∷ m) r k v h = ground (
  arith,
  h.0,
  contains-append m ((k, v) ∷ r) j,
  same_iff j k,
  same_iff k j,
  different_middle m r k v h.1,
)

-- A `collect` of pairs with different keys is the pairs.
collect-different :
    {V : Type 0} (m r : List (String × V)) → AllDifferent (keys (m ++ r)) → collect m r ≡ m ++ r
collect-different m [] h = sym (append-nil m)
collect-different m ((k, v) ∷ r) h =
    let split : (m ++ ((k, v) ∷ [])) ++ r ≡ m ++ ((k, v) ∷ r) = append_assoc m ((k, v) ∷ []) r in
    ap (λ q. collect q r) (insert-fresh k v m (different_middle m r k v h))
    ∙ collect-different (m ++ ((k, v) ∷ [])) r (subst (λ q. AllDifferent (keys q)) (sym split) h)
    ∙ split

module _ {A B C : Type 0} (name : A → String) (f : ℕ → B → C) where
  -- The entries of `xs` under the names of `nodes`, up to the shorter list.
  abbrev pub rows : ℕ → List A → List B → List (String × C)
  rows k [] xs = []
  rows k (n ∷ nodes) [] = []
  rows k (n ∷ nodes) (x ∷ xs) = (name n, f k x) ∷ rows (suc k) nodes xs

  contains-rows :
      (k : ℕ) (nodes : List A) (xs : List B) (id : String)
      → contains (map name nodes) id ≡ false
      → contains (keys (rows k nodes xs)) id ≡ false
  contains-rows k [] xs id h = refl
  contains-rows k (n ∷ nodes) [] id h = refl
  contains-rows k (n ∷ nodes) (x ∷ xs) id h = ground (arith, h, contains-rows (suc k) nodes xs id)

  rows-different :
      (k : ℕ) (nodes : List A) (xs : List B)
      → AllDifferent (map name nodes)
      → AllDifferent (keys (rows k nodes xs))
  rows-different k [] xs h = tt
  rows-different k (n ∷ nodes) [] h = tt
  rows-different k (n ∷ nodes) (x ∷ xs) h =
      (contains-rows (suc k) nodes xs (name n) h.0, rows-different (suc k) nodes xs h.1)

  pub collect-rows :
      (k : ℕ) (nodes : List A) (xs : List B)
      → AllDifferent (map name nodes)
      → collect [] (rows k nodes xs) ≡ rows k nodes xs
  collect-rows k nodes xs h = collect-different [] _ (rows-different k nodes xs h)

  -- A later node has another name than the first.
  other_name :
      (n node : A) (nodes : List A) (i : ℕ)
      → contains (map name nodes) (name n) ≡ false
      → get_elem? nodes i ≡ some node
      → same (name n) (name node) ≡ false
  other_name n node nodes i h e = elim (Bool-cases (same (name n) (name node))) [
    | inr q ↦ q
    | inl q ↦ absurd (
        cc (
          sym h
          ∙ ap (contains (map name nodes)) ((same_iff (name n) (name node)).0 q)
          ∙ contains_get name nodes i node e))
  ]

  same_name : (n node : A) → some n ≡ some node → same (name n) (name node) ≡ true
  same_name n node e = (same_iff (name n) (name node)).1 (ap name (some-injective n node e))

  pub lookup-rows :
      (k i : ℕ) (nodes : List A) (xs : List B) (node : A) (x : B)
      → AllDifferent (map name nodes)
      → get_elem? nodes i ≡ some node
      → get_elem? xs i ≡ some x
      → lookup (name node) (rows k nodes xs) ≡ some (f (k + i) x)
  lookup-rows k i [] xs node x d e h = absurd cc
  lookup-rows k i (n ∷ nodes) [] node x d e h = absurd cc
  lookup-rows k zero (n ∷ nodes) (y ∷ xs) node x d e h =
      rw (same_name n node e)
        (ap (λ z. some (f k z)) (some-injective y x h) ∙ ap (λ j. some (f j x)) (omega arith))
  lookup-rows k (suc i) (n ∷ nodes) (y ∷ xs) node x d e h =
      rw (other_name n node nodes i d.0 e)
        (lookup-rows (suc k) i nodes xs node x d.1 e h ∙ ap (λ j. some (f j x)) (omega arith))

  -- An insert under the name of node `i` is a write of entry `i`.
  pub insert-rows :
      (k i j : ℕ) (nodes : List A) (xs : List B) (node : A) (x new : B)
      → j ≡ k + i
      → AllDifferent (map name nodes)
      → get_elem? nodes i ≡ some node
      → get_elem? xs i ≡ some x
      → insert (name node) (f j new) (rows k nodes xs) ≡ rows k nodes (set xs i new)
  insert-rows k i j [] xs node x new q d e h = absurd cc
  insert-rows k i j (n ∷ nodes) [] node x new q d e h = absurd cc
  insert-rows k zero j (n ∷ nodes) (y ∷ xs) node x new q d e h =
      let at_k : j ≡ k = omega (arith, q) in
      rw (same_name n node e) (
        ap (λ id. (id, f j new) ∷ rows (suc k) nodes xs) (ap name (sym (some-injective n node e)))
        ∙ ap (λ j. (name n, f j new) ∷ rows (suc k) nodes xs) at_k)
  insert-rows k (suc i) j (n ∷ nodes) (y ∷ xs) node x new q d e h =
      rw (other_name n node nodes i d.0 e) (
        ap (λ r. (name n, f k y) ∷ r)
          (insert-rows (suc k) i j nodes xs node x new (omega (arith, q)) d.1 e h))
