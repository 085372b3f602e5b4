-- ===== src/Trees/Search.antt =====
-- kernel/lib/tree.c: what `tree_find` finds.
use beryllium.Base.{
  ℕ, suc, ◌+◌, ◌≡◌, refl, ap, ◌∙◌, ◌⊎◌, inl, inr, Bool, Option, none, some, List, [], ◌∷◌, ◌++◌,
  arith, if◌then◌else◌, Bool-cases,
}
use beryllium.Trees.{
  Node, node, Nodes, nil, cons, Tree, Place, value, node_at, node_in, tree_find, tree_node_find,
  find_in, found_at,
}

-- The values of a node and of those below it, a node before its children.
module _ {ℓ} {A : Type ℓ} where
  unfoldable mutual
    pub values : Node A → List A
    values (node a cs) = a ∷ values_in cs

    pub values_in : Nodes A → List A
    values_in nil = []
    values_in (cons c cs) = values c ++ values_in cs

module _ {ℓ κ} {A : Type ℓ} {S : Type κ} (comparator : A → S → Bool) (sought : S) where
  -- The first value that the comparator accepts.
  unfoldable pub first : List A → Option A
  first [] = none
  first (a ∷ rest) = let other = first rest in if comparator a sought then some a else other

  first-append_none : (xs ys : List A) → first xs ≡ none → first (xs ++ ys) ≡ first ys
  unfolding first
  first-append_none [] ys e = refl
  first-append_none (x ∷ xs) ys e = elim (Bool-cases (comparator x sought)) [
    | inl h ↦ absurd (cc (rw h at e))
    | inr h ↦ rw h (first-append_none xs ys (rw h at e))
  ]

  first-append_some : (xs ys : List A) (a : A) → first xs ≡ some a → first (xs ++ ys) ≡ some a
  unfolding first
  first-append_some [] ys a e = absurd (cc e)
  first-append_some (x ∷ xs) ys a e = elim (Bool-cases (comparator x sought)) [
    | inl h ↦ rw h (rw h at e)
    | inr h ↦ rw h (first-append_some xs ys a (rw h at e))
  ]

  -- `found` is a pointer to a node with the first value that matches, or is none and no value does.
  abbrev pub IsFirst : Option Place → Node A → Type ℓ
  IsFirst found n =
      ((found ≡ none) × (first (values n) ≡ none))
      ⊎ ((p : Place) × (m : Node A) × (found ≡ some p)
          × (node_at p n ≡ some m)
          × (first (values n) ≡ some (value m)))

  -- The same of a loop that counts from `k`.
  abbrev IsFirstIn : ℕ → Option Place → Nodes A → Type ℓ
  IsFirstIn k found cs =
      ((found ≡ none) × (first (values_in cs) ≡ none))
      ⊎ ((i : ℕ) × (p : Place) × (m : Node A) × (found ≡ some ((k + i) ∷ p))
          × (node_in i p cs ≡ some m)
          × (first (values_in cs) ≡ some (value m)))

  found_at-IsFirstIn :
      (k : ℕ) (c : Node A) (cs : Nodes A) (found others : Option Place)
      → IsFirst found c
      → IsFirstIn (suc k) others cs
      → IsFirstIn k (found_at comparator k found others) (cons c cs)
  unfolding values values_in node_in
  found_at-IsFirstIn k c cs found others (inr (p, m, e, at, h)) rest = inr (
    0,
    p,
    m,
    rw e (ap (λ j. some (j ∷ p)) (omega arith)),
    at,
    first-append_some (values c) (values_in cs) (value m) h,
  )
  found_at-IsFirstIn k c cs found others (inl (e, h)) (inl (f, g)) =
      inl (rw e f, first-append_none (values c) (values_in cs) h ∙ g)
  found_at-IsFirstIn k c cs found others (inl (e, h)) (inr (i, p, m, f, at, g)) = inr (
    suc i,
    p,
    m,
    rw (e, f) (ap (λ j. some (j ∷ p)) (omega arith)),
    at,
    first-append_none (values c) (values_in cs) h ∙ g,
  )

  mutual
    unfolding tree_node_find find_in values values_in first node_at

    pub tree_node_find-IsFirst : (n : Node A) → IsFirst (tree_node_find comparator n sought) n
    tree_node_find-IsFirst (node a cs) = elim (Bool-cases (comparator a sought)) [
      | inl h ↦ inr ([], node a cs, rw h refl, refl, rw h refl)
      | inr h ↦ elim (find_in-IsFirstIn 0 cs) [
        | inl (e, f) ↦ inl (rw h e, rw h f)
        | inr (i, p, m, e, at, f) ↦
            inr (i ∷ p, m, rw h (e ∙ ap (λ j. some (j ∷ p)) (omega arith)), at, rw h f)
      ]
    ]

    find_in-IsFirstIn : (k : ℕ) (cs : Nodes A) → IsFirstIn k (find_in comparator k cs sought) cs
    find_in-IsFirstIn k nil = inl (refl, refl)
    find_in-IsFirstIn k (cons c cs) =
        found_at-IsFirstIn k c cs _ _ (tree_node_find-IsFirst c) (find_in-IsFirstIn (suc k) cs)

  pub tree_find-root :
      (t : Tree A) (r : Node A)
      → t.root ≡ some r
      → tree_find comparator t sought ≡ some (tree_node_find comparator r sought)
  unfolding tree_find
  tree_find-root t r e = rw e refl

  -- In a tree with a root, `tree_find` returns a pointer to a node whose value is the first that the
  -- comparator accepts among the values of all nodes, each before those below it, or NULL if it accepts none.
  pub tree_find-IsFirst :
      (t : Tree A) (r : Node A)
      → t.root ≡ some r
      → (found : Option Place) × (tree_find comparator t sought ≡ some found) × IsFirst found r
  tree_find-IsFirst t r e =
      (tree_node_find comparator r sought, tree_find-root t r e, tree_node_find-IsFirst r)
