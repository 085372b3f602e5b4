-- ===== src/Trees/Count.antt =====
-- kernel/lib/tree.c: how many nodes a tree has.
use beryllium.Base.{
  ℕ, zero, suc, ◌+◌, ◌%◌, ◌^◌, ◌<◌, ◌≡◌, refl, sym, Option, none, some, [], ◌∷◌, arith,
}
use mathlib.Core.Option.{map}
use beryllium.Trees.{
  Node, node, Nodes, nil, cons, Tree, Place, children, length_of, put_last, list_merge, list_delete,
  child_at, node_at, node_in, change_at, change_in, tree_count_children, count_in,
}

module _ {ℓ κ} {A : Type ℓ} {B : Type κ} where
  -- What a result is the image of.
  pub map-some :
      (f : A → B) (o : Option A) (b : B) → map f o ≡ some b → (a : A) × (o ≡ some a) × (f a ≡ b)
  map-some f none b e = absurd (cc e)
  map-some f (some a) b e = (a, refl, cc e)

module _ {ℓ} {A : Type ℓ} where
  -- How many nodes a node has below it.
  unfoldable mutual
    pub descendants : Node A → ℕ
    descendants (node a cs) = below cs

    pub below : Nodes A → ℕ
    below nil = 0
    below (cons c cs) = suc (descendants c + below cs)

  -- Those that are not children.
  unfoldable pub deeper : Nodes A → ℕ
  deeper nil = 0
  deeper (cons c cs) = descendants c + deeper cs

  below-deeper : (cs : Nodes A) → below cs ≡ length_of cs + deeper cs
  unfolding below deeper length_of
  below-deeper nil = refl
  below-deeper (cons c cs) = omega (arith, below-deeper cs)

  mutual
    unfolding descendants tree_count_children deeper

    pub tree_count_children-descendants :
        (n : Node A) → tree_count_children n ≡ descendants n % 2 ^ 32
    tree_count_children-descendants (node a cs) =
        omega (arith, count_in-deeper (length_of cs % 2 ^ 32) cs (omega arith), below-deeper cs)

    count_in-deeper :
        (out : ℕ) (cs : Nodes A) → out < 2 ^ 32 → count_in out cs ≡ (out + deeper cs) % 2 ^ 32
    count_in-deeper out nil h = omega (arith, h)
    count_in-deeper out (cons c cs) h = omega (
      arith,
      count_in-deeper ((out + tree_count_children c) % 2 ^ 32) cs (omega arith),
      tree_count_children-descendants c,
    )

  pub below-put_last :
      (c : Node A) (cs : Nodes A) → below (put_last c cs) ≡ suc (descendants c + below cs)
  unfolding below put_last
  below-put_last c nil = refl
  below-put_last c (cons d ds) = omega (arith, below-put_last c ds)

  pub below-list_merge : (cs ds : Nodes A) → below (list_merge cs ds) ≡ below cs + below ds
  unfolding below list_merge
  below-list_merge nil ds = omega arith
  below-list_merge (cons c cs) ds = omega (arith, below-list_merge cs ds)

  pub descendants-children : (n : Node A) → descendants n ≡ below (children n)
  unfolding descendants
  descendants-children (node a cs) = refl

  pub below-list_delete :
      (cs : Nodes A) (i : ℕ) (c : Node A) (left : Nodes A)
      → child_at cs i ≡ some c
      → list_delete cs i ≡ some left
      → below cs ≡ suc (descendants c + below left)
  unfolding below child_at list_delete
  below-list_delete nil i c left e f = absurd (cc e)
  below-list_delete (cons d ds) zero c left e f =
      let same : d ≡ c = cc e in let tail : ds ≡ left = cc f in rw (same, tail) refl
  below-list_delete (cons d ds) (suc i) c left e f =
      let (ls, g, h) = map-some (cons d) (list_delete ds i) left f in
      rw (sym h, below) (omega (arith, below-list_delete ds i c ls e g))

  -- A change of a node by as many nodes as `x` and `y` differ by changes the tree by as many.
  module _ (change : Node A → Option (Node A)) (x y : ℕ) where
    mutual
      unfolding change_at node_at descendants

      pub change_at-descendants :
          (p : Place) (r s : Node A)
          → ((n m : Node A)
              → node_at p r ≡ some n
              → change n ≡ some m
              → descendants m + x ≡ descendants n + y)
          → change_at change p r ≡ some s
          → descendants s + x ≡ descendants r + y
      change_at-descendants [] r s differs e = differs r s refl e
      change_at-descendants (i ∷ p) (node a cs) s differs e =
          let (ds, f, g) = map-some (node a) (change_in change i p cs) s e in
          rw (sym g, descendants) (change_in-below i p cs ds differs f)

      change_in-below :
          (i : ℕ) (p : Place) (cs ds : Nodes A)
          → ((n m : Node A)
              → node_in i p cs ≡ some n
              → change n ≡ some m
              → descendants m + x ≡ descendants n + y)
          → change_in change i p cs ≡ some ds
          → below ds + x ≡ below cs + y
      change_in-below i p nil ds differs e = absurd (cc e)
      change_in-below zero p (cons c cs) ds differs e =
          let (d, f, g) = map-some (λ d. cons d cs) (change_at change p c) ds e in
          rw (sym g, below) (omega (arith, change_at-descendants p c d differs f))
      change_in-below (suc i) p (cons c cs) ds differs e =
          let (rest, f, g) = map-some (cons c) (change_in change i p cs) ds e in
          rw (sym g, below) (omega (arith, change_in-below i p cs rest differs f))

    -- A change that a pointer's node allows is made, and is what the pointer shows then.
    mutual
      unfolding change_at node_at

      pub change_at-some :
          (p : Place) (r n m : Node A)
          → node_at p r ≡ some n
          → change n ≡ some m
          → (s : Node A) × (change_at change p r ≡ some s) × (node_at p s ≡ some m)
      change_at-some [] r n m e f = let same : r ≡ n = cc e in (m, rw same f, refl)
      change_at-some (i ∷ p) (node a cs) n m e f =
          let (ds, g, h) = change_in-some i p cs n m e f in (node a ds, rw g refl, h)

      change_in-some :
          (i : ℕ) (p : Place) (cs : Nodes A) (n m : Node A)
          → node_in i p cs ≡ some n
          → change n ≡ some m
          → (ds : Nodes A) × (change_in change i p cs ≡ some ds) × (node_in i p ds ≡ some m)
      change_in-some i p nil n m e f = absurd (cc e)
      change_in-some zero p (cons c cs) n m e f =
          let (d, g, h) = change_at-some p c n m e f in (cons d cs, rw g refl, h)
      change_in-some (suc i) p (cons c cs) n m e f =
          let (ds, g, h) = change_in-some i p cs n m e f in (cons c ds, rw g refl, h)

  pub list_delete-some :
      (cs : Nodes A) (i : ℕ) (c : Node A)
      → child_at cs i ≡ some c
      → (left : Nodes A) × (list_delete cs i ≡ some left)
  unfolding child_at list_delete
  list_delete-some nil i c e = absurd (cc e)
  list_delete-some (cons d ds) zero c e = (ds, refl)
  list_delete-some (cons d ds) (suc i) c e =
      let (left, f) = list_delete-some ds i c e in (cons d left, rw f refl)

  -- How many nodes a tree has.
  unfoldable pub size : Tree A → ℕ
  size t = elim t.root [ none ↦ 0 | some r ↦ suc (descendants r) ]

  -- `nodes` is the number of nodes, as far as 32 bits hold it.
  abbrev pub IsCounted : Tree A → Type 0
  IsCounted t = t.nodes ≡ size t % 2 ^ 32

  -- A pointer to a node of the tree.
  abbrev pub IsAt : Tree A → Place → Node A → Type ℓ
  IsAt t p n = (r : Node A) × (t.root ≡ some r) × (node_at p r ≡ some n)
