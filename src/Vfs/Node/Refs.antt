-- ===== src/Vfs/Node/Refs.antt =====
-- Reference counts: what `vnode_ref` and `vnode_unref` of src/node.c do to a vnode in the tree.
use mathlib.Core.Path.{fun_ext}
use fs_playground.Base.{
  ℕ, zero, suc, ◌+◌, ◌-◌, ◌^◌, ◌<◌, ◌≡◌, ◌≢◌, refl, ◌∙◌, ap, inl, inr, false, ◌&&◌, Option, none,
  some, List, [], ◌∷◌, arith, ◌==◌, ltb, lt→ltb, if◌then◌else◌, CString, length, Option-cases,
}
use fs_playground.Vfs.State.{Ptr, Vnode, VfsNode, Env, Store}
use fs_playground.Vfs.Run.{
  ok, fault, Cmd, pure, ◌>>=◌, ◌>>◌, and_then, check, store_vnode, is_some, is_null,
}
use fs_playground.Vfs.Loads.{
  with_vnode, load_node_ok, load_node_fault, load_vnode_ok, store_vnode_lem, check-true,
}
use fs_playground.Vfs.Node.{
  inc32, join_names, backstack, vnode_path, unref_by, vnode_unref, vnode_ref, vnode_free,
}

module _ {D : Type 0} where
  -- A vnode `v` at `a`, whose tree node `n` at `p` hangs below another, and whose path fits the
  -- buffers of `vnode_unref`: ten names, and 1024 bytes with the zero.
  pub record InTree (s : Store D) (a : ℕ) (v : Vnode) (p : ℕ) (n : VfsNode) (q : ℕ) : Type 0 where
    pub at_vnode : s.vnodes a ≡ some v
    pub tree : v.tree_node ≡ some p
    pub at_node : s.nodes p ≡ some n
    pub below : n.parent ≡ some q
    pub names : List CString
    pub path : backstack 10 (some p) [] s ≡ ok names s
    pub fits : length (join_names names) < 1024

  -- A walk to the root reads the tree nodes alone.
  backstack_congr :
      (k : ℕ) (p : Ptr) (ns : List CString) (s t : Store D) (names : List CString)
      → t.nodes ≡ s.nodes
      → backstack k p ns s ≡ ok names s
      → backstack k p ns t ≡ ok names t
  unfolding backstack
  backstack_congr zero none ns s t names e h = ground arith
  backstack_congr (suc k) none ns s t names e h = ground arith
  backstack_congr zero (some a) ns s t names e h = cc
  backstack_congr (suc k) (some a) ns s t names e h = elim (Option-cases (s.nodes a)) [
    | inl g ↦ cc (rw (load_node_fault s a g) at h)
    | inr (n, g) ↦
        rw (load_node_ok t a n (ap (λ (f : ℕ → Option VfsNode). f a) e ∙ g))
          (backstack_congr k n.parent (n.name ∷ ns) s t names e (rw (load_node_ok s a n g) at h))
  ]

  module _ {s : Store D} {a : ℕ} {v : Vnode} {p : ℕ} {n : VfsNode} {q : ℕ}
      (i : InTree s a v p n q) where
    pub vnode_ref_lem :
        vnode_ref (some a) s ≡ ok tt (with_vnode s a (record v { refcount = inc32 v.refcount }))
    unfolding vnode_ref
    vnode_ref_lem =
        rw (load_vnode_ok s a v i.at_vnode)
          (simp i.tree (rw (load_node_ok s p n i.at_node) (simp i.below (rw store_vnode_lem))))

    path_ok : vnode_path [] v s ≡ ok (join_names i.names) s
    unfolding vnode_path
    path_ok = rw i.tree (rw i.path)

    -- The first steps of `vnode_unref`: the path is built, and the tree node is read.
    unref_by_lem :
        (free : Ptr → Cmd D (Unit {0}))
        → unref_by free (some a) s
          ≡ (if ltb 0 v.refcount
                then (store_vnode (some a) (record v { refcount = v.refcount - 1 })
                    >> (if v.refcount == 1 && is_null n.child then free (some a) else pure tt))
                else check (is_some n.child))
              s
    unfolding unref_by
    unref_by_lem free = rw (load_vnode_ok s a v i.at_vnode) (
        rw path_ok (
          rw (check-true s _ (lt→ltb _ _ i.fits))
            (rw i.tree (rw (load_node_ok s p n i.at_node) (rw i.below refl)))))

    -- Giving a reference back: the vnode stays, with one reference less, where another reference or
    -- a cached child is left.
    pub vnode_unref-held :
        (env : Env D) (fuel : ℕ)
        → 0 < v.refcount
        → (v.refcount ≡ 1 → n.child ≢ none)
        → vnode_unref env fuel (some a) s
          ≡ ok tt (with_vnode s a (record v { refcount = v.refcount - 1 }))
    unfolding vnode_unref
    vnode_unref-held env fuel pos held =
        let kept : (v.refcount == 1 && is_null n.child) ≡ false = ground (arith, held) in
        rw (unref_by_lem (vnode_free env fuel), lt→ltb _ _ pos, kept) (rw store_vnode_lem)

    -- A store with the same tree nodes, and another vnode with the same tree node.
    pub InTree-moved :
        (t : Store D) (w : Vnode)
        → t.vnodes a ≡ some w
        → w.tree_node ≡ some p
        → t.nodes ≡ s.nodes
        → InTree t a w p n q
    InTree-moved t w h e same = record {
      at_vnode = h;
      tree = e;
      at_node = ap (λ (f : ℕ → Option VfsNode). f p) same ∙ i.at_node;
      below = i.below;
      names = i.names;
      path = backstack_congr 10 (some p) [] s t i.names same i.path;
      fits = i.fits;
    }

    pub with_vnode-undo : (w : Vnode) → with_vnode (with_vnode s a w) a v ≡ s
    with_vnode-undo w =
        ap (λ (vs : ℕ → Option Vnode). record s { vnodes = vs })
          (fun_ext λ b. ground (arith, i.at_vnode))

  module _ {s : Store D} {a : ℕ} {v : Vnode} {p : ℕ} {n : VfsNode} {q : ℕ}
      (i : InTree s a v p n q) where
    -- For a vnode in the tree below the root whose path fits, whose count does not wrap, and which
    -- is in use or has a cached child, vnode_ref and then vnode_unref end normally and restore the
    -- store.
    pub unref-ref :
        (env : Env D) (fuel : ℕ)
        → v.refcount + 1 < 2 ^ 32
        → (v.refcount ≡ 0 → n.child ≢ none)
        → (vnode_ref (some a) >> vnode_unref env fuel (some a)) s ≡ ok tt s
    unref-ref env fuel small held =
        let w = record v { refcount = v.refcount + 1 } in
        let e : inc32 v.refcount ≡ v.refcount + 1 = omega arith in
        let e' : v.refcount + 1 - 1 ≡ v.refcount = omega arith in
        rw (vnode_ref_lem i) (
          rw e (
            rw
              (vnode_unref-held (InTree-moved i (with_vnode s a w) w (ground arith) i.tree refl) env
                fuel (omega arith) (λ h. held (omega arith)))
              (rw e' (ap (ok tt) (with_vnode-undo i w)))))

  -- At least `k` tree nodes stand on the way from a node to the root, the node itself included.
  abbrev pub Deep : Store D → ℕ → Ptr → Type 0
  Deep s zero p = Unit {0}
  Deep s (suc k) none = ⊥
  Deep s (suc k) (some a) = (n : VfsNode) × (s.nodes a ≡ some n) × Deep s k n.parent

  backstack_fault :
      (k : ℕ) (p : Ptr) (ns : List CString) (s : Store D)
      → Deep s (suc k) p
      → backstack k p ns s ≡ fault
  unfolding backstack
  backstack_fault k none ns s h = absurd h
  backstack_fault zero (some a) ns s h = refl
  backstack_fault (suc k) (some a) ns s (n, e, deep) =
      rw (load_node_ok s a n e) (backstack_fault k n.parent (n.name ∷ ns) s deep)

  Deep-path :
      {B : Type 0} (o : Ptr) (k : CString → Cmd D B) (s : Store D)
      → Deep s 11 o
      → and_then
          ((elim o as (λ _. Cmd D CString) [
            | none ↦ pure []
            | some p ↦ backstack 10 (some p) [] >>= λ names. pure (join_names names)
          ])
            s)
          k
        ≡ fault
  Deep-path none k s h = absurd h
  Deep-path (some p) k s h = rw (backstack_fault 10 (some p) [] s h)

  -- Vnode_unref stops the program on every vnode whose tree node is more than ten levels deep,
  -- whatever its reference count.
  pub vnode_unref-Deep :
      (env : Env D) (fuel : ℕ) (s : Store D) (a : ℕ) (v : Vnode)
      → s.vnodes a ≡ some v
      → Deep s 11 v.tree_node
      → vnode_unref env fuel (some a) s ≡ fault
  unfolding vnode_unref unref_by vnode_path
  vnode_unref-Deep env fuel s a v e deep =
      rw (load_vnode_ok s a v e) (Deep-path v.tree_node _ s deep)
