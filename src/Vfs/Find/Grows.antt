-- ===== src/Vfs/Find/Grows.antt =====
-- Stores that grew from a store `s₀`: what may be written is what was allocated since, and child
-- pointers. The rules for the primitive commands, for the tree nodes of src/vfs.c.
use fs_playground.Base.{
  ℕ, ◌+◌, ◌≤◌, ◌<◌, ◌≡◌, refl, ap, inl, inr, Option, none, some, arith, ◌==◌, CString, Bool-cases,
}
use fs_playground.Vfs.State.{Ptr, Vnode, VfsNode, Store}
use fs_playground.Vfs.Run.{
  Cmd, and_then, deref, call, load_node, store_node, modify_node, modify_vnode, alloc_node,
  alloc_vnode, put,
}
use fs_playground.Vfs.Keeps.{
  Ends, ends, faulted, Keeps, bind, ret, check-Keeps, load_node-Keeps, load_vnode-Keeps,
}
use fs_playground.Vfs.Node.{node_create}

-- The same node but for the first child.
abbrev pub SameNode : Option VfsNode → Option VfsNode → Type 0
SameNode none none = Unit {0}
SameNode none (some n) = ⊥
SameNode (some m) none = ⊥
SameNode (some m) (some n) = record m { child = n.child } ≡ n

SameNode-refl : (o : Option VfsNode) → SameNode o o
SameNode-refl none = tt
SameNode-refl (some n) = refl

SameNode-child :
    (o : Option VfsNode) (n : VfsNode) (c : Ptr)
    → SameNode o (some n)
    → SameNode o (some (record n { child = c }))
SameNode-child none n c h = h
SameNode-child (some m) n c h = ap (λ (k : VfsNode). record k { child = c }) h

module _ {D : Type 0} where
  -- `t` has every vnode of `s` unchanged, reference counts included, and every tree node unchanged
  -- but for its first child; the tables of src/fs_class.c are the same.
  pub record Grows (s t : Store D) : Type 0 where
    pub next_le : s.next ≤ t.next
    pub vnodes_same : (a : ℕ) → a < s.next → t.vnodes a ≡ s.vnodes a
    pub nodes_same : (a : ℕ) → a < s.next → SameNode (s.nodes a) (t.nodes a)
    pub fses_same : t.fses ≡ s.fses
    pub mounts_same : t.mounts ≡ s.mounts

  pub Grows-refl : (s : Store D) → Grows s s
  Grows-refl s = record {
    next_le = omega arith;
    vnodes_same = λ a h. refl;
    nodes_same = λ a h. SameNode-refl (s.nodes a);
    fses_same = refl;
    mounts_same = refl;
  }

  module _ (s₀ : Store D) where
    abbrev pub Stays : {A : Type 0} → (A → Type 0) → Cmd D A → Type 0
    Stays Q m = Keeps (Grows s₀) Q m

    -- The address of something that was not there in `s₀`.
    abbrev pub Fresh : Ptr → Type 0
    Fresh none = ⊥
    Fresh (some a) = s₀.next ≤ a

    abbrev pub G : Store D → Type 0
    G = Grows s₀

    abbrev pub AnyG : {A : Type 0} → A → Type 0
    AnyG a = Unit {0}

    pub call-Stays : {A : Type 0} (f : D → A × D) → Stays AnyG (call f)
    unfolding call
    call-Stays f = record {
      from = λ s g. ends (
        record {
          next_le = g.next_le;
          vnodes_same = g.vnodes_same;
          nodes_same = g.nodes_same;
          fses_same = g.fses_same;
          mounts_same = g.mounts_same;
        },
        tt,
      );
    }

    put-Grows :
        {s : Store D} (a : ℕ) (v : Option Vnode) (n : ℕ)
        → Grows s₀ s
        → s₀.next ≤ a
        → s.next ≤ n
        → Grows s₀ (record s { vnodes = put s.vnodes a v; next = n })
    put-Grows a v n g h h' = record {
      next_le = omega arith;
      vnodes_same = λ b lt. ground (arith, g.vnodes_same b lt);
      nodes_same = g.nodes_same;
      fses_same = g.fses_same;
      mounts_same = g.mounts_same;
    }

    put_node-Grows :
        {s : Store D} (a : ℕ) (v : Option VfsNode) (n : ℕ)
        → Grows s₀ s
        → (a < s₀.next → SameNode (s₀.nodes a) v)
        → s.next ≤ n
        → Grows s₀ (record s { nodes = put s.nodes a v; next = n })
    put_node-Grows {s} a v n g h h' = record {
      next_le = omega arith;
      vnodes_same = g.vnodes_same;
      nodes_same = λ b lt. elim (Bool-cases (b == a)) [
        | inl e ↦ let e' : b ≡ a = ground arith in rw e (rw e' (h (rw e' at lt)))
        | inr ne ↦ rw ne (g.nodes_same b lt)
      ];
      fses_same = g.fses_same;
      mounts_same = g.mounts_same;
    }

    pub alloc_vnode-Stays : (v : Vnode) → Stays Fresh (alloc_vnode v)
    unfolding alloc_vnode
    alloc_vnode-Stays v = record {
      from =
          λ s g. ends (put-Grows s.next (some v) (s.next + 1) g g.next_le (omega arith), g.next_le);
    }

    alloc_node-Stays : (n : VfsNode) → Stays Fresh (alloc_node n)
    unfolding alloc_node
    alloc_node-Stays n = record {
      from = λ s g. ends (
        put_node-Grows s.next (some n) (s.next + 1) g (λ lt. absurd (omega (arith, g.next_le)))
            (omega arith),
        g.next_le,
      );
    }

    modify_vnode-Stays : (p : Ptr) (f : Vnode → Vnode) → Fresh p → Stays AnyG (modify_vnode p f)
    unfolding modify_vnode
    modify_vnode-Stays none f h = absurd h
    modify_vnode-Stays (some a) f h =
        bind G (load_vnode-Keeps G (some a)) λ v _. record {
          from = λ s g. ends (put-Grows a (some (f v)) s.next g h (omega arith), tt);
        }

    pub modify_node-Stays :
        (p : Ptr) (f : VfsNode → VfsNode) → Fresh p → Stays AnyG (modify_node p f)
    unfolding modify_node
    modify_node-Stays none f h = absurd h
    modify_node-Stays (some a) f h = bind G (load_node-Keeps G (some a)) λ v _. record {
      from = λ s g.
          ends
            (put_node-Grows a (some (f v)) s.next g (λ lt. absurd (omega arith)) (omega arith), tt);
    }

    child_run :
        (a : ℕ) (c : Ptr) (s : Store D)
        → Grows s₀ s
        → (o : Option VfsNode) → s.nodes a ≡ o
        → Ends
            (λ _ t. Grows s₀ t × Unit {0})
            (and_then (deref o s) λ n. store_node (some a) (record n { child = c }))
    unfolding deref store_node
    child_run a c s g none e = faulted
    child_run a c s g (some n) e = ends (
      put_node-Grows a (some (record n { child = c })) s.next g
          (λ lt. SameNode-child (s₀.nodes a) n c (rw e at (g.nodes_same a lt))) (omega arith),
      tt,
    )

    pub set_child-Stays : (p c : Ptr) → Stays AnyG (modify_node p (λ n. record n { child = c }))
    unfolding modify_node load_node
    set_child-Stays none c = record { from = λ s g. faulted }
    set_child-Stays (some a) c = record { from = λ s g. child_run a c s g (s.nodes a) refl }

    pub node_create-Stays : (e : CString) (p : Ptr) → Fresh p → Stays Fresh (node_create e p)
    unfolding node_create
    node_create-Stays e p h = bind G (check-Keeps G _) λ _ _.
        bind G (check-Keeps G _) λ _ _.
          bind G (alloc_node-Stays _) λ q f. bind G (modify_vnode-Stays p _ h) λ _ _. ret G q f
