-- ===== src/Vfs/Find/Attached.antt =====
-- What `vfs_find_tree` of src/vfs.c does with a last element that is not cached.
use fs_playground.Base.{
  ℕ, zero, suc, ◌+◌, ◌≤◌, ◌<◌, ◌≡◌, refl, ◌∙◌, false, Option, none, some, arith, lt→ltb, CString,
  bytes_eq, bytes_eq_refl, length, ℤ, pos,
}
use fs_playground.Vfs.State.{Ptr, VnodeType, Vnode, VfsNode, Env, Store}
use fs_playground.Vfs.Run.{
  ok, check, deref, call, allocated, load_vnode, modify_node, modify_vnode, store_node, store_vnode,
  alloc_node, alloc_vnode, put,
}
use fs_playground.Vfs.Loads.{load_node_ok, load_vnode_ok, ops_of_ok}
use fs_playground.Vfs.Node.{node_create}
use fs_playground.Vfs.Find.{Finder, element, dotdot, find_child, attach, lookup, descend, find_tree}
use fs_playground.Vfs.Find.Cached.{Leads, InDir, hit, last, walk-Leads, find_tree-Cached}

module _ {D : Type 0} (s : Store D) where
  modify_node_ok :
      (u : Store D) (a : ℕ) (n : VfsNode) (f : VfsNode → VfsNode)
      → u.nodes a ≡ some n
      → modify_node (some a) f u ≡ ok tt (record u { nodes = put u.nodes a (some (f n)) })
  unfolding modify_node store_node
  modify_node_ok u a n f h = rw (load_node_ok u a n h) refl

  modify_vnode_ok :
      (u : Store D) (a : ℕ) (v : Vnode) (f : Vnode → Vnode)
      → u.vnodes a ≡ some v
      → modify_vnode (some a) f u ≡ ok tt (record u { vnodes = put u.vnodes a (some (f v)) })
  unfolding modify_vnode store_vnode
  modify_vnode_ok u a v f h = rw (load_vnode_ok u a v h) refl

  -- None of the `k` siblings in the list at `p` has the name `e`.
  pub data Unlisted : ℕ → Ptr → CString → Type 0 where
    end : {e : CString} → Unlisted 0 none e
    other :
        {e : CString} {k : ℕ} (i : ℕ) (n : VfsNode)
        → s.nodes i ≡ some n
        → bytes_eq n.name e ≡ false
        → Unlisted k n.cdr e
        → Unlisted (suc k) (some i) e

  find_child-Unlisted :
      {k : ℕ} {p : Ptr} {e : CString} (fuel : ℕ)
      → k < fuel
      → Unlisted k p e
      → find_child fuel p e s ≡ ok none s
  unfolding find_child
  find_child-Unlisted zero lt l = absurd (omega arith)
  find_child-Unlisted (suc fuel) lt end = refl
  find_child-Unlisted (suc fuel) lt (other i n h e l) =
      rw (load_node_ok s i n h) (rw e (find_child-Unlisted fuel (omega arith) l))

  -- The directory at `a` has no cached child of the name `e`, and its driver finds the vnode `made`
  -- under that name, going from its state in `s` to `d`.
  pub record Supplies (env : Env D) (a : ℕ) (e : CString) (made : Vnode) (d : D) : Type 0 where
    pub node : VfsNode
    pub at_node : s.nodes a ≡ some node
    pub node_old : a < s.next
    pub vnode : ℕ
    pub of_node : node.vnode ≡ some vnode
    pub content : Vnode
    pub at_vnode : s.vnodes vnode ≡ some content
    pub vnode_old : vnode < s.next
    pub is_directory : content.type ≡ VnodeType.dir
    pub siblings : ℕ
    pub few : siblings ≤ s.next
    pub unlisted : Unlisted siblings node.child e
    pub table : ℕ
    pub op : content.op ≡ some table
    pub find : Vnode → CString → D → (ℤ × Option Vnode) × D
    pub finds : (env.ops table).find ≡ some find
    pub answer : find content e s.driver ≡ ((pos 0, some made), d)
    pub fits : length e < 256

  module _ {env : Env D} {a : ℕ} {e : CString} {made : Vnode} {d : D}
      (p : Supplies env a e made d) where
    -- The new tree node, for the new vnode at the first free address.
    abbrev pub new_address : ℕ
    new_address = s.next + 1

    abbrev pub new_node : VfsNode
    new_node = record {
      name = e;
      vnode = some s.next;
      real_vnode = none;
      link = none;
      ismount = false;
      parent = some a;
      child = none;
      cdr = p.node.child;
    }

    abbrev pub new_vnode : Vnode
    new_vnode = record made { refcount = 0; tree_node = some new_address }

    -- The store after the element was attached.
    pub record IsAttached (t : Store D) : Type 0 where
      pub node_here : t.nodes new_address ≡ some new_node
      pub vnode_here : t.vnodes s.next ≡ some new_vnode
      pub parent_here : t.nodes a ≡ some (record p.node { child = some new_address })
      pub parent_vnode : t.vnodes p.vnode ≡ some p.content
      pub driver_called : t.driver ≡ d
      pub next_here : t.next ≡ s.next + 2

    -- The stores on the way: with the new vnode, with its bare tree node, and with the node filled.
    abbrev with_made : Store D
    with_made = record s {
      vnodes = put s.vnodes s.next (some made);
      next = new_address;
      driver = d;
    }

    abbrev with_bare : Store D
    with_bare = record with_made {
      nodes = put s.nodes new_address (some (record new_node { parent = none; cdr = none }));
      vnodes = put with_made.vnodes s.next (some new_vnode);
      next = new_address + 1;
    }

    abbrev with_filled : Store D
    with_filled = record with_bare { nodes = put with_bare.nodes new_address (some new_node) }

    abbrev with_attached : Store D
    with_attached = record with_filled {
      nodes = put with_filled.nodes a (some (record p.node { child = some new_address }));
    }

    create_run : node_create e (some s.next) with_made ≡ ok (some new_address) with_bare
    unfolding node_create alloc_node check
    create_run = rw (lt→ltb _ _ p.fits) (
        rw
          (modify_vnode_ok (record with_made { nodes = with_bare.nodes; next = new_address + 1 })
            s.next made (λ v. record v { refcount = 0; tree_node = some new_address })
            (ground arith))
          refl)

    attach_run :
        (rec : Finder D)
        → attach rec (some a) e none (some s.next) with_made
          ≡ ok (pos 0, some new_address) with_attached
    unfolding attach
    attach_run rec =
        let in_bare : with_bare.nodes a ≡ some p.node = ground (arith, p.at_node, p.node_old) in
        let bare : with_bare.nodes new_address
            ≡ some (record new_node { parent = none; cdr = none }) =
          ground arith in
        let in_filled : with_filled.nodes a ≡ some p.node = ground (arith, in_bare, p.node_old) in
        rw create_run (
          rw (load_node_ok with_bare a p.node in_bare) (
            rw
              (modify_node_ok with_bare new_address (record new_node { parent = none; cdr = none })
                (λ n. record n { parent = some a; cdr = p.node.child }) bare)
              (rw
                (modify_node_ok with_filled a p.node (λ n. record n { child = some new_address })
                  in_filled)
                refl)))

    lookup_run :
        (rec : Finder D)
        → lookup env rec (some a) p.content e none s ≡ ok (pos 0, some new_address) with_attached
    unfolding lookup deref call alloc_vnode
    lookup_run rec =
        rw (ops_of_ok env p.content s p.table p.op) (rw p.finds (rw p.answer (attach_run rec)))

    load_content : load_vnode p.node.vnode s ≡ ok p.content s
    load_content = rw p.of_node (load_vnode_ok s p.vnode p.content p.at_vnode)

    descend_run :
        (rec : Finder D)
        → descend env rec (some a) e none s ≡ ok (pos 0, some new_address) with_attached
    unfolding descend allocated check
    descend_run rec = rw (load_node_ok s a p.node p.at_node) (
        rw load_content (
          rw p.is_directory (
            rw (find_child-Unlisted (suc s.next) (omega (arith, p.few)) p.unlisted)
              (lookup_run rec))))

    with_attached-IsAttached : IsAttached with_attached
    with_attached-IsAttached = record {
      node_here = ground (arith, p.node_old);
      vnode_here = ground arith;
      parent_here = ground arith;
      parent_vnode = ground (arith, p.vnode_old, p.at_vnode);
      driver_called = refl;
      next_here = omega arith;
    }

    with_attached-InDir : InDir with_attached a e new_address
    with_attached-InDir = record {
      node = record p.node { child = some new_address };
      at_node = with_attached-IsAttached.parent_here;
      vnode = p.vnode;
      of_node = p.of_node;
      content = p.content;
      at_vnode = with_attached-IsAttached.parent_vnode;
      is_directory = p.is_directory;
      before = 0;
      few = omega arith;
      listed = hit new_address new_node with_attached-IsAttached.node_here (bytes_eq_refl e);
    }

    -- Where a path leads to one last element that a directory has not cached and that its driver
    -- finds, a lookup with fuel asks the driver once and attaches a node for the new vnode, with no
    -- references, in front of the directory's children, and a second lookup finds that node without
    -- asking the driver and leaves the store as it was.
    pub find_tree-IsAttached :
        (fuel again : ℕ) {path : CString}
        → Leads path (element e none)
        → bytes_eq e dotdot ≡ false
        → (t : Store D) × (find_tree env (suc fuel) (some a) (some path) s
            ≡ ok (pos 0, some new_address) t)
          × (IsAttached t
              × (find_tree env (suc again) (some a) (some path) t ≡ ok (pos 0, some new_address) t))
    find_tree-IsAttached fuel again l n = (
      with_attached,
      walk-Leads s env fuel (some a) l n ∙ descend_run (find_tree env fuel),
      (
        with_attached-IsAttached,
        find_tree-Cached with_attached env (suc again) (last e l n with_attached-InDir)
            (omega arith),
      ),
    )
