-- ===== src/Vfs/Node.antt =====
-- Vnodes and tree nodes: src/node.c, and the parts of src/vfs.c that create, free and name a tree
-- node. Freeing a vnode may free its ancestors, and runs on fuel: one round for each vnode freed.
pub mod Refs
use fs_playground.Base.{
  ℕ, zero, suc, ◌+◌, ◌-◌, ◌%◌, ◌^◌, Bool, true, false, not, ◌&&◌, Option, none, some, List, [], ◌∷◌,
  ◌++◌, ◌==◌, ltb, if◌then◌else◌, CString, length, ℤ,
}
use fs_playground.Vfs.State.{Ptr, Vnode, VfsNode, Env, Store}
use fs_playground.Vfs.Run.{
  Cmd, pure, ◌>>=◌, ◌>>◌, out_of_fuel, check, stop, allocated, call, load_node, load_vnode,
  store_vnode, modify_node, modify_vnode, free_node, free_vnode, alloc_node, ops_of, is_some,
  is_null, ptr_eq,
}

-- `++` on the `uint32_t` reference count.
abbrev pub inc32 : ℕ → ℕ
inc32 n = (n + 1) % 2 ^ 32

-- The names on the way to the root, joined by slashes.
unfoldable pub join_names : List CString → CString
join_names [] = []
join_names (n ∷ []) = n
join_names (n ∷ m ∷ ns) = n ++ (b'/' ∷ join_names (m ∷ ns))

module _ {D : Type 0} where
  -- The walk to the root with `bstp` places left; the names found so far come last.
  unfoldable pub backstack : ℕ → Ptr → List CString → Cmd D (List CString)
  backstack bstp none names = pure names
  backstack zero (some p) names = stop
  backstack (suc bstp) (some p) names = do
    n ← load_node (some p)
    backstack bstp n.parent (n.name ∷ names)

  -- A vnode with no tree node gets the text that `sprintf` makes of its address.
  unfoldable pub vnode_path : CString → Vnode → Cmd D CString
  unfolding join_names backstack
  vnode_path unknown vn = elim vn.tree_node [
    | none ↦ pure unknown
    | some p ↦ do names ← backstack 10 (some p) []; pure (join_names names)
  ]

  unfoldable pub node_create : CString → Ptr → Cmd D Ptr
  node_create name vn = do
    check (is_some vn)
    check (ltb (length name) 256)
    p ← alloc_node (record {
      name = name;
      vnode = vn;
      real_vnode = none;
      link = none;
      ismount = false;
      parent = none;
      child = none;
      cdr = none;
    })
    modify_vnode vn (λ v. record v { refcount = 0; tree_node = p })
    pure p

  unfoldable pub vfs_node_free : Ptr → Cmd D (Unit {0})
  vfs_node_free p = do
    node ← load_node p
    vn ← load_vnode node.vnode
    check (vn.refcount == 0)
    free_node p

  -- The loop that takes `p` out of a list of siblings, of which `it` is the next to look at.
  unlink_sibling : ℕ → Ptr → Ptr → Ptr → Cmd D (Unit {0})
  unlink_sibling zero it p next s = out_of_fuel
  unlink_sibling (suc k) none p next s = pure tt s
  unlink_sibling (suc k) (some i) p next s =
      (do
        n ← load_node (some i)
        if ptr_eq n.cdr p
            then modify_node (some i) (λ n'. record n' { cdr = next })
            else unlink_sibling k n.cdr p next)
        s

  -- `vnode_free` of the parent, where the node was its last child and nobody else uses it.
  release_parent : (Ptr → Cmd D (Unit {0})) → Ptr → Cmd D (Unit {0})
  release_parent free q = do
    parent ← load_node q
    if is_some parent.parent && is_null parent.child
        then (do
          pv ← load_vnode parent.vnode
          if pv.refcount == 0 then free parent.vnode else pure tt)
        else pure tt

  vfs_node_remove : (Ptr → Cmd D (Unit {0})) → Ptr → Cmd D (Unit {0})
  unfolding unlink_sibling release_parent vfs_node_free
  vfs_node_remove free none = pure tt
  vfs_node_remove free (some a) = do
    node ← load_node (some a)
    elim node.parent [
      | none ↦ pure tt
      | some q ↦ do
        parent ← load_node (some q)
        fuel ← allocated
        (if ptr_eq parent.child (some a)
            then modify_node (some q) (λ n. record n { child = node.cdr })
            else unlink_sibling (suc fuel) parent.child (some a) node.cdr)
        release_parent free (some q)
        vfs_node_free (some a)
    ]

  -- `vnode_unref`, given how a vnode is freed. The path is built for a message, in 1024 bytes.
  unref_by : (Ptr → Cmd D (Unit {0})) → Ptr → Cmd D (Unit {0})
  unref_by free vn = do
    v ← load_vnode vn
    path ← vnode_path [] v
    check (ltb (length path) 1024)
    node ← load_node v.tree_node
    if is_null node.parent
        then pure tt
        else (if ltb 0 v.refcount
            then (do
              store_vnode vn (record v { refcount = v.refcount - 1 })
              if v.refcount == 1 && is_null node.child then free vn else pure tt)
            else check (is_some node.child))

  module _ (env : Env D) where
    unfoldable pub vnode_free : ℕ → Ptr → Cmd D (Unit {0})
    unfolding vfs_node_remove unref_by
    vnode_free zero vn s = out_of_fuel
    vnode_free (suc k) vn s =
        (do
          v ← load_vnode vn
          ops ← ops_of env v
          check (v.refcount == 0)
          node ← load_node v.tree_node
          if node.ismount then pure tt else (do
            elim ops.destroy [ none ↦ pure tt | some destroy ↦ call (destroy v) ]
            vfs_node_remove (vnode_free k) v.tree_node
            free_vnode vn
            elim node.link [
              | none ↦ pure tt
              | some l ↦ do target ← load_node (some l); unref_by (vnode_free k) target.vnode
            ]))
          s

    unfoldable pub vnode_unref : ℕ → Ptr → Cmd D (Unit {0})
    unfolding vnode_free unref_by
    vnode_unref fuel = unref_by (vnode_free fuel)

  -- The count of a root node is left alone.
  unfoldable pub vnode_ref : Ptr → Cmd D (Unit {0})
  vnode_ref vn = do
    v ← load_vnode vn
    elim v.tree_node [
      | none ↦ store_vnode vn (record v { refcount = inc32 v.refcount })
      | some p ↦ do
        node ← load_node (some p)
        if is_null node.parent
            then pure tt
            else store_vnode vn (record v { refcount = inc32 v.refcount })
    ]
