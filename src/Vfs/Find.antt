-- ===== src/Vfs/Find.antt =====
-- Path lookup of src/vfs.c: `vfs_find_tree` over the cached tree, the driver's `find` for what is
-- not cached, and `vfs_find_at` and `vfs_find` above it. A result is the `int` that is returned and
-- the pointer that is stored through the last argument. One round of fuel is one call of
-- `vfs_find_tree`; symbolic links can make the C code recur for ever.
pub mod Grows
pub mod Frame
pub mod Cached
pub mod Attached
use fs_playground.Base.{
  ℕ, zero, suc, ◌+◌, Bool, true, false, not, ◌&&◌, Option, none, some, List, [], ◌∷◌, ◌==◌, ltb,
  if◌then◌else◌, CString, bytes_eq, length, ℤ, pos, is_zero, is_neg, enoent,
}
use fs_playground.PathName.{slash, path_element, skip_slashes}
use fs_playground.Vfs.State.{Ptr, VnodeType, Vnode, VfsNode, Env, Store}
use fs_playground.Vfs.Run.{
  Cmd, pure, ◌>>=◌, ◌>>◌, out_of_fuel, check, deref, allocated, call, load_node, load_vnode,
  modify_node, alloc_vnode, ops_of, is_some, is_null,
}
use fs_playground.Vfs.Node.{node_create}

abbrev pub Found : Type 0
Found = ℤ × Ptr

abbrev pub dot : CString
dot = b'.' ∷ []

abbrev pub dotdot : CString
dotdot = b'.' ∷ b'.' ∷ []

-- The tree node `vfs_root_node`.
abbrev pub root_node : Ptr
root_node = some 0

abbrev pub is_dir : VnodeType → Bool
is_dir VnodeType.dir = true
is_dir _ = false

abbrev pub is_lnk : VnodeType → Bool
is_lnk VnodeType.lnk = true
is_lnk _ = false

-- A path that is NULL or empty refers to the node itself.
abbrev pub given : Option CString → Option CString
given none = none
given (some []) = none
given (some (c ∷ cs)) = some (c ∷ cs)

-- Where the loops over "." and ".." leave the walk: at its end, or before an element.
pub data Walk : Type 0 where
  here : Walk
  element : CString → Option CString → Walk

-- The recursive calls, as a parameter.
abbrev pub Finder : Type 0 → Type 0
Finder D = Ptr → Option CString → Cmd D Found

module _ {D : Type 0} where
  -- `vfs_path_element` into the 256 bytes of `path_element`.
  unfoldable pub take_element : CString → Cmd D (CString × Option CString)
  take_element path = do let r = path_element path; check (ltb (length r.0) 256); pure r

  -- `while (!strcmp(path_element, dots))`, with one round for each byte of the path at most.
  skip_dots : CString → ℕ → CString → Option CString → Cmd D Walk
  skip_dots dots zero e rest s = out_of_fuel
  skip_dots dots (suc k) e rest s =
      (if bytes_eq e dots
          then elim rest [
            | none ↦ pure here
            | some path ↦ do (e', rest') ← take_element path; skip_dots dots k e' rest'
          ]
          else pure (element e rest))
        s

  -- The loop over the children that are cached.
  find_child : ℕ → Ptr → CString → Cmd D Ptr
  find_child zero it e s = out_of_fuel
  find_child (suc k) none e s = pure none s
  find_child (suc k) (some i) e s =
      (do n ← load_node (some i); if bytes_eq n.name e then pure (some i) else find_child k n.cdr e)
        s

  -- Attach a new node for the vnode in front of the children, and go on.
  attach : Finder D → Ptr → CString → Option CString → Ptr → Cmd D Found
  attach rec root e rest child_vnode = do
    child ← node_create e child_vnode
    parent ← load_node root
    modify_node child (λ n. record n { parent = root; cdr = parent.child })
    modify_node root (λ n. record n { child = child })
    elim rest [ none ↦ pure (pos 0, child) | some path ↦ rec child (some path) ]

  -- Behind a link the walk goes on where the link leads, seen from the parent of the node that the
  -- link was looked up in. The link's own tree node is not attached.
  follow : Env D → Finder D → Ptr → CString → CString → Ptr → Cmd D Found
  follow env rec root e path child_vnode = do
    cv ← load_vnode child_vnode
    ops ← ops_of env cv
    check (is_some ops.readlink)
    node_create e child_vnode
    cv' ← load_vnode child_vnode
    readlink ← deref ops.readlink
    (res, linkbuf) ← call (readlink cv')
    if is_neg res then pure (res, none) else do
      check (ltb (length linkbuf) 1024)
      node ← load_node root
      (res', link_node) ←
          rec (if is_some node.parent then node.parent else root_node) (some linkbuf)
      if is_neg res' then pure (res', none) else do
        (res'', found) ← rec link_node (some path)
        if is_neg res'' then pure (res'', none) else pure (pos 0, found)

  -- Nothing is cached: ask the file system.
  lookup : Env D → Finder D → Ptr → Vnode → CString → Option CString → Cmd D Found
  unfolding attach follow
  lookup env rec root vn e rest = do
    ops ← ops_of env vn
    find ← deref ops.find
    (res, child) ← call (find vn e)
    if not (is_zero res) then pure (res, none) else do
      content ← deref child
      child_vnode ← alloc_vnode content
      elim rest [
        | none ↦ attach rec root e none child_vnode
        | some path ↦
            if is_lnk content.type
            then follow env rec root e path child_vnode
            else attach rec root e (some path) child_vnode
      ]

  -- One element below a node.
  pub descend : Env D → Finder D → Ptr → CString → Option CString → Cmd D Found
  unfolding lookup find_child
  descend env rec root e rest = do
    node ← load_node root
    vn ← load_vnode node.vnode
    check (not (is_lnk vn.type))
    if is_dir vn.type
        then (do
          fuel ← allocated
          hit ← find_child (suc fuel) node.child e
          elim hit [
            | some it ↦ elim rest [
              | none ↦ pure (pos 0, some it)
              | some path ↦ rec (some it) (some path)
            ]
            | none ↦ lookup env rec root vn e rest
          ])
        else pure (enoent, none)

  -- The dots and the element behind them, from a node.
  walk : Env D → Finder D → Ptr → CString → Cmd D Found
  unfolding take_element skip_dots descend
  walk env rec root path = do
    (e₀, rest₀) ← take_element path
    w ← skip_dots dot (suc (length path)) e₀ rest₀
    elim w [
      | here ↦ pure (pos 0, root)
      | element e rest ↦ if not (bytes_eq e dotdot) then descend env rec root e rest else do
        node ← load_node root
        elim node.parent [
          | some q ↦ rec (some q) rest
          | none ↦ do
            w' ← skip_dots dotdot (suc (length path)) e rest
            elim w' [ here ↦ pure (pos 0, root) | element e' rest' ↦ descend env rec root e' rest' ]
        ]
    ]

  start : Env D → Finder D → Ptr → Option CString → Cmd D Found
  unfolding walk
  start env rec root none = pure (pos 0, root)
  start env rec root (some path) = walk env rec root path

  module _ (env : Env D) where
    unfoldable pub find_tree : ℕ → Ptr → Option CString → Cmd D Found
    unfolding start
    find_tree zero root path s = out_of_fuel
    find_tree (suc k) root path s = start env (find_tree k) root (given path) s

    -- From a vnode, or from the root for NULL: the vnode of the node that is found.
    unfoldable pub vfs_find_at : ℕ → Ptr → CString → Cmd D Found
    unfolding find_tree
    vfs_find_at fuel root_vnode path = do
      root ← load_node root_node
      if is_null root_vnode && is_null root.vnode then pure (enoent, none) else do
        base ← elim root_vnode [
          | none ↦ pure root_node
          | some p ↦ do v ← load_vnode (some p); check (is_some v.tree_node); pure v.tree_node
        ]
        (res, found) ← find_tree fuel base (some path)
        if not (is_zero res)
            then pure (res, none)
            else do node ← load_node found; pure (pos 0, node.vnode)

    unfoldable pub vfs_find : ℕ → Ptr → CString → Cmd D Found
    unfolding vfs_find_at
    vfs_find fuel cwd_vnode [] = vfs_find_at fuel cwd_vnode []
    vfs_find fuel cwd_vnode (c ∷ cs) =
        if c == slash
        then vfs_find_at fuel none (skip_slashes cs)
        else vfs_find_at fuel cwd_vnode (c ∷ cs)
