-- ===== src/Vfs/Find/Frame.antt =====
-- What path lookup of src/vfs.c leaves alone.
use fs_playground.Base.{ℕ, zero, suc, Option, none, some, CString, bytes_eq, length}
use fs_playground.Vfs.State.{Ptr, Vnode, Env, Store}
use fs_playground.Vfs.Run.{Cmd}
use fs_playground.Vfs.Keeps.{
  Ends, ends, starved, bind, ret, branch, on_option, check-Keeps, deref-Keeps, allocated-Keeps,
  load_node-Keeps, load_vnode-Keeps, ops_of-Keeps,
}
use fs_playground.Vfs.Find.{
  Found, Finder, dot, dotdot, given, Walk, here, element, take_element, skip_dots, find_child,
  attach, follow, lookup, descend, walk, start, find_tree,
}
use fs_playground.Vfs.Find.Grows.{
  Grows, Grows-refl, Stays, Fresh, G, AnyG, call-Stays, modify_node-Stays, set_child-Stays,
  alloc_vnode-Stays, node_create-Stays,
}

module _ {D : Type 0} where
  module _ (s₀ : Store D) where
    module _ (rec : Finder D)
        (rec-Stays : (p : Ptr) (path : Option CString) → Stays s₀ (AnyG s₀) (rec p path)) where
      attach-Stays :
          (root : Ptr) (e : CString) (rest : Option CString) (c : Ptr)
          → Fresh s₀ c
          → Stays s₀ (AnyG s₀) (attach rec root e rest c)
      unfolding attach
      attach-Stays root e rest c h = bind (G s₀) (node_create-Stays s₀ e c h) λ child f.
          bind (G s₀) (load_node-Keeps (G s₀) root) λ parent _.
            bind (G s₀) (modify_node-Stays s₀ child _ f) λ _ _.
              bind (G s₀) (set_child-Stays s₀ root child)
                λ _ _. on_option (G s₀) rest (ret (G s₀) _ tt) λ path. rec-Stays child (some path)

      follow-Stays :
          (env : Env D) (root : Ptr) (e path : CString) (c : Ptr)
          → Fresh s₀ c
          → Stays s₀ (AnyG s₀) (follow env rec root e path c)
      unfolding follow
      follow-Stays env root e path c h = bind (G s₀) (load_vnode-Keeps (G s₀) c) λ cv _.
          bind (G s₀) (ops_of-Keeps (G s₀) env cv) λ ops _.
            bind (G s₀) (check-Keeps (G s₀) _) λ _ _.
              bind (G s₀) (node_create-Stays s₀ e c h) λ _ _.
                bind (G s₀) (load_vnode-Keeps (G s₀) c) λ cv' _.
                  bind (G s₀) (deref-Keeps (G s₀) ops.readlink) λ readlink _.
                    bind (G s₀) (call-Stays s₀ (readlink cv')) λ r _.
                      branch (G s₀) _ (ret (G s₀) _ tt) (
                        bind (G s₀) (check-Keeps (G s₀) _) λ _ _.
                          bind (G s₀) (load_node-Keeps (G s₀) root) λ node _.
                            bind (G s₀) (rec-Stays _ _) λ r' _. branch (G s₀) _ (ret (G s₀) _ tt) (
                              bind (G s₀) (rec-Stays r'.1 (some path))
                                λ r'' _. branch (G s₀) _ (ret (G s₀) _ tt) (ret (G s₀) _ tt)))

      lookup-Stays :
          (env : Env D) (root : Ptr) (vn : Vnode) (e : CString) (rest : Option CString)
          → Stays s₀ (AnyG s₀) (lookup env rec root vn e rest)
      unfolding lookup
      lookup-Stays env root vn e rest = bind (G s₀) (ops_of-Keeps (G s₀) env vn) λ ops _.
          bind (G s₀) (deref-Keeps (G s₀) ops.find) λ find _.
            bind (G s₀) (call-Stays s₀ (find vn e)) λ r _. branch (G s₀) _ (ret (G s₀) _ tt) (
              bind (G s₀) (deref-Keeps (G s₀) r.1) λ content _.
                bind (G s₀) (alloc_vnode-Stays s₀ content) λ c f.
                  on_option (G s₀) rest (attach-Stays root e none c f) λ path.
                    branch (G s₀) _ (follow-Stays env root e path c f)
                      (attach-Stays root e (some path) c f))

      find_child-Stays : (k : ℕ) (it : Ptr) (e : CString) → Stays s₀ (AnyG s₀) (find_child k it e)
      unfolding find_child
      find_child-Stays zero it e = record { from = λ s g. starved }
      find_child-Stays (suc k) none e = record { from = λ s g. ends (g, tt) }
      find_child-Stays (suc k) (some i) e = record {
        from = λ s g.
            (bind (G s₀) (load_node-Keeps (G s₀) (some i))
                λ n _. branch (G s₀) _ (ret (G s₀) (some i) tt) (find_child-Stays k n.cdr e)).from
              s g;
      }

      descend-Stays :
          (env : Env D) (root : Ptr) (e : CString) (rest : Option CString)
          → Stays s₀ (AnyG s₀) (descend env rec root e rest)
      unfolding descend
      descend-Stays env root e rest = bind (G s₀) (load_node-Keeps (G s₀) root) λ node _.
          bind (G s₀) (load_vnode-Keeps (G s₀) node.vnode) λ vn _.
            bind (G s₀) (check-Keeps (G s₀) _) λ _ _.
              branch (G s₀) _
                (bind (G s₀) (allocated-Keeps (G s₀)) λ fuel _.
                  bind (G s₀) (find_child-Stays (suc fuel) node.child e) λ hit _.
                    on_option (G s₀) hit (lookup-Stays env root vn e rest) λ it.
                      on_option (G s₀) rest (ret (G s₀) _ tt)
                        λ path. rec-Stays (some it) (some path))
                (ret (G s₀) _ tt)

      take_element-Stays : (path : CString) → Stays s₀ (AnyG s₀) (take_element path)
      unfolding take_element
      take_element-Stays path = bind (G s₀) (check-Keeps (G s₀) _) λ _ _. ret (G s₀) _ tt

      skip_dots-Stays :
          (dots : CString) (k : ℕ) (e : CString) (rest : Option CString)
          → Stays s₀ (AnyG s₀) (skip_dots dots k e rest)
      unfolding skip_dots
      skip_dots-Stays dots zero e rest = record { from = λ s g. starved }
      skip_dots-Stays dots (suc k) e rest = record {
        from = λ s g.
            (branch (G s₀) (bytes_eq e dots)
                (on_option (G s₀) rest (ret (G s₀) here tt) λ path.
                  bind (G s₀) (take_element-Stays path) λ r _. skip_dots-Stays dots k r.0 r.1)
                (ret (G s₀) (element e rest) tt)).from
              s g;
      }

      on_walk :
          (w : Walk) {m : Cmd D Found} {k : CString → Option CString → Cmd D Found}
          → Stays s₀ (AnyG s₀) m
          → ((e : CString) (rest : Option CString) → Stays s₀ (AnyG s₀) (k e rest))
          → Stays s₀ (AnyG s₀) (elim w [ here ↦ m | element e rest ↦ k e rest ])
      on_walk here h g = h
      on_walk (element e rest) h g = g e rest

      walk-Stays :
          (env : Env D) (root : Ptr) (path : CString) → Stays s₀ (AnyG s₀) (walk env rec root path)
      unfolding walk
      walk-Stays env root path = bind (G s₀) (take_element-Stays path) λ r _.
          bind (G s₀) (skip_dots-Stays dot (suc (length path)) r.0 r.1) λ w _.
            on_walk w (ret (G s₀) _ tt) λ e rest. branch (G s₀) _ (descend-Stays env root e rest) (
              bind (G s₀) (load_node-Keeps (G s₀) root) λ node _.
                on_option (G s₀) node.parent
                  (bind (G s₀) (skip_dots-Stays dotdot (suc (length path)) e rest) λ w' _.
                    on_walk w' (ret (G s₀) _ tt) λ e' rest'. descend-Stays env root e' rest')
                  λ q. rec-Stays (some q) rest)

      start-Stays :
          (env : Env D) (root : Ptr) (path : Option CString)
          → Stays s₀ (AnyG s₀) (start env rec root path)
      unfolding start
      start-Stays env root none = ret (G s₀) _ tt
      start-Stays env root (some path) = walk-Stays env root path

    find_tree-Stays :
        (env : Env D) (k : ℕ) (root : Ptr) (path : Option CString)
        → Stays s₀ (AnyG s₀) (find_tree env k root path)
    unfolding find_tree
    find_tree-Stays env zero root path = record { from = λ s g. starved }
    find_tree-Stays env (suc k) root path = record {
      from = λ s g.
          (start-Stays (find_tree env k) (find_tree-Stays env k) env root (given path)).from s g;
    }

  -- A path lookup from any node that ends normally, links and error codes included, frees and
  -- changes no vnode that was there, its reference count included, changes a tree node that was
  -- there in its first child alone, and leaves the tables of registered classes and mounts alone.
  pub find_tree-Grows :
      (env : Env D) (fuel : ℕ) (root : Ptr) (path : Option CString) (s : Store D)
      → Ends (λ _ t. Grows s t × Unit {0}) (find_tree env fuel root path s)
  find_tree-Grows env fuel root path s =
      (find_tree-Stays s env fuel root path).from s (Grows-refl s)
