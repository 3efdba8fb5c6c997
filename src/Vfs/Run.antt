-- ===== src/Vfs/Run.antt =====
-- Commands over the store of the VFS.
use fs_playground.Base.{ℕ, ◌+◌, Bool, true, false, not, Option, none, some, ◌==◌, if◌then◌else◌}
use fs_playground.Vfs.State.{Ptr, Vnode, VfsNode, VnodeOps, Env, Store}
pub use fs_playground.Command.{Run, ok, fault, out_of_fuel}
unfoldable pub use fs_playground.Command.{Program, pure, and_then, ◌>>=◌, ◌>>◌, check, stop, deref}

abbrev pub Cmd : Type 0 → Type 0 → Type 0
Cmd D A = Program (Store D) A

-- The heap with the contents of one address changed; `none` gives the address back.
abbrev pub put {ℓ} : {A : Type ℓ} → (ℕ → Option A) → ℕ → Option A → ℕ → Option A
put h a c b = if b == a then c else h b

module _ {D : Type 0} where
  -- The number of addresses handed out so far bounds the length of every list on the heap.
  unfoldable pub allocated : Cmd D ℕ
  allocated s = ok s.next s

  -- A call of a driver's function.
  unfoldable pub call : {A : Type 0} → (D → A × D) → Cmd D A
  call f s = let r = f s.driver in ok r.0 (record s { driver = r.1 })

  unfoldable pub load_node : Ptr → Cmd D VfsNode
  load_node none s = fault
  load_node (some a) s = deref (s.nodes a) s

  unfoldable pub load_vnode : Ptr → Cmd D Vnode
  load_vnode none s = fault
  load_vnode (some a) s = deref (s.vnodes a) s

  unfoldable pub store_node : Ptr → VfsNode → Cmd D (Unit {0})
  store_node none n s = fault
  store_node (some a) n s = ok tt (record s { nodes = put s.nodes a (some n) })

  unfoldable pub store_vnode : Ptr → Vnode → Cmd D (Unit {0})
  store_vnode none n s = fault
  store_vnode (some a) n s = ok tt (record s { vnodes = put s.vnodes a (some n) })

  -- A read and a write of the same object.
  unfoldable pub modify_node : Ptr → (VfsNode → VfsNode) → Cmd D (Unit {0})
  unfolding load_node store_node
  modify_node p f = do n ← load_node p; store_node p (f n)

  unfoldable pub modify_vnode : Ptr → (Vnode → Vnode) → Cmd D (Unit {0})
  unfolding load_vnode store_vnode
  modify_vnode p f = do n ← load_vnode p; store_vnode p (f n)

  unfoldable pub free_node : Ptr → Cmd D (Unit {0})
  free_node none s = fault
  free_node (some a) s = ok tt (record s { nodes = put s.nodes a none })

  unfoldable pub free_vnode : Ptr → Cmd D (Unit {0})
  free_vnode none s = fault
  free_vnode (some a) s = ok tt (record s { vnodes = put s.vnodes a none })

  unfoldable pub alloc_node : VfsNode → Cmd D Ptr
  alloc_node n s =
      ok (some s.next) (record s { nodes = put s.nodes s.next (some n); next = s.next + 1 })

  unfoldable pub alloc_vnode : Vnode → Cmd D Ptr
  alloc_vnode n s =
      ok (some s.next) (record s { vnodes = put s.vnodes s.next (some n); next = s.next + 1 })

  -- `vn->op`, which must not be NULL.
  unfoldable pub ops_of : Env D → Vnode → Cmd D (VnodeOps D)
  unfolding deref
  ops_of env vn = do t ← deref vn.op; pure (env.ops t)

  -- A function of the vnode's table, where both are there.
  unfoldable pub op_of : {F : Type 0} → Env D → Vnode → (VnodeOps D → Option F) → Option F
  op_of env vn field = elim vn.op [ none ↦ none | some t ↦ field (env.ops t) ]

abbrev pub is_some {ℓ} : {A : Type ℓ} → Option A → Bool
is_some none = false
is_some (some a) = true

abbrev pub is_null {ℓ} : {A : Type ℓ} → Option A → Bool
is_null o = not (is_some o)

abbrev pub ptr_eq : Ptr → Ptr → Bool
ptr_eq none none = true
ptr_eq none (some b) = false
ptr_eq (some a) none = false
ptr_eq (some a) (some b) = a == b
