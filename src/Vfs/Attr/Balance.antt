-- ===== src/Vfs/Attr/Balance.antt =====
-- Reference counts across the attribute operations of src/vfs.c. The lookup is given by its result.
use mathlib.Core.Path.{fun_ext}
use fs_playground.Base.{
  ℕ, ◌+◌, ◌-◌, ◌^◌, ◌<◌, ◌≡◌, ◌≢◌, refl, ◌∙◌, ap, false, Option, none, some, arith, ◌==◌, CString,
  ℤ, pos, is_neg, eacces, einval,
}
use fs_playground.Vfs.State.{Ptr, Vnode, VfsNode, Ioctx, Stat, Owner, VnodeOps, Env, Store}
use fs_playground.Vfs.Run.{ok, fault, check, Cmd, pure, ◌>>=◌, and_then, call, op_of}
use fs_playground.Vfs.Loads.{with_vnode, load_vnode_self, ops_of_ok}
use fs_playground.Vfs.Node.{inc32, vnode_ref, vnode_unref}
use fs_playground.Vfs.Node.Refs.{InTree, vnode_ref_lem, vnode_unref-held, InTree-moved}
use fs_playground.Vfs.Find.{vfs_find}
use fs_playground.Vfs.Attr.{stat_from, vfs_statat, vfs_stat, vfs_chmod, chmod_denied}

module _ {D : Type 0} (env : Env D) (fuel : ℕ) where
  -- A lookup that found the vnode `v`, which hangs in the tree and stays there when a reference is
  -- given back: it is in use, or it has a cached child.
  pub record FoundHeld (s : Store D) (cwd : Ptr) (path : CString) (t : Store D) (a : ℕ) (v : Vnode)
      (p : ℕ) (n : VfsNode) (q : ℕ) : Type 0 where
    pub found : vfs_find env fuel cwd path s ≡ ok (pos 0, some a) t
    pub in_tree : InTree t a v p n q
    pub small : v.refcount + 1 < 2 ^ 32
    pub held : v.refcount ≡ 0 → n.child ≢ none

  -- What the driver's `stat` answers for a vnode, and the driver afterwards.
  abbrev pub stat_answer : Vnode → D → Option (Vnode → D → (ℤ × Stat) × D) → (ℤ × Option Stat) × D
  stat_answer v d none = ((einval, none), d)
  stat_answer v d (some stat) = ((((stat v d).0).0, some (((stat v d).0).1)), (stat v d).1)

  module _ {s : Store D} {cwd : Ptr} {path : CString} {t : Store D} {a : ℕ} {v : Vnode} {p : ℕ}
      {n : VfsNode} {q : ℕ} (h : FoundHeld s cwd path t a v p n q) where
    -- The vnode while the operation holds its reference.
    abbrev pub held_vnode : Vnode
    held_vnode = record v { refcount = v.refcount + 1 }

    abbrev pub held_store : Store D
    held_store = with_vnode t a held_vnode

    ref_run : vnode_ref (some a) t ≡ ok tt held_store
    ref_run =
        let e : inc32 v.refcount ≡ v.refcount + 1 = omega (arith, h.small) in
        rw (← e) (vnode_ref_lem h.in_tree)

    -- Giving the reference back after the driver went from its state in `t` to `d`.
    unref_run :
        (d : D)
        → vnode_unref env fuel (some a) (record held_store { driver = d })
          ≡ ok tt (record t { driver = d })
    unref_run d =
        let u = record held_store { driver = d } in
        let i = InTree-moved h.in_tree u held_vnode (ground arith) h.in_tree.tree refl in
        let e : v.refcount + 1 - 1 ≡ v.refcount = omega arith in
        vnode_unref-held i env fuel (omega arith) (λ g. h.held (omega arith))
        ∙ rw e (
            ap (λ (vs : ℕ → Option Vnode). ok tt (record t { vnodes = vs; driver = d }))
              (fun_ext λ b. ground (arith, h.in_tree.at_vnode)))

    stat_run :
        (o : Option (Vnode → D → (ℤ × Stat) × D))
        → and_then
            ((elim o as (λ _. Cmd D (ℤ × Option Stat)) [
              | none ↦ pure (einval, none)
              | some stat ↦ call (stat held_vnode) >>= λ r. pure (r.0, some r.1)
            ])
              held_store)
            (λ r. vnode_unref env fuel (some a) >>= λ _. pure r)
          ≡ (let r = stat_answer held_vnode t.driver o in ok r.0 (record t { driver = r.1 }))
    unfolding call
    stat_run none = rw (unref_run t.driver)
    stat_run (some stat) = rw (unref_run (stat held_vnode t.driver).1)

    stat_from-balanced :
        let r = stat_answer held_vnode t.driver (op_of env v (λ o. o.stat)) in
        stat_from env fuel cwd path s ≡ ok r.0 (record t { driver = r.1 })
    unfolding stat_from op_of
    stat_from-balanced =
        rw h.found (rw ref_run (rw load_vnode_self (stat_run (op_of env v (λ o. o.stat)))))

  module _ {s : Store D} {at : ℕ} {path : CString} {t : Store D} {a : ℕ} {v : Vnode} {p : ℕ}
      {n : VfsNode} {q : ℕ} (h : FoundHeld s (some at) path t a v p n q) where
    -- Where the lookup from a directory finds a vnode that stays in the tree when a reference is
    -- given back, vfs_statat from that directory, and vfs_stat of a user who is in it, return what
    -- the driver answers for the vnode, or -EINVAL without such a function, and leave the store as
    -- the lookup left it but for the driver's own state; vfs_statat from NULL stops the program.
    pub vfs_statat-balanced :
        (ctx : Ioctx)
        → (let r = stat_answer (held_vnode h) t.driver (op_of env v (λ o. o.stat)) in
            (vfs_statat env fuel (some at) path s ≡ ok r.0 (record t { driver = r.1 }))
            × (vfs_stat env fuel (record ctx { cwd_vnode = some at }) path s
                ≡ ok r.0 (record t { driver = r.1 }))
            × (vfs_statat env fuel none path s ≡ fault))
    unfolding vfs_statat vfs_stat check
    vfs_statat-balanced ctx = (stat_from-balanced h, stat_from-balanced h, refl)

  -- The check of `vfs_chmod` for a user who is neither the owner nor the superuser.
  chmod_denied_other :
      (ctx : Ioctx) (v : Vnode) (ops : VnodeOps D) (access : Vnode → D → (ℤ × Owner) × D)
      (s : Store D)
      → ops.access ≡ some access
      → is_neg ((access v s.driver).0).0 ≡ false
      → (((access v s.driver).0).1).uid ≢ ctx.cred.uid
      → ctx.cred.uid ≢ 0
      → chmod_denied env ctx v ops s
        ≡ ok (some eacces) (record s { driver = (access v s.driver).1 })
  unfolding chmod_denied call
  chmod_denied_other ctx v ops access s e answered other user =
      let n : ((((access v s.driver).0).1).uid == ctx.cred.uid) ≡ false = ground arith in
      let m : (ctx.cred.uid == 0) ≡ false = ground arith in rw e (rw answered (rw n (rw m refl)))

  module _ {s : Store D} (ctx : Ioctx) {path : CString} {t : Store D} {a : ℕ} {v : Vnode} {p : ℕ}
      {n : VfsNode} {q : ℕ} (h : FoundHeld s ctx.cwd_vnode path t a v p n q) {table : ℕ}
      (op : v.op ≡ some table) (mode : ℕ) where
    -- Where the lookup finds a vnode that stays in the tree when a reference is given back,
    -- vfs_chmod by a user who is neither the owner nor the superuser returns -EACCES, leaves the
    -- mode to the driver untouched, and leaves the vnode with one reference more.
    pub vfs_chmod-leak :
        (access : Vnode → D → (ℤ × Owner) × D)
        → (env.ops table).access ≡ some access
        → is_neg ((access (held_vnode h) t.driver).0).0 ≡ false
        → (((access (held_vnode h) t.driver).0).1).uid ≢ ctx.cred.uid
        → ctx.cred.uid ≢ 0
        → vfs_chmod env fuel ctx path mode s
          ≡ ok eacces (record (held_store h) { driver = (access (held_vnode h) t.driver).1 })
    unfolding vfs_chmod
    vfs_chmod-leak access e answered other user = rw h.found (
        rw (ref_run h) (
          rw load_vnode_self (
            rw (ops_of_ok env (held_vnode h) (held_store h) table op) (
              rw (
                chmod_denied_other ctx (held_vnode h) (env.ops table) access (held_store h) e
                  answered other user)))))
