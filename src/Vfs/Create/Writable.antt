-- ===== src/Vfs/Create/Writable.antt =====
-- What the search for a directory to write to has checked, in `vfs_creat`, `vfs_mkdir` and
-- `vfs_symlink` of src/vfs.c.
use fs_playground.Access.{w_ok}
use fs_playground.Base.{
  ℕ, ◌≡◌, ◌≢◌, refl, sym, ap, inl, inr, Option-cases, Bool, true, false, not, none, some, arith,
  if◌then◌else◌, CString, ℤ, is_zero, is_neg, enotdir,
}
use fs_playground.Vfs.State.{Ptr, Vnode, Ioctx, Env, Store}
use fs_playground.Vfs.Run.{Run, ok, Cmd, pure, ◌>>=◌, and_then, load_vnode, deref}
use fs_playground.Vfs.Loads.{and_then-eq-ok}
use fs_playground.Vfs.Node.{vnode_ref, vnode_unref}
use fs_playground.Vfs.Find.{is_dir}
use fs_playground.Vfs.Open.{vnode_access, resolve_link}
use fs_playground.Vfs.Open.Grants.{vnode_answer, vnode_access_lem, Allows, answer-Allows}
use fs_playground.Vfs.Create.{Parent, refused, parent, find_parent, writable_parent}

module _ {D : Type 0} (env : Env D) (ctx : Ioctx) where
  -- The vnode at `dir` is a directory, and its permissions granted writing to the user when the
  -- driver was last asked, in its state `asked`.
  pub record IsWritable (dir : Ptr) (t : Store D) : Type 0 where
    pub address : ℕ
    pub dir_here : dir ≡ some address
    pub content : Vnode
    pub at_vnode : t.vnodes address ≡ some content
    pub directory : is_dir content.type ≡ true
    pub asked : D
    pub granted : Allows env ctx.cred content w_ok asked
    pub answered : t.driver ≡ (vnode_answer env ctx.cred content w_ok asked).1

  -- A guard whose refusal is no parent.
  accepted :
      (b : Bool) (m : Cmd D Parent) (n : Cmd D Parent) (s : Store D) {dir : Ptr} {t : Store D}
      → ((u : Store D) → m s ≢ ok (parent dir) u)
      → (if b then m else n) s ≡ ok (parent dir) t
      → (b ≡ false) × (n s ≡ ok (parent dir) t)
  accepted true m n s never h = absurd (never _ h)
  accepted false m n s never h = (refl, h)

  plain_refusal : (c : ℤ) (s u : Store D) (dir : Ptr) → pure (refused c) s ≢ ok (parent dir) u
  plain_refusal c s u dir h = cc

  refusal :
      {A : Type 0} (r : Run (Store D) A) (c : ℤ) {dir : Ptr} (u : Store D)
      → and_then r (λ _. pure (refused c)) ≢ ok (parent dir) u
  refusal r c u h = let (a, s, e, k) = and_then-eq-ok r (λ _. pure (refused c)) h in cc

  -- The last steps, from a directory that is known.
  granted_write :
      (deny : ℤ → ℤ) (fuel a : ℕ) (v : Vnode) (s : Store D) {dir : Ptr} {t : Store D}
      → s.vnodes a ≡ some v
      → is_dir v.type ≡ true
      → and_then (vnode_access env ctx (some a) w_ok s) (λ granted.
        if is_neg granted
        then (vnode_unref env fuel (some a) >>= λ _. pure (refused (deny granted)))
        else pure (parent (some a)))
        ≡ ok (parent dir) t
      → IsWritable dir t
  granted_write deny fuel a v s {dir} {t} at_v kind h =
      let r = vnode_answer env ctx.cred v w_ok s.driver in
      let s' = record s { driver = r.1 } in
      let h' = rw (vnode_access_lem env ctx a v w_ok s at_v) at h in
      let (granted, last) =
        accepted (is_neg r.0) (vnode_unref env fuel (some a) >>= λ _. pure (refused (deny r.0)))
          (pure (parent (some a))) s' (refusal (vnode_unref env fuel (some a) s') (deny r.0)) h' in
      let end : s' ≡ t = ground (arith, last) in
      record {
        address = a;
        dir_here = ground (arith, last);
        content = v;
        at_vnode = ground (arith, at_v, ap (λ (u : Store D). u.vnodes a) end);
        directory = kind;
        asked = s.driver;
        granted = answer-Allows env ctx.cred v w_ok s.driver granted;
        answered = sym (ap (λ (u : Store D). u.driver) end);
      }

  -- The steps from the vnode behind a link, which may be missing.
  resolved_write :
      (deny : ℤ → ℤ) (fuel : ℕ) (p : Ptr) (s : Store D) {dir : Ptr} {t : Store D}
      → (load_vnode p >>= λ v.
            if not (is_dir v.type)
            then (vnode_unref env fuel p >>= λ _. pure (refused enotdir))
            else (vnode_access env ctx p w_ok >>= λ granted.
                if is_neg granted
                then (vnode_unref env fuel p >>= λ _. pure (refused (deny granted)))
                else pure (parent p)))
          s
        ≡ ok (parent dir) t
      → IsWritable dir t
  unfolding load_vnode deref
  resolved_write deny fuel none s h = cc
  resolved_write deny fuel (some a) s h = elim (Option-cases (s.vnodes a)) [
    | inl e ↦ cc (rw e at h)
    | inr (v, e) ↦
        let h' = rw e at h in
        let (kind, last) =
          accepted (not (is_dir v.type)) _ _ s (refusal (vnode_unref env fuel (some a) s) enotdir)
            h' in
        granted_write deny fuel a v s e (ground (arith, kind)) last
  ]

  -- If the search of vfs_creat, vfs_mkdir and vfs_symlink for the directory to write to ends in a
  -- directory, links resolved, then a vnode is there that is a directory, and its permissions
  -- granted writing to the user when the driver was asked last.
  pub writable_parent-IsWritable :
      (fuel : ℕ) (deny : ℤ → ℤ) (path : CString) (dir : Ptr) (s t : Store D)
      → writable_parent env fuel ctx deny path s ≡ ok (parent dir) t
      → IsWritable dir t
  unfolding writable_parent
  writable_parent-IsWritable fuel deny path dir s t h =
      let (r, s₁, e₁, h₁) = and_then-eq-ok (find_parent env fuel ctx path s) _ h in
      let (found, h₂) = accepted (not (is_zero r.0)) _ _ s₁ (λ u. plain_refusal r.0 s₁ u dir) h₁ in
      let (_, s₂, e₂, h₃) = and_then-eq-ok (vnode_ref r.1 s₁) _ h₂ in
      let (r', s₃, e₃, h₄) = and_then-eq-ok (resolve_link env fuel r.1 s₂) _ h₃ in
      let (resolved, h₅) = accepted (is_neg r'.0) _ _ s₃ (λ u. plain_refusal r'.0 s₃ u dir) h₄ in
      resolved_write deny fuel r'.1 s₃ h₅
