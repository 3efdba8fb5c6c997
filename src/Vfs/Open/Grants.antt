-- ===== src/Vfs/Open/Grants.antt =====
-- What a successful open in src/vfs.c has checked.
use fs_playground.Access.{Cred, access_internal, open_access_mask}
use fs_playground.Access.Laws.{access_internal-code}
use fs_playground.Base.{
  ℕ, ◌≡◌, refl, sym, ◌∙◌, ◌⊎◌, inl, inr, Bool, true, false, Option, none, some, arith,
  if◌then◌else◌, bit, ℤ, pos, is_neg, eacces, Bool-cases, Option-cases,
}
use fs_playground.Vfs.State.{Vnode, Ofile, Ioctx, Owner, Env, Store}
use fs_playground.Vfs.Run.{
  Run, ok, fault, Cmd, pure, ◌>>=◌, call, check, deref, load_vnode, ops_of, op_of, is_some,
}
use fs_playground.Vfs.Loads.{load_vnode_ok, check-true}
use fs_playground.Vfs.Find.{is_dir}
use fs_playground.Vfs.Open.{
  o_directory, o_creat, o_append, vnode_access, open_directory, open_regular, vfs_open_node,
}

module _ {D : Type 0} (env : Env D) where
  -- The answer of a vnode's permission check, from its `access` function if it has one, and the
  -- driver afterwards.
  abbrev pub access_answer : Cred → Vnode → ℕ → D → Option (Vnode → D → (ℤ × Owner) × D) → ℤ × D
  access_answer c v mode d none = (pos 0, d)
  access_answer c v mode d (some access) =
      let r = access v d in
      let o = r.0.1 in
      (if is_neg r.0.0 then r.0.0 else access_internal c mode o.mode o.uid o.gid, r.1)

  abbrev pub vnode_answer : Cred → Vnode → ℕ → D → ℤ × D
  vnode_answer c v mode d = access_answer c v mode d (op_of env v (λ o. o.access))

  pub vnode_access_lem :
      (ctx : Ioctx) (a : ℕ) (v : Vnode) (mode : ℕ) (s : Store D)
      → s.vnodes a ≡ some v
      → let r = vnode_answer ctx.cred v mode s.driver in
        vnode_access env ctx (some a) mode s ≡ ok r.0 (record s { driver = r.1 })
  unfolding vnode_access call
  vnode_access_lem ctx a v mode s e =
      rw (load_vnode_ok s a v e) (answer (op_of env v (λ o. o.access)))
    where
      answer :
          (o : Option (Vnode → D → (ℤ × Owner) × D))
          → (elim o as (λ _. Cmd D ℤ) [
            | none ↦ pure (pos 0)
            | some access ↦ call (access v) >>= λ r.
                if is_neg r.0
                then pure r.0
                else pure (access_internal ctx.cred mode (r.1).mode (r.1).uid (r.1).gid)
          ])
              s
            ≡ (let r = access_answer ctx.cred v mode s.driver o in
                ok r.0 (record s { driver = r.1 }))
      answer none = refl
      answer (some access) = ground arith

  open_directory-kind :
      (of of' : Ofile) (a : ℕ) (v : Vnode) (opt : ℕ) (s t : Store D) (res : ℤ)
      → s.vnodes a ≡ some v
      → open_directory env of (some a) opt s ≡ ok (res, of') t
      → is_neg res ≡ false
      → is_dir v.type ≡ true
  unfolding open_directory load_vnode deref check ops_of call
  open_directory-kind of of' a v opt s t res e h g = ground (arith, e)

  open_regular-kind :
      (of of' : Ofile) (a : ℕ) (v : Vnode) (opt : ℕ) (s t : Store D) (res : ℤ)
      → s.vnodes a ≡ some v
      → open_regular env of (some a) opt s ≡ ok (res, of') t
      → is_neg res ≡ false
      → (is_dir v.type ≡ false) × (bit opt o_creat ≡ false) × (bit opt o_append ≡ false)
  unfolding open_regular load_vnode deref
  open_regular-kind of of' a v opt s t res e h g = ground (arith, e)

  -- The permissions of a vnode grant what `mask` asks for, where its driver has permissions.
  abbrev pub Allows : Cred → Vnode → ℕ → D → Type 0
  Allows c v mask d =
      (access : Vnode → D → (ℤ × Owner) × D)
      → op_of env v (λ o. o.access) ≡ some access
      → let o = ((access v d).0).1 in access_internal c mask o.mode o.uid o.gid ≡ pos 0

  pub answer-Allows :
      (c : Cred) (v : Vnode) (mode : ℕ) (d : D)
      → is_neg (vnode_answer c v mode d).0 ≡ false
      → Allows c v mode d
  answer-Allows c v mode d n access f =
      let o = ((access v d).0).1 in
      access_internal-code c mode o.mode o.uid o.gid (ground (arith, f, n))

  -- What a successful open guarantees: the flags ask for an access, the vnode's permissions grant
  -- it to the user, and a directory was opened exactly if O_DIRECTORY asked for one.
  pub record Opened (ctx : Ioctx) (v : Vnode) (opt : ℕ) (d : D) : Type 0 where
    pub mask : ℕ
    pub asks : open_access_mask opt ≡ some mask
    pub granted : Allows ctx.cred v mask d
    pub kind : bit opt o_directory ≡ is_dir v.type

  -- The run of an open up to its two branches.
  open_run :
      (ctx : Ioctx) (of : Ofile) (a : ℕ) (v : Vnode) (opt mask : ℕ) (s : Store D)
      → s.vnodes a ≡ some v
      → is_some v.op ≡ true
      → open_access_mask opt ≡ some mask
      → let r = vnode_answer ctx.cred v mask s.driver in
        let s' = record s { driver = r.1 } in
        vfs_open_node env ctx of (some a) opt s ≡ (
          if is_neg r.0
          then ok (eacces, of) s'
          else (if bit opt o_directory
              then open_directory env of (some a) opt s'
              else open_regular env of (some a) opt s'))
  unfolding vfs_open_node deref op_of
  open_run ctx of a v opt mask s e o m = rw (load_vnode_ok s a v e) (
      rw (check-true s (is_some v.op) o)
        (rw m (rw (vnode_access_lem ctx a v mask s e) (ground arith))))

  open_faults :
      (ctx : Ioctx) (of : Ofile) (a : ℕ) (v : Vnode) (opt : ℕ) (s : Store D)
      → s.vnodes a ≡ some v
      → (is_some v.op ≡ false) ⊎ (open_access_mask opt ≡ none)
      → vfs_open_node env ctx of (some a) opt s ≡ fault
  unfolding vfs_open_node check deref
  open_faults ctx of a v opt s e (inl o) = rw (load_vnode_ok s a v e) (rw o)
  open_faults ctx of a v opt s e (inr m) = rw (load_vnode_ok s a v e) (rw m (ground arith))

  permitted :
      (b : Bool) (of of' : Ofile) (s t : Store D) (x : Run (Store D) (ℤ × Ofile)) (res : ℤ)
      → (if b then ok (eacces, of) s else x) ≡ ok (res, of') t
      → is_neg res ≡ false
      → b ≡ false
  permitted false of of' s t x res h g = refl
  permitted true of of' s t x res h g = ground (arith, h, g)

  -- If vfs_open_node on a vnode that is there returns no error code, then the flags ask for an
  -- access, the vnode's permissions grant that access to the user where its driver has permissions,
  -- and O_DIRECTORY was set exactly if the vnode is a directory.
  pub vfs_open_node-Opened :
      (ctx : Ioctx) (of of' : Ofile) (a : ℕ) (v : Vnode) (opt : ℕ) (s t : Store D) (res : ℤ)
      → s.vnodes a ≡ some v
      → vfs_open_node env ctx of (some a) opt s ≡ ok (res, of') t
      → is_neg res ≡ false
      → Opened ctx v opt s.driver
  vfs_open_node-Opened ctx of of' a v opt s t res e h good = elim (Bool-cases (is_some v.op)) [
    | inr o ↦ cc (open_faults ctx of a v opt s e (inl o))
    | inl o ↦ elim (Option-cases (open_access_mask opt)) [
      | inl m ↦ cc (open_faults ctx of a v opt s e (inr m))
      | inr (mask, m) ↦
          let r = vnode_answer ctx.cred v mask s.driver in
          let s' = record s { driver = r.1 } in
          let run = open_run ctx of a v opt mask s e o m in
          record {
            mask = mask;
            asks = m;
            granted =
                answer-Allows ctx.cred v mask s.driver
                  (permitted (is_neg r.0) of of' s' t _ res (sym run ∙ h) good);
            kind = ground (
              arith,
              run,
              open_directory-kind of of' a v opt s' t res,
              open_regular-kind of of' a v opt s' t res,
            );
          }
    ]
  ]
