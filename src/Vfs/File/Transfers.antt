-- ===== src/Vfs/File/Transfers.antt =====
-- What a successful read or write in src/vfs.c has checked, and what it changes.
use fs_playground.Access.{r_ok, w_ok}
use fs_playground.Base.{
  ℕ, ◌≡◌, ◌≢◌, refl, sym, ◌∙◌, ap, Bool, true, false, Option, none, some, List, [], arith, ◌==◌,
  if◌then◌else◌, bit, ℤ, is_neg, eacces, eisdir, einval,
}
use fs_playground.Vfs.State.{Vnode, Ofile, Ioctx, Env, Store}
use fs_playground.Vfs.Run.{ok, Cmd, pure, ◌>>=◌, call, load_vnode}
use fs_playground.Vfs.Loads.{load_vnode_ok, ops_of_ok}
use fs_playground.Vfs.Open.{o_directory, accmode, vnode_access}
use fs_playground.Vfs.Open.Grants.{vnode_answer, vnode_access_lem, Allows, answer-Allows}
use fs_playground.Vfs.File.{advance, vfs_read, vfs_write}

module _ {D : Type 0} (env : Env D) (ctx : Ioctx) where
  -- An open file whose vnode `v` at `a` has the table of functions `table`.
  pub record Backed (fd : Ofile) (s : Store D) (a : ℕ) (v : Vnode) (table : ℕ) : Type 0 where
    pub opened : fd.vnode ≡ some a
    pub at_vnode : s.vnodes a ≡ some v
    pub op : v.op ≡ some table

  -- The checks of a transfer that needs `mask`, and is not made on files of the access mode `other`.
  pub record MayTransfer (fd : Ofile) (v : Vnode) (mask other : ℕ) (d : D) : Type 0 where
    pub granted : Allows env ctx.cred v mask d
    pub no_directory : bit fd.flags o_directory ≡ false
    pub mode : accmode fd.flags ≢ other

  -- A guard that was passed, since what it returns is an error and the result is none.
  passed :
      {A : Type 0} (code : A → ℤ) (b : Bool) (e : A) (m : Cmd D A) (s : Store D) {x : A}
      {t : Store D}
      → is_neg (code e) ≡ true
      → is_neg (code x) ≡ false
      → (if b then pure e else m) s ≡ ok x t
      → (b ≡ false) × (m s ≡ ok x t)
  passed code false e m s bad good h = (refl, h)
  passed code true e m s {x} bad good h =
      let same : e ≡ x = ground (arith, h) in absurd (ground (arith, bad, good, ap code same))

  -- A call through a pointer that is not NULL, since the result is no error.
  called :
      {A F : Type 0} (code : A → ℤ) (o : Option F) (e : A) (run : F → D → A × D) (finish : A → A)
      (s : Store D) {x : A} {t : Store D}
      → is_neg (code e) ≡ true
      → is_neg (code x) ≡ false
      → (elim o as (λ _. Cmd D A) [
        | none ↦ pure e
        | some f ↦ call (run f) >>= λ r. pure (finish r)
      ])
          s
        ≡ ok x t
      → (f : F) × (o ≡ some f)
        × (let r = run f s.driver in (x ≡ finish r.0) × (t ≡ record s { driver = r.1 }))
  unfolding call
  called code none e run finish s {x} bad good h =
      let same : e ≡ x = ground (arith, h) in absurd (ground (arith, bad, good, ap code same))
  called code (some f) e run finish s bad good h = (f, refl, (ground (arith, h), ground (arith, h)))

  -- Three guards and a call behind them.
  guarded :
      {A F : Type 0} (code : A → ℤ) (b₁ b₂ b₃ : Bool) (e₁ e₂ e₃ : A) (o : Option F)
      (run : F → D → A × D) (finish : A → A) (s : Store D) {x : A} {t : Store D}
      → is_neg (code e₁) ≡ true
      → is_neg (code e₂) ≡ true
      → is_neg (code e₃) ≡ true
      → is_neg (code x) ≡ false
      → (if b₁
            then pure e₁
            else (if b₂
                then pure e₂
                else (if b₃ then pure e₃ else (elim o as (λ _. Cmd D A) [
                  | none ↦ pure e₃
                  | some f ↦ call (run f) >>= λ r. pure (finish r)
                ]))))
          s
        ≡ ok x t
      → (b₁ ≡ false)
        × (b₂ ≡ false)
        × (b₃ ≡ false)
        × ((f : F) × (o ≡ some f)
            × (let r = run f s.driver in (x ≡ finish r.0) × (t ≡ record s { driver = r.1 })))
  guarded code b₁ b₂ b₃ e₁ e₂ e₃ o run finish s bad₁ bad₂ bad₃ good h =
      let (p₁, h₁) = passed code b₁ e₁ _ s bad₁ good h in
      let (p₂, h₂) = passed code b₂ e₂ _ s bad₂ good h₁ in
      let (p₃, h₃) = passed code b₃ e₃ _ s bad₃ good h₂ in
      (p₁, p₂, p₃, called code o e₃ run finish s bad₃ good h₃)

  module _ {fd : Ofile} {s : Store D} {a : ℕ} {v : Vnode} {table : ℕ}
      (b : Backed fd s a v table) where
    -- The driver behind the permission check.
    abbrev pub asked : ℕ → D
    asked mask = (vnode_answer env ctx.cred v mask s.driver).1

    load_opened : load_vnode fd.vnode s ≡ ok v s
    load_opened = rw b.opened (load_vnode_ok s a v b.at_vnode)

    access_opened :
        (mask : ℕ)
        → let r = vnode_answer env ctx.cred v mask s.driver in
          vnode_access env ctx fd.vnode mask s ≡ ok r.0 (record s { driver = r.1 })
    access_opened mask = rw b.opened (vnode_access_lem env ctx a v mask s b.at_vnode)

    -- If vfs_read on an open file whose vnode is there and has a table of functions returns no
    -- error code, then the vnode's permissions grant reading, the file was opened neither as a
    -- directory nor for writing alone, the result and the bytes are the driver's, the position is
    -- advanced by the result, and the store is changed in the driver's state alone.
    pub vfs_read-MayTransfer :
        (count : ℕ) {res : ℤ} {buf : List ℕ} {fd' : Ofile} {t : Store D}
        → vfs_read env ctx fd count s ≡ ok (res, buf, fd') t
        → is_neg res ≡ false
        → MayTransfer fd v r_ok 1 s.driver
          × (read : Ofile → Vnode → ℕ → D → (ℤ × List ℕ × Ofile) × D) × ((env.ops table).read
              ≡ some read)
          × (let r = read fd v count (asked r_ok) in
              (res ≡ r.0.0)
              × (buf ≡ r.0.1)
              × (fd' ≡ advance r.0.2 res)
              × (t ≡ record s { driver = r.1 }))
    unfolding vfs_read call
    vfs_read-MayTransfer count {res} {buf} {fd'} {t} h good =
        let code : ℤ × List ℕ × Ofile → ℤ = λ r. r.0 in
        let s' = record s { driver = asked r_ok } in
        let start = rw (load_opened, ops_of_ok env v s table b.op, access_opened r_ok) at h in
        let (granted, plain, mode, (read, e, (x, u))) =
          guarded code (is_neg (vnode_answer env ctx.cred v r_ok s.driver).0)
            (bit fd.flags o_directory) (accmode fd.flags == 1) (eacces, [], fd) (eisdir, [], fd)
            (einval, [], fd) (env.ops table).read (λ f. f fd v count)
            (λ r. (r.0, r.1, advance r.2 r.0)) s' refl refl refl good start in
        (
          record {
            granted = answer-Allows env ctx.cred v r_ok s.driver granted;
            no_directory = plain;
            mode = λ m. ground (arith, mode, m);
          },
          read,
          e,
          (
            ap (λ (r : ℤ × List ℕ × Ofile). r.0) x,
            ap (λ (r : ℤ × List ℕ × Ofile). r.1) x,
            ap (λ (r : ℤ × List ℕ × Ofile). r.2) x
                ∙ ap (advance _) (sym (ap (λ (r : ℤ × List ℕ × Ofile). r.0) x)),
            u,
          ),
        )

    -- If vfs_write on an open file whose vnode is there and has a table of functions returns no
    -- error code, then the vnode's permissions grant writing, the file was opened neither as a
    -- directory nor for reading alone, the result and the open file are the driver's, and the store
    -- is changed in the driver's state alone.
    pub vfs_write-MayTransfer :
        (buf : List ℕ) {res : ℤ} {fd' : Ofile} {t : Store D}
        → vfs_write env ctx fd buf s ≡ ok (res, fd') t
        → is_neg res ≡ false
        → MayTransfer fd v w_ok 0 s.driver
          × (write : Ofile → Vnode → List ℕ → D → (ℤ × Ofile) × D) × ((env.ops table).write
              ≡ some write)
          × (let r = write fd v buf (asked w_ok) in
              ((res, fd') ≡ r.0) × (t ≡ record s { driver = r.1 }))
    unfolding vfs_write call
    vfs_write-MayTransfer buf {res} {fd'} {t} h good =
        let code : ℤ × Ofile → ℤ = λ r. r.0 in
        let s' = record s { driver = asked w_ok } in
        let start = rw (load_opened, ops_of_ok env v s table b.op, access_opened w_ok) at h in
        let (granted, plain, mode, (write, e, (x, u))) =
          guarded code (is_neg (vnode_answer env ctx.cred v w_ok s.driver).0)
            (bit fd.flags o_directory) (accmode fd.flags == 0) (eacces, fd) (eisdir, fd)
            (einval, fd) (env.ops table).write (λ f. f fd v buf) (λ r. r) s' refl refl refl good
            start in
        (
          record {
            granted = answer-Allows env ctx.cred v w_ok s.driver granted;
            no_directory = plain;
            mode = λ m. ground (arith, mode, m);
          },
          write,
          e,
          (x, u),
        )
