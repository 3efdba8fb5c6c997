-- ===== src/Vfs/Loads.antt =====
-- Loads and stores at addresses whose contents are known, and inversion of a run that ends normally.
use fs_playground.Base.{ℕ, ◌≡◌, refl, Bool, true, false, Option, none, some, arith}
use fs_playground.Vfs.State.{Ptr, Vnode, VfsNode, VnodeOps, Env, Store}
use fs_playground.Vfs.Run.{
  Run, ok, fault, out_of_fuel, Cmd, and_then, check, deref, load_node, load_vnode, store_vnode,
  ops_of, put,
}

module _ {D : Type 0} where
  -- The store with one vnode replaced.
  abbrev pub with_vnode : Store D → ℕ → Vnode → Store D
  with_vnode s a v = record s { vnodes = put s.vnodes a (some v) }

  pub load_node_ok :
      (s : Store D) (a : ℕ) (n : VfsNode) → s.nodes a ≡ some n → load_node (some a) s ≡ ok n s
  unfolding load_node deref
  load_node_ok s a n h = rw (h, deref)

  pub load_node_fault : (s : Store D) (a : ℕ) → s.nodes a ≡ none → load_node (some a) s ≡ fault
  unfolding load_node deref
  load_node_fault s a h = rw (h, deref)

  pub load_vnode_ok :
      (s : Store D) (a : ℕ) (v : Vnode) → s.vnodes a ≡ some v → load_vnode (some a) s ≡ ok v s
  unfolding load_vnode deref
  load_vnode_ok s a v h = rw (h, deref)

  pub load_vnode_self :
      (s : Store D) (a : ℕ) (v : Vnode)
      → load_vnode (some a) (with_vnode s a v) ≡ ok v (with_vnode s a v)
  load_vnode_self s a v = load_vnode_ok (with_vnode s a v) a v (ground arith)

  pub store_vnode_lem :
      (s : Store D) (a : ℕ) (v : Vnode) → store_vnode (some a) v s ≡ ok tt (with_vnode s a v)
  unfolding store_vnode
  store_vnode_lem s a v = refl

  pub check-true : (s : Store D) (b : Bool) → b ≡ true → check b s ≡ ok tt s
  unfolding check
  check-true s b h = rw h

  pub and_then-eq-ok :
      {A B : Type 0} (r : Run (Store D) A) (k : A → Cmd D B) {b : B} {t : Store D}
      → and_then r k ≡ ok b t
      → (a : A) × (s : Store D) × (r ≡ ok a s) × (k a s ≡ ok b t)
  and_then-eq-ok (ok a s) k h = (a, s, refl, h)
  and_then-eq-ok fault k h = cc
  and_then-eq-ok out_of_fuel k h = cc

  pub load_vnode-eq-ok :
      (p : Ptr) (s : Store D) {v : Vnode} {t : Store D}
      → load_vnode p s ≡ ok v t
      → (a : ℕ) × (p ≡ some a) × (s.vnodes a ≡ some v) × (t ≡ s)
  unfolding load_vnode deref
  load_vnode-eq-ok none s h = cc
  load_vnode-eq-ok (some a) s {v} {t} h = (a, refl, ground arith, ground arith)

  pub load_node-eq-ok :
      (p : Ptr) (s : Store D) {n : VfsNode} {t : Store D}
      → load_node p s ≡ ok n t
      → (a : ℕ) × (p ≡ some a) × (s.nodes a ≡ some n) × (t ≡ s)
  unfolding load_node deref
  load_node-eq-ok none s h = cc
  load_node-eq-ok (some a) s {n} {t} h = (a, refl, ground arith, ground arith)

  pub check-eq-ok :
      (b : Bool) (s : Store D) {u : Unit {0}} {t : Store D}
      → check b s ≡ ok u t
      → (b ≡ true) × (t ≡ s)
  unfolding check
  check-eq-ok true s h = (refl, ground arith)
  check-eq-ok false s h = cc

  pub deref-eq-ok :
      {A : Type 0} (o : Option A) (s : Store D) {a : A} {t : Store D}
      → deref o s ≡ ok a t
      → (o ≡ some a) × (t ≡ s)
  unfolding deref
  deref-eq-ok none s h = cc
  deref-eq-ok (some a) s h = (ground arith, ground arith)

  pub ops_of_ok :
      (env : Env D) (v : Vnode) (s : Store D) (t : ℕ)
      → v.op ≡ some t
      → ops_of env v s ≡ ok (env.ops t) s
  unfolding ops_of deref
  ops_of_ok env v s t h = rw h

  pub ops_of-eq-ok :
      (env : Env D) (v : Vnode) (s : Store D) {ops : VnodeOps D} {u : Store D}
      → ops_of env v s ≡ ok ops u
      → (t : ℕ) × (v.op ≡ some t) × (ops ≡ env.ops t) × (u ≡ s)
  unfolding ops_of
  ops_of-eq-ok env v s h =
      let (t, w, e, g) = and_then-eq-ok (deref v.op s) _ h in
      let (e', f) = deref-eq-ok v.op s e in (t, e', ground arith, ground arith)
