-- ===== src/Vfs/Keeps.antt =====
-- Rules for proving that a command keeps an invariant of the store and returns a result that
-- satisfies a predicate, wherever it ends normally.
use fs_playground.Base.{Bool, true, false, Option, none, some, if◌then◌else◌}
use fs_playground.Vfs.State.{Ptr, Vnode, Env, Store}
use fs_playground.Vfs.Run.{
  Run, ok, fault, out_of_fuel, Cmd, pure, ◌>>=◌, and_then, check, deref, allocated, stop, load_node,
  load_vnode, ops_of,
}

pub data Ends {D A : Type 0} (P : A → Store D → Type 0) : Run (Store D) A → Type 0 where
  ends : {a : A} {s : Store D} → P a s → Ends P (ok a s)
  faulted : Ends P fault
  starved : Ends P out_of_fuel

module _ {D : Type 0} (I : Store D → Type 0) where
  pub record Keeps {A : Type 0} (Q : A → Type 0) (m : Cmd D A) : Type 0 where
    pub from : (s : Store D) → I s → Ends (λ a t. I t × Q a) (m s)

  abbrev pub Any : {A : Type 0} → A → Type 0
  Any a = Unit {0}

  then_run :
      {A B : Type 0} {Q : A → Type 0} (Q' : B → Type 0) {r : Run (Store D) A} (k : A → Cmd D B)
      → Ends (λ a t. I t × Q a) r
      → ((a : A) → Q a → Keeps Q' (k a))
      → Ends (λ b t. I t × Q' b) (and_then r k)
  then_run Q' k (ends (i, q)) next = (next _ q).from _ i
  then_run Q' k faulted next = faulted
  then_run Q' k starved next = starved

  pub bind :
      {A B : Type 0} {Q : A → Type 0} {Q' : B → Type 0} {m : Cmd D A} {k : A → Cmd D B}
      → Keeps Q m
      → ((a : A) → Q a → Keeps Q' (k a))
      → Keeps Q' (m >>= k)
  bind {Q'} {k} h next = record { from = λ s i. then_run Q' k (h.from s i) next }

  pub ret : {A : Type 0} {Q : A → Type 0} (a : A) → Q a → Keeps Q (pure a)
  ret a q = record { from = λ s i. ends (i, q) }

  pub branch :
      {A : Type 0} {Q : A → Type 0} (b : Bool) {m n : Cmd D A}
      → Keeps Q m
      → Keeps Q n
      → Keeps Q (if b then m else n)
  branch true h g = h
  branch false h g = g

  pub on_option :
      {A B : Type 0} {Q : B → Type 0} (o : Option A) {m : Cmd D B} {k : A → Cmd D B}
      → Keeps Q m
      → ((a : A) → Keeps Q (k a))
      → Keeps Q (elim o [ none ↦ m | some a ↦ k a ])
  on_option none h g = h
  on_option (some a) h g = g a

  pub check-Keeps : (b : Bool) → Keeps Any (check b)
  unfolding check
  check-Keeps true = record { from = λ s i. ends (i, tt) }
  check-Keeps false = record { from = λ s i. faulted }

  pub stop-Keeps : {A : Type 0} {Q : A → Type 0} → Keeps Q stop
  stop-Keeps = record { from = λ s i. faulted }

  pub deref-Keeps : {A : Type 0} (o : Option A) → Keeps Any (deref o)
  unfolding deref
  deref-Keeps none = record { from = λ s i. faulted }
  deref-Keeps (some a) = record { from = λ s i. ends (i, tt) }

  pub allocated-Keeps : Keeps Any allocated
  unfolding allocated
  allocated-Keeps = record { from = λ s i. ends (i, tt) }

  pub load_node-Keeps : (p : Ptr) → Keeps Any (load_node p)
  unfolding load_node
  load_node-Keeps none = record { from = λ s i. faulted }
  load_node-Keeps (some a) = record { from = λ s i. (deref-Keeps (s.nodes a)).from s i }

  pub load_vnode-Keeps : (p : Ptr) → Keeps Any (load_vnode p)
  unfolding load_vnode
  load_vnode-Keeps none = record { from = λ s i. faulted }
  load_vnode-Keeps (some a) = record { from = λ s i. (deref-Keeps (s.vnodes a)).from s i }

  pub ops_of-Keeps : (env : Env D) (v : Vnode) → Keeps Any (ops_of env v)
  unfolding ops_of
  ops_of-Keeps env v = bind (deref-Keeps v.op) λ t _. ret (env.ops t) tt
