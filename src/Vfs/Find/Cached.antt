-- ===== src/Vfs/Find/Cached.antt =====
-- What `vfs_find_tree` of src/vfs.c finds where every element of the path is cached in the tree.
use fs_playground.Base.{
  ℕ, zero, suc, ◌≤◌, ◌<◌, ◌≡◌, ◌≢◌, refl, ◌∙◌, ap, true, false, Option, none, some, [], ◌∷◌, arith,
  lt→ltb, CString, bytes_eq, length, pos,
}
use fs_playground.PathName.{path_element}
use fs_playground.PathName.Laws.{length-path_element}
use fs_playground.Vfs.State.{Ptr, VnodeType, Vnode, VfsNode, Env, Store}
use fs_playground.Vfs.Run.{Run, ok, Cmd, pure, and_then, check, allocated}
use fs_playground.Vfs.Loads.{load_node_ok, load_vnode_ok}
use fs_playground.Vfs.Find.{
  Found, Finder, Walk, here, element, dot, dotdot, take_element, skip_dots, find_child, descend,
  walk, start, find_tree,
}

-- The path begins with "."; `rest` is behind it.
pub record BeginsDot (path : CString) (rest : Option CString) : Type 0 where
  pub some_path : path ≢ []
  pub split : path_element path ≡ (dot, rest)

-- The path begins with the element `e`, which fits its buffer and is not "."; `rest` is behind it.
pub record Begins (path e : CString) (rest : Option CString) : Type 0 where
  pub some_path : path ≢ []
  pub split : path_element path ≡ (e, rest)
  pub fits : length e < 256
  pub no_dot : bytes_eq e dot ≡ false

-- Where a path leads behind the elements "." that it begins with.
pub data Leads : CString → Walk → Type 0 where
  at :
      {path : CString} (e : CString) (rest : Option CString)
      → Begins path e rest
      → Leads path (element e rest)
  ends : {path : CString} → BeginsDot path none → Leads path here
  skip :
      {path : CString} {w : Walk} (rest : CString)
      → BeginsDot path (some rest)
      → Leads rest w
      → Leads path w

Leads-some_path : {path : CString} {w : Walk} → Leads path w → path ≢ []
Leads-some_path (at e rest g) = g.some_path
Leads-some_path (ends g) = g.some_path
Leads-some_path (skip rest g l) = g.some_path

module _ {D : Type 0} (s : Store D) where
  -- `b` is the first node of the name `e` in the list of siblings at `p`, behind `k` others.
  pub data Listed : ℕ → Ptr → CString → ℕ → Type 0 where
    hit :
        {e : CString} (b : ℕ) (n : VfsNode)
        → s.nodes b ≡ some n
        → bytes_eq n.name e ≡ true
        → Listed 0 (some b) e b
    behind :
        {e : CString} {k b : ℕ} (i : ℕ) (n : VfsNode)
        → s.nodes i ≡ some n
        → bytes_eq n.name e ≡ false
        → Listed k n.cdr e b
        → Listed (suc k) (some i) e b

  -- The directory at `a` has the cached child `b` under the name `e`. No more siblings stand before
  -- it than addresses were handed out.
  pub record InDir (a : ℕ) (e : CString) (b : ℕ) : Type 0 where
    pub node : VfsNode
    pub at_node : s.nodes a ≡ some node
    pub vnode : ℕ
    pub of_node : node.vnode ≡ some vnode
    pub content : Vnode
    pub at_vnode : s.vnodes vnode ≡ some content
    pub is_directory : content.type ≡ VnodeType.dir
    pub before : ℕ
    pub few : before ≤ s.next
    pub listed : Listed before node.child e b

  -- The walk of `path` from `a` leads to `b` in `k` rounds, over elements that are all cached. The
  -- elements "." take no round, ".." leads to the parent, and the end of the path takes a round of
  -- its own behind "." and behind "..".
  pub data Cached : ℕ → ℕ → CString → ℕ → Type 0 where
    stay : {a : ℕ} {path : CString} → Leads path here → Cached 1 a path a
    last :
        {a b : ℕ} {path : CString} (e : CString)
        → Leads path (element e none)
        → bytes_eq e dotdot ≡ false
        → InDir a e b
        → Cached 1 a path b
    down :
        {k a b : ℕ} {path : CString} (e rest : CString) (m : ℕ)
        → Leads path (element e (some rest))
        → bytes_eq e dotdot ≡ false
        → InDir a e m
        → Cached k m rest b
        → Cached (suc k) a path b
    up :
        {k a b : ℕ} {path : CString} (e rest : CString) (n : VfsNode) (q : ℕ)
        → Leads path (element e (some rest))
        → bytes_eq e dotdot ≡ true
        → s.nodes a ≡ some n
        → n.parent ≡ some q
        → Cached k q rest b
        → Cached (suc k) a path b
    above :
        {a : ℕ} {path : CString} (e : CString) (n : VfsNode) (q : ℕ)
        → Leads path (element e none)
        → bytes_eq e dotdot ≡ true
        → s.nodes a ≡ some n
        → n.parent ≡ some q
        → Cached 2 a path q

  find_child-Listed :
      {k b : ℕ} {p : Ptr} {e : CString} (fuel : ℕ)
      → k < fuel
      → Listed k p e b
      → find_child fuel p e s ≡ ok (some b) s
  unfolding find_child
  find_child-Listed zero lt l = absurd (omega arith)
  find_child-Listed (suc fuel) lt (hit b n h e) = rw (load_node_ok s b n h) (rw e refl)
  find_child-Listed (suc fuel) lt (behind i n h e l) =
      rw (load_node_ok s i n h) (rw e (find_child-Listed fuel (omega arith) l))

  -- What follows the element that was found.
  abbrev onward : Finder D → ℕ → Option CString → Run (Store D) Found
  onward rec b none = ok (pos 0, some b) s
  onward rec b (some path) = rec (some b) (some path) s

  onward_lem :
      (rec : Finder D) (b : ℕ) (rest : Option CString)
      → (elim rest as (λ _. Cmd D Found) [
        | none ↦ pure (pos 0, some b)
        | some path ↦ rec (some b) (some path)
      ])
          s
        ≡ onward rec b rest
  onward_lem rec b none = refl
  onward_lem rec b (some path) = refl

  descend-InDir :
      (env : Env D) (rec : Finder D) {a b : ℕ} {e : CString} (rest : Option CString)
      → InDir a e b
      → descend env rec (some a) e rest s ≡ onward rec b rest
  unfolding descend allocated check
  descend-InDir env rec rest d = rw (load_node_ok s _ d.node d.at_node) (
      rw d.of_node (
        rw (load_vnode_ok s d.vnode d.content d.at_vnode) (
          rw d.is_directory (
            rw (find_child-Listed (suc s.next) (omega (arith, d.few)) d.listed)
              (onward_lem rec _ rest)))))

  -- The loop over ".", from the first element of the path.
  skip_dots-Leads :
      {path : CString} {w : Walk} (k : ℕ)
      → Leads path w
      → length path ≤ k
      → and_then (take_element path s) (λ r. skip_dots dot (suc k) r.0 r.1) ≡ ok w s
  unfolding take_element skip_dots check
  skip_dots-Leads k (at e rest g) le = rw g.split (rw (lt→ltb _ _ g.fits) (rw g.no_dot refl))
  skip_dots-Leads k (ends g) le = rw g.split refl
  skip_dots-Leads {path} zero (skip rest g l) le = absurd (
      omega (
        arith,
        length-path_element path rest (ap (λ (r : CString × Option CString). r.1) g.split),
        le,
      ))
  skip_dots-Leads {path} (suc k) (skip rest g l) le =
      let shorter =
        length-path_element path rest (ap (λ (r : CString × Option CString). r.1) g.split) in
      rw g.split (skip_dots-Leads k l (omega (arith, shorter, le)))

  take_element-Leads :
      {path : CString} {w : Walk} → Leads path w → take_element path s ≡ ok (path_element path) s
  unfolding take_element check
  take_element-Leads (at e rest g) = rw g.split (rw (lt→ltb _ _ g.fits) refl)
  take_element-Leads (ends g) = rw g.split refl
  take_element-Leads (skip rest g l) = rw g.split refl

  dots-Leads :
      {path : CString} {w : Walk}
      → Leads path w
      → skip_dots dot (suc (length path)) (path_element path).0 (path_element path).1 s ≡ ok w s
  dots-Leads {path} l = rw (take_element-Leads l) at (skip_dots-Leads (length path) l (omega arith))

  -- The steps of a walk behind the loop over ".".
  pub walk-Leads :
      (env : Env D) (k : ℕ) (root : Ptr) {path e : CString} {rest : Option CString}
      → Leads path (element e rest)
      → bytes_eq e dotdot ≡ false
      → find_tree env (suc k) root (some path) s ≡ descend env (find_tree env k) root e rest s
  unfolding find_tree start walk
  walk-Leads env k root {path = []} l n = absurd (Leads-some_path l refl)
  walk-Leads env k root {path = c ∷ cs} l n =
      rw (take_element-Leads l) (rw (dots-Leads l) (rw n refl))

  walk_up :
      (env : Env D) (k : ℕ) {a q : ℕ} {path e : CString} {rest : Option CString} {n : VfsNode}
      → Leads path (element e rest)
      → bytes_eq e dotdot ≡ true
      → s.nodes a ≡ some n
      → n.parent ≡ some q
      → find_tree env (suc k) (some a) (some path) s ≡ find_tree env k (some q) rest s
  unfolding find_tree start walk
  walk_up env k {path = []} l d h p = absurd (Leads-some_path l refl)
  walk_up env k {a} {path = c ∷ cs} {n = n} l d h p =
      rw (take_element-Leads l) (rw (dots-Leads l) (rw d (rw (load_node_ok s a n h) (rw p refl))))

  walk_stay :
      (env : Env D) (k : ℕ) (root : Ptr) {path : CString}
      → Leads path here
      → find_tree env (suc k) root (some path) s ≡ ok (pos 0, root) s
  unfolding find_tree start walk
  walk_stay env k root {path = []} l = absurd (Leads-some_path l refl)
  walk_stay env k root {path = c ∷ cs} l = rw (take_element-Leads l) (rw (dots-Leads l) refl)

  at_end :
      (env : Env D) (k : ℕ) (root : Ptr) → find_tree env (suc k) root none s ≡ ok (pos 0, root) s
  unfolding find_tree start
  at_end env k root = refl

  -- Where a path leads from a node over cached children, the elements "." and, below a parent, ".."
  -- to a node, a lookup with at least one round of fuel for each element other than "." and one
  -- more for a path that ends in "." or ".." ends normally, finds that node, and leaves the store
  -- as it was.
  pub find_tree-Cached :
      (env : Env D) (fuel : ℕ) {k a b : ℕ} {path : CString}
      → Cached k a path b
      → k ≤ fuel
      → find_tree env fuel (some a) (some path) s ≡ ok (pos 0, some b) s
  find_tree-Cached env zero (stay l) le = absurd (omega arith)
  find_tree-Cached env zero (last e l n d) le = absurd (omega arith)
  find_tree-Cached env zero (down e rest m l n d c) le = absurd (omega arith)
  find_tree-Cached env zero (up e rest n q l d h p c) le = absurd (omega arith)
  find_tree-Cached env zero (above e n q l d h p) le = absurd (omega arith)
  find_tree-Cached env (suc zero) (above e n q l d h p) le = absurd (omega arith)
  find_tree-Cached env (suc (suc fuel)) {k} {a} (above e n q l d h p) le =
      walk_up env (suc fuel) l d h p ∙ at_end env fuel (some q)
  find_tree-Cached env (suc fuel) {k} {a} (stay l) le = walk_stay env fuel (some a) l
  find_tree-Cached env (suc fuel) {k} {a} (last e l n d) le =
      walk-Leads env fuel (some a) l n ∙ descend-InDir env (find_tree env fuel) none d
  find_tree-Cached env (suc fuel) {k} {a} (down e rest m l n d c) le =
      walk-Leads env fuel (some a) l n
      ∙ descend-InDir env (find_tree env fuel) (some rest) d
      ∙ find_tree-Cached env fuel c (omega arith)
  find_tree-Cached env (suc fuel) {k} {a} (up e rest n q l d h p c) le =
      walk_up env fuel l d h p ∙ find_tree-Cached env fuel c (omega arith)
