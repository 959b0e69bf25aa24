-- ===== src/Package.antt =====
-- src/package.rs: an application's package, a tree of files read from a tar archive, and the paths in
-- it. A `HashMap<String, VfsNode>` is the list of its entries; an archive is the list of its
-- regular files.
pub mod Archive
pub mod Paths
pub mod Modules
use blueboat.Prelude.{
  ℕ, Bytes, codes, Bool, true, false, not, ◌&&◌, List, [], ◌∷◌, ◌++◌, Option, none, some, eqb,
  if◌then◌else◌, and_then, init, join, split_at, b_slash, nonempty, keep_if,
}

mutual
  pub data VfsNode : Type 0 where
    internal : Entries → VfsNode
    leaf : Bytes → VfsNode

  pub data Entries : Type 0 where
    no_entries : Entries
    entry : Bytes → VfsNode → Entries → Entries

-- `HashMap::get`.
unfoldable pub child : Bytes → Entries → Option VfsNode
child s no_entries = none
child s (entry k n m) = let rest = child s m in if eqb k s then some n else rest

-- `HashMap::insert`, and the change through `get_mut`.
unfoldable pub put : Bytes → VfsNode → Entries → Entries
put s c no_entries = entry s c no_entries
put s c (entry k n m) = let rest = put s c m in if eqb k s then entry k c m else entry k n rest

-- `x != "."` and not empty.
abbrev pub is_named : Bytes → Bool
is_named s = nonempty s && not (eqb s (codes "."))

unfoldable pub split_path : Bytes → List Bytes
split_path raw = keep_if is_named (split_at b_slash raw)

-- What stands under a segment after the `else if` chain: what was there, or the new file under the
-- last segment, or a new directory.
abbrev pub entered : Option VfsNode → List Bytes → Bytes → VfsNode
entered (some c) ss buf = c
entered none [] buf = leaf buf
entered none (t ∷ ts) buf = internal no_entries

abbrev pub put_back : Bytes → Entries → Option VfsNode → Option VfsNode
put_back s m none = none
put_back s m (some c) = some (internal (put s c m))

-- `VfsNode::insert`; `none` is the panic on a file in the place of a directory.
unfoldable pub insert_segs : List Bytes → Bytes → VfsNode → Option VfsNode
insert_segs [] buf n = some n
insert_segs (s ∷ ss) buf (leaf x) = none
insert_segs (s ∷ ss) buf (internal m) =
    put_back s m (insert_segs ss buf (entered (child s m) ss buf))

-- `VfsNode::trim`: goes down while there is one entry and it is a directory.
unfoldable pub trim : VfsNode → VfsNode
trim (leaf x) = leaf x
trim (internal no_entries) = internal no_entries
trim (internal (entry k (leaf x) m)) = internal (entry k (leaf x) m)
trim (internal (entry k (internal m) no_entries)) = trim (internal m)
trim (internal (entry k (internal m) (entry j n r))) = internal (entry k (internal m) (entry j n r))

abbrev pub trimmed : Option VfsNode → Option VfsNode
trimmed none = none
trimmed (some n) = some (trim n)

unfoldable pub insert_all : List (Bytes × Bytes) → VfsNode → Option VfsNode
insert_all [] n = some n
insert_all ((path, buf) ∷ files) n =
    and_then (insert_segs (split_path path) buf n) (λ n'. insert_all files n')

-- `Package::load`.
unfoldable pub load : List (Bytes × Bytes) → Option VfsNode
unfolding insert_all
load files = trimmed (insert_all files (internal no_entries))

-- `collect_all`: each file with its path, below the path of the node.
unfoldable mutual
  pub collect_all : VfsNode → List Bytes → List (Bytes × Bytes)
  collect_all (leaf x) path = (join b_slash path, x) ∷ []
  collect_all (internal m) path = collect_entries m path

  pub collect_entries : Entries → List Bytes → List (Bytes × Bytes)
  collect_entries no_entries path = []
  collect_entries (entry k n m) path = collect_all n (path ++ k ∷ []) ++ collect_entries m path

abbrev pub file_of : VfsNode → Option Bytes
file_of (leaf x) = some x
file_of (internal m) = none

-- The loop of `resolve_abs`.
unfoldable pub node_at : List Bytes → VfsNode → Option VfsNode
node_at [] n = some n
node_at (s ∷ ss) (leaf x) = none
node_at (s ∷ ss) (internal m) = and_then (child s m) (λ c. node_at ss c)

abbrev pub file_at : Option VfsNode → Option Bytes
file_at none = none
file_at (some n) = file_of n

unfoldable pub resolve_abs : VfsNode → Bytes → Option Bytes
unfolding node_at
resolve_abs root raw = file_at (node_at (split_path raw) root)

-- The loop of `transform_rel_path` over the target's segments: `pop` on an empty list does nothing.
unfoldable pub follow : List Bytes → List Bytes → List Bytes
follow cur [] = cur
follow cur (t ∷ ts) = if eqb t (codes "..") then follow (init cur) ts else follow (cur ++ t ∷ []) ts

unfoldable pub transform_rel_path : Bytes → Bytes → Bytes
transform_rel_path current target =
    join b_slash (follow (init (split_path current)) (split_path target))

abbrev pub suffixes : List Bytes
suffixes = [] ∷ codes ".mjs" ∷ codes ".js" ∷ codes "/index.mjs" ∷ codes "/index.js" ∷ []

abbrev pub first_hit : Bytes → Option Bytes → Option Bytes → Option Bytes
first_hit s none rest = rest
first_hit s (some x) rest = some (join b_slash (split_path s))

unfoldable pub try_suffixes : VfsNode → Bytes → List Bytes → Option Bytes
try_suffixes root src [] = none
try_suffixes root src (x ∷ xs) =
    first_hit (src ++ x) (resolve_abs root (src ++ x)) (try_suffixes root src xs)

-- `normalize_path`; `none` is the panic.
unfoldable pub normalize_path : VfsNode → Bytes → Option Bytes
normalize_path root src = try_suffixes root src suffixes
