-- ===== src/Cache/Purge.antt =====
-- The calls of purge of installd/CacheItem.cpp.
use cmds.Common.{Bool, true, false, ◌||◌, ◌≡◌, refl, ap, ◌∙◌, List, [], ◌∷◌, ◌++◌, Bytes, map}
use cmds.Cache.{Item}
use cmds.Cache.Tree.{
  Node, leaf, dir, Forest, nil, cons, child_path, Call, truncate, unlink, rmdir, purge_leaf,
  purge_node, purge_forest, purge,
}

-- The paths of all entries, each after those below it.
mutual
  pub node_paths : Bytes → Node → List Bytes
  node_paths parent (leaf s) = child_path parent s ∷ []
  node_paths parent (dir s group tombstone nodes) =
      forest_paths (child_path parent s) nodes ++ child_path parent s ∷ []

  pub forest_paths : Bytes → Forest → List Bytes
  forest_paths path nil = []
  forest_paths path (cons n nodes) = node_paths path n ++ forest_paths path nodes

abbrev pub call_path : Call → Bytes
call_path (truncate p) = p
call_path (unlink p) = p
call_path (rmdir p) = p

paths-append : (xs ys : List Call) → map call_path (xs ++ ys) ≡ map call_path xs ++ map call_path ys
paths-append [] ys = refl
paths-append (x ∷ xs) ys = ap (◌∷◌ (call_path x)) (paths-append xs ys)

leaf_path : (t : Bool) (p : Bytes) (r : Bool) → call_path (purge_leaf t p r) ≡ p
unfolding purge_leaf
leaf_path true p true = refl
leaf_path false p true = refl
leaf_path true p false = refl
leaf_path false p false = refl

mutual
  unfolding purge_node purge_forest node_paths forest_paths

  purge_node-paths :
      (t : Bool) (parent : Bytes) (n : Node)
      → map call_path (purge_node t parent n) ≡ node_paths parent n
  purge_node-paths t parent (leaf s) =
      ap (λ p. p ∷ []) (leaf_path t (child_path parent s) s.is_regular)
  purge_node-paths t parent (dir s g tomb nodes) =
      paths-append (purge_forest (t || tomb) (child_path parent s) nodes)
        (rmdir (child_path parent s) ∷ [])
      ∙ ap (λ ps. ps ++ child_path parent s ∷ [])
          (purge_forest-paths (t || tomb) (child_path parent s) nodes)

  purge_forest-paths :
      (t : Bool) (path : Bytes) (nodes : Forest)
      → map call_path (purge_forest t path nodes) ≡ forest_paths path nodes
  purge_forest-paths t path nil = refl
  purge_forest-paths t path (cons n nodes) =
      paths-append (purge_node t path n) (purge_forest t path nodes)
      ∙ rw (purge_node-paths t path n, purge_forest-paths t path nodes) refl

-- Purging the item of a directory makes one call for each entry below it, after the calls for those
-- below that entry, and at last one for the directory itself.
purge-paths :
    (item : Item) (nodes : Forest)
    → item.directory ≡ true
    → map call_path (purge item nodes) ≡ forest_paths item.path nodes ++ item.path ∷ []
unfolding purge
purge-paths item nodes h = rw h (
    paths-append (purge_forest item.tombstone item.path nodes) (rmdir item.path ∷ [])
    ∙ ap (λ ps. ps ++ item.path ∷ []) (purge_forest-paths item.tombstone item.path nodes))
