-- ===== src/Component/Trie/Paths.antt =====
-- A trie as a finite map from paths of labels to data, and what insertion does to that map.
use redog.Common.{
  Text, List, [], ◌∷◌, Option, none, some, Bool, true, false, ◌&&◌, if◌then◌else◌, ◌≡◌, refl, ◌↔◌,
  arith, text_eq, text_eq_iff,
}
use redog.Component.Trie.{
  TrieNode, Children, node, empty, entry, get_child, set_child, child_or_default, insert_path,
  default_node,
}

-- The data stored at a path.
unfoldable pub value_at : TrieNode → List Text → Option Text
value_at (node cs d) [] = d
value_at (node cs d) (k ∷ ks) = elim (get_child k cs) [ none ↦ none | some c ↦ value_at c ks ]

unfoldable pub path_eq : List Text → List Text → Bool
path_eq [] [] = true
path_eq (x ∷ xs) (y ∷ ys) = text_eq x y && path_eq xs ys
path_eq _ _ = false

pub path_eq_iff : (p q : List Text) → (path_eq p q ≡ true) ↔ (p ≡ q)
unfolding path_eq
path_eq_iff (x ∷ xs) (y ∷ ys) = ground (arith, text_eq_iff x y, path_eq_iff xs ys)
path_eq_iff _ _ = ground arith

pub get_child-set_child :
    (k j : Text) (n : TrieNode) (cs : Children)
    → get_child j (set_child k n cs) ≡ (if text_eq k j then some n else get_child j cs)
unfolding get_child set_child
get_child-set_child k j n empty = refl
get_child-set_child k j n (entry i m cs) =
    ground (arith, text_eq_iff k j, text_eq_iff i k, text_eq_iff i j, get_child-set_child k j n cs)

pub value_at-default : (q : List Text) → value_at default_node q ≡ none
unfolding value_at get_child
value_at-default [] = refl
value_at-default (k ∷ q) = refl

value_at-child_or_default :
    (k : Text) (ks : List Text) (cs : Children) (d : Option Text)
    → value_at (child_or_default k cs) ks ≡ value_at (node cs d) (k ∷ ks)
unfolding value_at child_or_default
value_at-child_or_default k ks cs d = ground (arith, value_at-default ks)

-- Insertion stores the value at its path, and changes nothing at any other path.
pub value_at-insert_path :
    (p q : List Text) (v : Text) (n : TrieNode)
    → value_at (insert_path p v n) q ≡ (if path_eq p q then some v else value_at n q)
unfolding value_at insert_path path_eq
value_at-insert_path [] [] v (node cs d) = refl
value_at-insert_path [] (k ∷ q) v (node cs d) = refl
value_at-insert_path (k ∷ p) [] v (node cs d) = refl
value_at-insert_path (k ∷ p) (j ∷ q) v (node cs d) = ground (
  arith,
  text_eq_iff k j,
  get_child-set_child k j (insert_path p v (child_or_default k cs)) cs,
  value_at-insert_path p q v (child_or_default k cs),
  value_at-child_or_default k q cs d,
)
