-- ===== src/Component/Trie.antt =====
-- redog-component/src/trie.rs: the trie of domain labels, right to left. The children of a node
-- are a `HashMap`, here the list of its entries; `lowercase` is `str::to_lowercase`.
pub mod Paths
pub mod Longest
pub mod Lookup
mod Tests
use redog.Common.{
  Text, codes, List, [], ◌∷◌, map, reverse, Option, none, some, Bool, if◌then◌else◌, text_eq, split,
  to_ascii_lowercase,
}

mutual
  pub data TrieNode : Type 0 where
    node : Children → Option Text → TrieNode

  pub data Children : Type 0 where
    empty : Children
    entry : Text → TrieNode → Children → Children

-- `TrieNode::default()`
abbrev pub default_node : TrieNode
default_node = node empty none

unfoldable pub get_child : Text → Children → Option TrieNode
get_child k empty = none
get_child k (entry j n cs) = if text_eq j k then some n else get_child k cs

unfoldable pub set_child : Text → TrieNode → Children → Children
set_child k n empty = entry k n empty
set_child k n (entry j m cs) = if text_eq j k then entry k n cs else entry j m (set_child k n cs)

-- `entry(label).or_default()`
unfoldable pub child_or_default : Text → Children → TrieNode
unfolding get_child
child_or_default k cs = elim (get_child k cs) [ none ↦ default_node | some n ↦ n ]

-- The loop over the labels, which goes down and stores the data at the end.
unfoldable pub insert_path : List Text → Text → TrieNode → TrieNode
unfolding set_child child_or_default
insert_path [] value (node cs _) = node cs (some value)
insert_path (k ∷ ks) value (node cs d) =
    node (set_child k (insert_path ks value (child_or_default k cs)) cs) d

-- The labels of a domain, the last one first.
unfoldable pub labels : Text → List Text
unfolding split
labels domain = reverse (split b'.' domain)

abbrev pub exact_marker : Text
exact_marker = codes "__exact__"

unfoldable pub exact_path : List Text → List Text
exact_path [] = exact_marker ∷ []
exact_path (k ∷ ks) = k ∷ exact_path ks

module _ (lowercase : Text → Text) where
  unfoldable pub insert_suffix : Text → Text → TrieNode → TrieNode
  unfolding insert_path labels
  insert_suffix domain value root = insert_path (map lowercase (labels domain)) value root

  unfoldable pub insert_exact : Text → Text → TrieNode → TrieNode
  unfolding insert_path labels exact_path
  insert_exact domain value root =
      insert_path (exact_path (map lowercase (labels domain))) value root

abbrev pub node_data : TrieNode → Option Text
node_data (node cs d) = d

abbrev pub or_last : Option Text → Option Text → Option Text
or_last none last = last
or_last (some v) last = some v

-- The loop of `lookup` over the lower-cased labels.
unfoldable pub walk : TrieNode → Option Text → List Text → Option Text
unfolding get_child
walk n last [] = last
walk (node cs d) last (k ∷ ks) = elim (get_child k cs) [
  | some c ↦ walk c (or_last (node_data c) last) ks
  | none ↦ last
]

unfoldable pub lookup : TrieNode → Text → Option Text
unfolding walk labels to_ascii_lowercase
lookup root domain = walk root none (map (map to_ascii_lowercase) (labels domain))

unfoldable pub contains : TrieNode → Text → Bool
unfolding lookup
contains root domain = elim (lookup root domain) [
  | some _ ↦ redog.Common.true
  | none ↦ redog.Common.false
]
