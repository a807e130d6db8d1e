-- ===== src/Component/Trie/Tests.antt =====
-- The trie's theorems at a few domains.
use redog.Common.{Text, codes, List, [], ◌∷◌, map, All, to_ascii_lowercase, ◌≡◌, ◌≢◌, arith}
use redog.Component.Trie.{lookup, insert_exact, exact_marker, labels}
use redog.Component.Trie.Lookup.{
  Answers, query, trie_of, inserted_at, lookup-trie_of, lookup-insert_exact,
}

-- `str::to_lowercase` on ASCII.
abbrev lower : Text → Text
lower = map to_ascii_lowercase

abbrev entries : List (Text × Text)
entries = (codes "www.Example.com", codes "w") ∷ (codes "example.com", codes "e") ∷ []

lookup-trie_of_example :
    Answers
      (inserted_at lower entries)
      (query (codes "a.www.EXAMPLE.com"))
      (lookup (trie_of lower entries) (codes "a.www.EXAMPLE.com"))
lookup-trie_of_example = lookup-trie_of lower entries (codes "a.www.EXAMPLE.com")

no_marker : All (λ k. k ≢ exact_marker) (query (codes "b.org"))
unfolding labels
no_marker = (λ e. ground arith, (λ e. ground arith, tt))

lookup-insert_exact_example :
    lookup (insert_exact lower (codes "b.org") (codes "b") (trie_of lower entries)) (codes "b.org")
    ≡ lookup (trie_of lower entries) (codes "b.org")
lookup-insert_exact_example =
    lookup-insert_exact lower (codes "b.org") (codes "b") (trie_of lower entries) (codes "b.org")
      no_marker
