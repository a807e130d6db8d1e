-- ===== src/Component/Trie/Lookup.antt =====
-- What `DomainTrie::lookup` returns, for any trie and for one built by insertions.
use redog.Common.{
  Text, List, [], ◌∷◌, map, Option, none, some, false, if◌then◌else◌, ◌≡◌, ◌≢◌, refl, sym, ◌∙◌, ap,
  fun_ext, All, Bool-cases, Option-cases, inl, inr, to_ascii_lowercase,
}
use redog.Component.Trie.{
  TrieNode, default_node, labels, insert_suffix, insert_exact, exact_path, exact_marker, lookup,
}
use redog.Component.Trie.Longest.{
  longest, longest_congr, walk-longest, IsLongest, longest-IsLongest, NoMatch, longest-NoMatch,
}
use redog.Component.Trie.Paths.{
  value_at, value_at-default, path_eq, path_eq_iff, value_at-insert_path,
}

-- The path that is looked up for a domain.
abbrev pub query : Text → List Text
query domain = map (map to_ascii_lowercase) (labels domain)

lookup-longest :
    (root : TrieNode) (d : Text) → lookup root d ≡ longest (value_at root) none (query d)
unfolding lookup
lookup-longest root d = walk-longest root none (query d)

-- The answer is right for the map `f` from paths to data.
abbrev pub Answers : (List Text → Option Text) → List Text → Option Text → Type 0
Answers f ks (some v) = IsLongest f ks v
Answers f ks none = NoMatch f ks

longest-Answers : (f : List Text → Option Text) (ks : List Text) → Answers f ks (longest f none ks)
longest-Answers f ks = elim (Option-cases (longest f none ks)) [
  | inl n ↦ rw n (longest-NoMatch f ks n)
  | inr (v, s) ↦ rw s (longest-IsLongest f ks s)
]

module _ (lowercase : Text → Text) where
  -- The path at which a suffix is inserted.
  abbrev pub key : Text → List Text
  key domain = map lowercase (labels domain)

  -- The trie after these insertions, the last one first.
  unfoldable pub trie_of : List (Text × Text) → TrieNode
  trie_of [] = default_node
  trie_of ((domain, value) ∷ es) = insert_suffix lowercase domain value (trie_of es)

  -- The data of the last insertion at a path.
  unfoldable pub inserted_at : List (Text × Text) → List Text → Option Text
  inserted_at [] q = none
  inserted_at ((domain, value) ∷ es) q =
      if path_eq (key domain) q then some value else inserted_at es q

  value_at-trie_of :
      (es : List (Text × Text)) (q : List Text) → value_at (trie_of es) q ≡ inserted_at es q
  unfolding trie_of inserted_at insert_suffix
  value_at-trie_of [] q = value_at-default q
  value_at-trie_of ((d, v) ∷ es) q =
      value_at-insert_path (key d) q v (trie_of es) ∙ rw (value_at-trie_of es q)

  -- For every sequence of insertions and every domain, `lookup` answers with the data of the
  -- longest inserted suffix that is made of whole trailing labels of the domain, the last
  -- inserted where one was inserted twice, and with nothing where there is none.
  pub lookup-trie_of :
      (es : List (Text × Text)) (domain : Text)
      → Answers (inserted_at es) (query domain) (lookup (trie_of es) domain)
  lookup-trie_of es d =
      rw
        (lookup-longest (trie_of es) d
          ∙ ap (λ f. longest f none (query d)) (fun_ext (value_at-trie_of es)))
        (longest-Answers (inserted_at es) (query d))

  exact_path-marker : (ks : List Text) → All (λ k. k ≢ exact_marker) (exact_path ks) → ⊥
  unfolding exact_path
  exact_path-marker [] (h, _) = h refl
  exact_path-marker (k ∷ ks) (_, h) = exact_path-marker ks h

  exact_path-miss :
      (ks q : List Text) → All (λ k. k ≢ exact_marker) q → path_eq (exact_path ks) q ≡ false
  exact_path-miss ks q a = elim (Bool-cases (path_eq (exact_path ks) q)) [
    | inl e ↦ absurd (exact_path-marker ks (rw ((path_eq_iff (exact_path ks) q).0 e) a))
    | inr e ↦ e
  ]

  -- An exact rule is never found: `insert_exact` changes the answer for no domain, unless one of
  -- the domain's labels is the marker `__exact__`.
  pub lookup-insert_exact :
      (domain value : Text) (root : TrieNode) (d : Text)
      → All (λ k. k ≢ exact_marker) (query d)
      → lookup (insert_exact lowercase domain value root) d ≡ lookup root d
  unfolding insert_exact
  lookup-insert_exact domain value root d a =
      lookup-longest _ d
      ∙ longest_congr (λ k. k ≢ exact_marker) _ (value_at root) none (query d)
          (λ q b.
            value_at-insert_path (exact_path (key domain)) q value root
            ∙ rw (exact_path-miss (key domain) q b))
          a
      ∙ sym (lookup-longest root d)
