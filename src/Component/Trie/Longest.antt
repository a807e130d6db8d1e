-- ===== src/Component/Trie/Longest.antt =====
-- The specification of a lookup: the data at the longest prefix of the path that has some.
use redog.Common.{
  ◌<◌, Text, List, [], ◌∷◌, ◌++◌, Option, none, some, ◌≡◌, ◌≢◌, refl, ap, sym, ◌∙◌, arith, All,
  length, ◌⊎◌, inl, inr, Option-cases,
}
use redog.Component.Trie.{TrieNode, node, get_child, walk, or_last, node_data}
use redog.Component.Trie.Paths.{value_at}

abbrev pub longest : (List Text → Option Text) → Option Text → List Text → Option Text
longest f last [] = last
longest f last (k ∷ ks) = longest (λ q. f (k ∷ q)) (or_last (f (k ∷ [])) last) ks

longest-none : (last : Option Text) (ks : List Text) → longest (λ _. none) last ks ≡ last
longest-none last [] = refl
longest-none last (k ∷ ks) = longest-none last ks

-- Two maps that agree on the paths whose labels all satisfy `P` have the same longest matches.
pub longest_congr {κ} :
    (P : Text → Type κ) (f g : List Text → Option Text) (last : Option Text) (ks : List Text)
    → ((q : List Text) → All P q → f q ≡ g q)
    → All P ks
    → longest f last ks ≡ longest g last ks
longest_congr P f g last [] h a = refl
longest_congr P f g last (k ∷ ks) h (a, b) =
    ap (λ o. longest (λ q. f (k ∷ q)) (or_last o last) ks) (h (k ∷ []) (a, tt))
    ∙ longest_congr P (λ q. f (k ∷ q)) (λ q. g (k ∷ q)) _ ks (λ q c. h (k ∷ q) (a, c)) b

walk-child :
    (o : Option TrieNode) (last : Option Text) (ks : List Text)
    → ((c : TrieNode) (l : Option Text) → walk c l ks ≡ longest (value_at c) l ks)
    → elim o [ some c ↦ walk c (or_last (node_data c) last) ks | none ↦ last ]
      ≡ longest
          (λ q. elim o [ none ↦ none | some c ↦ value_at c q ])
          (or_last (elim o [ none ↦ none | some c ↦ value_at c [] ]) last)
          ks
unfolding value_at
walk-child none last ks ih = sym (longest-none last ks)
walk-child (some (node cs d)) last ks ih = ih (node cs d) (or_last d last)

-- The loop of `lookup` computes the longest match of the map that the trie stands for.
pub walk-longest :
    (n : TrieNode) (last : Option Text) (ks : List Text)
    → walk n last ks ≡ longest (value_at n) last ks
unfolding walk value_at
walk-longest n last [] = refl
walk-longest (node cs d) last (k ∷ ks) =
    walk-child (get_child k cs) last ks (λ c l. walk-longest c l ks)

-- A longest match is the data at a non-empty prefix, and no longer prefix has any.
pub record IsLongest (f : List Text → Option Text) (ks : List Text) (v : Text) : Type 0 where
  pub prefix : List Text
  pub rest : List Text
  pub splits : ks ≡ prefix ++ rest
  pub prefix_ne_nil : prefix ≢ []
  pub found : f prefix ≡ some v
  pub no_longer : (p r : List Text) → ks ≡ p ++ r → length prefix < length p → f p ≡ none

-- No non-empty prefix has data.
abbrev pub NoMatch : (List Text → Option Text) → List Text → Type 0
NoMatch f ks = (p r : List Text) → ks ≡ p ++ r → p ≢ [] → f p ≡ none

NoMatch-nil : (f : List Text → Option Text) → NoMatch f []
NoMatch-nil f [] r e h = absurd (h refl)
NoMatch-nil f (j ∷ p) r e h = cc

NoMatch-cons :
    (f : List Text → Option Text) (k : Text) (ks : List Text)
    → f (k ∷ []) ≡ none
    → NoMatch (λ q. f (k ∷ q)) ks
    → NoMatch f (k ∷ ks)
NoMatch-cons f k ks here below [] r e h = absurd (h refl)
NoMatch-cons f k ks here below (j ∷ []) r e h = cc
NoMatch-cons f k ks here below (j ∷ i ∷ p) r e h =
    let t : k ≡ j = cc in rw (← t) (below (i ∷ p) r (cc) (λ u. cc))

IsLongest-cons :
    (f : List Text → Option Text) (k : Text) (ks : List Text) {v : Text}
    → IsLongest (λ q. f (k ∷ q)) ks v
    → IsLongest f (k ∷ ks) v
IsLongest-cons f k ks m = record {
  prefix = k ∷ m.prefix;
  rest = m.rest;
  splits = ap (◌∷◌ k) m.splits;
  prefix_ne_nil = λ e. cc;
  found = m.found;
  no_longer = longer;
}
  where
    longer : (p r : List Text) → k ∷ ks ≡ p ++ r → length (k ∷ m.prefix) < length p → f p ≡ none
    longer [] r e h = absurd (omega arith)
    longer (j ∷ p) r e h = let t : k ≡ j = cc in rw (← t) (m.no_longer p r (cc) (omega arith))

IsLongest-here :
    (f : List Text → Option Text) (k : Text) (ks : List Text) {v : Text}
    → f (k ∷ []) ≡ some v
    → NoMatch (λ q. f (k ∷ q)) ks
    → IsLongest f (k ∷ ks) v
IsLongest-here f k ks here below = record {
  prefix = k ∷ [];
  rest = ks;
  splits = refl;
  prefix_ne_nil = λ e. cc;
  found = here;
  no_longer = longer;
}
  where
    longer : (p r : List Text) → k ∷ ks ≡ p ++ r → 1 < length p → f p ≡ none
    longer [] r e h = absurd (omega arith)
    longer (j ∷ []) r e h = absurd (omega arith)
    longer (j ∷ i ∷ p) r e h = let t : k ≡ j = cc in rw (← t) (below (i ∷ p) r (cc) (λ u. cc))

longest-split :
    (f : List Text → Option Text) (last : Option Text) (ks : List Text) {v : Text}
    → longest f last ks ≡ some v
    → IsLongest f ks v ⊎ ((last ≡ some v) × NoMatch f ks)
longest-split f last [] h = inr (h, NoMatch-nil f)
longest-split f last (k ∷ ks) h = elim (longest-split (λ q. f (k ∷ q)) _ ks h) [
  | inl m ↦ inl (IsLongest-cons f k ks m)
  | inr (e, below) ↦ elim (Option-cases (f (k ∷ []))) [
    | inl n ↦ inr (rw n at e, NoMatch-cons f k ks n below)
    | inr (w, s) ↦ inl (IsLongest-here f k ks (s ∙ rw s at e) below)
  ]
]

-- What `longest` finds is a longest match.
pub longest-IsLongest :
    (f : List Text → Option Text) (ks : List Text) {v : Text}
    → longest f none ks ≡ some v
    → IsLongest f ks v
longest-IsLongest f ks h = elim (longest-split f none ks h) [ inl m ↦ m | inr (e, _) ↦ cc ]

longest-NoMatch_from :
    (f : List Text → Option Text) (last : Option Text) (ks : List Text)
    → longest f last ks ≡ none
    → (last ≡ none) × NoMatch f ks
longest-NoMatch_from f last [] h = (h, NoMatch-nil f)
longest-NoMatch_from f last (k ∷ ks) h =
    let (e, below) = longest-NoMatch_from (λ q. f (k ∷ q)) _ ks h in
    elim (Option-cases (f (k ∷ []))) [
      | inl n ↦ (rw n at e, NoMatch-cons f k ks n below)
      | inr (w, s) ↦ absurd (ground arith)
    ]

-- Where it finds nothing, there is no match.
pub longest-NoMatch :
    (f : List Text → Option Text) (ks : List Text) → longest f none ks ≡ none → NoMatch f ks
longest-NoMatch f ks h = (longest-NoMatch_from f none ks h).1
