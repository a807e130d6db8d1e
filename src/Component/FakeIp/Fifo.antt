-- ===== src/Component/FakeIp/Fifo.antt =====
-- A bounded cache that keeps the laws of the crate `lru`, for the tests of the pool: entries
-- leave in the order in which they came.
use redog.Common.{
  ℕ, zero, suc, ◌-◌, ◌≤◌, Bool, true, false, List, [], ◌∷◌, Option, none, some, ◌≡◌, ◌≢◌, refl,
  arith, ◌⊎◌, inl, inr, ◌↔◌, if◌then◌else◌, length, take, Bool-cases,
}
use redog.Common.Cache.{InnerLru, LruLaws}

pub record Fifo (K V : Type 0) : Type 0 where
  pub size : ℕ
  pub entries : List (K × V)

abbrev is_some : {A : Type 0} → Option A → Bool
is_some none = false
is_some (some a) = true

module _ {K V : Type 0} (eq : K → K → Bool) (eq_iff : (j k : K) → (eq j k ≡ true) ↔ (j ≡ k)) where
  unfoldable pub find : K → List (K × V) → Option V
  find k [] = none
  find k ((j, v) ∷ es) = if eq j k then some v else find k es

  unfoldable pub without_key : K → List (K × V) → List (K × V)
  without_key k [] = []
  without_key k ((j, v) ∷ es) =
      let rest = without_key k es in if eq j k then rest else (j, v) ∷ rest

  abbrev pub fifo : InnerLru K V (Fifo K V)
  fifo = record {
    new = λ n. record { size = n; entries = [] };
    get = λ k c. (c, find k c.entries);
    put = λ k v c. record c { entries = (k, v) ∷ take (c.size - 1) c.entries };
    contains = λ k c. is_some (find k c.entries);
    pop = λ k c. (record c { entries = without_key k c.entries }, find k c.entries);
    len = λ c. length c.entries;
    cap = λ c. c.size;
  }

  find-take :
      (k : K) (n : ℕ) (es : List (K × V))
      → (find k (take n es) ≡ find k es) ⊎ (find k (take n es) ≡ none)
  unfolding find
  find-take k zero es = inr refl
  find-take k (suc n) [] = inl refl
  find-take k (suc n) ((j, v) ∷ es) = elim (Bool-cases (eq j k)) [
    | inl e ↦ rw e (inl refl)
    | inr e ↦ rw e (find-take k n es)
  ]

  take_whole : (n : ℕ) (es : List (K × V)) → length es ≤ n → take n es ≡ es
  take_whole zero [] h = refl
  take_whole zero (e ∷ es) h = absurd (omega arith)
  take_whole (suc n) [] h = refl
  take_whole (suc n) (e ∷ es) h = rw (take_whole n es (omega arith)) refl

  find-other : (j k : K) (v : V) (es : List (K × V)) → j ≢ k → find j ((k, v) ∷ es) ≡ find j es
  unfolding find
  find-other j k v es h = elim (Bool-cases (eq k j)) [
    | inl e ↦ absurd (h (cc ((eq_iff k j).0 e)))
    | inr e ↦ rw e refl
  ]

  pub fifo_laws : LruLaws fifo
  unfolding find
  fifo_laws = record {
    cap-new = λ n. refl;
    get-new = λ n k. refl;
    get-get = λ j k c. refl;
    cap-get = λ k c. refl;
    cap-put = λ k v c. refl;
    get-put_self = λ k v c h. rw ((eq_iff k k).1 refl) refl;
    get-put_ne = λ j k v c h.
        rw (find-other j k v (take (c.size - 1) c.entries) h) (find-take j (c.size - 1) c.entries);
    get-put_room = λ j k v c h room.
        rw (find-other j k v (take (c.size - 1) c.entries) h)
          (rw (take_whole (c.size - 1) c.entries (omega arith)) refl);
  }
