-- ===== src/Api/Entries.antt =====
-- The map of proxies: what is found after a change, and what the tunnel finds.
use redog.Common.{
  false, Bool-cases, Text, List, [], ◌∷◌, some, text_eq, text_eq_iff, inl, inr, ◌≡◌, ◌≢◌, refl, sym,
  ap, ◌∙◌, arith,
}
use redog.Core.Adapter.{ProxyAdapter}
use redog.Core.Error.{Outcome, done, panic, done-injective}
use redog.Tunnel.Routing.{find_proxy}
use redog.Api.State.{Entry, adapter_of, find_entry, put_entry, adapters, with_adapter}

module _ {S D : Type 0} where
  pub find-put_entry :
      (k : Text) (e : Entry S D) (es : List (Text × Entry S D)) {f : Entry S D}
      → find_entry k es ≡ some f
      → find_entry k (put_entry k e es) ≡ some e
  unfolding find_entry put_entry
  find-put_entry k e [] h = absurd (ground arith)
  find-put_entry k e ((j, x) ∷ es) h = elim (Bool-cases (text_eq j k)) [
    | inl same ↦ rw same (rw same refl)
    | inr other ↦ rw other (rw other (find-put_entry k e es (rw other at h)))
  ]

  pub find-put_entry_other :
      (k : Text) (e : Entry S D) (es : List (Text × Entry S D)) (i : Text)
      → i ≢ k
      → find_entry i (put_entry k e es) ≡ find_entry i es
  unfolding find_entry put_entry
  find-put_entry_other k e [] i n = refl
  find-put_entry_other k e ((j, x) ∷ es) i n = elim (Bool-cases (text_eq j k)) [
    | inl same ↦
        let differs : text_eq j i ≡ false = elim (Bool-cases (text_eq j i)) [
          | inl t ↦ absurd (n (sym ((text_eq_iff j i).0 t) ∙ (text_eq_iff j k).0 same))
          | inr f ↦ f
        ] in
        rw same (rw differs refl)
    | inr other ↦ rw other (rw (find-put_entry_other k e es i n) refl)
  ]

  pub put_entry-same :
      (k : Text) (e : Entry S D) (es : List (Text × Entry S D))
      → find_entry k es ≡ some e
      → put_entry k e es ≡ es
  unfolding find_entry put_entry
  put_entry-same k e [] h = refl
  put_entry-same k e ((j, x) ∷ es) h = elim (Bool-cases (text_eq j k)) [
    | inl same ↦ let q : x ≡ e = ground arith in rw same (rw q refl)
    | inr other ↦ rw other (ap (◌∷◌ (j, x)) (put_entry-same k e es (rw other at h)))
  ]

  with_adapter-done :
      (name : Text) (o : Outcome (ProxyAdapter S D))
      (rest : Outcome (List (Text × ProxyAdapter S D))) {ps : List (Text × ProxyAdapter S D)}
      → with_adapter name o rest ≡ done ps
      → (p : ProxyAdapter S D) × (qs : List (Text × ProxyAdapter S D)) × (o ≡ done p)
        × (rest ≡ done qs)
        × (ps ≡ (name, p) ∷ qs)
  with_adapter-done name (done p) (done qs) h = (p, qs, refl, refl, sym (done-injective h))
  with_adapter-done name (done p) panic h = absurd (ground arith)
  with_adapter-done name panic rest h = absurd (ground arith)

  pub find-adapters :
      (k : Text) (es : List (Text × Entry S D)) {ps : List (Text × ProxyAdapter S D)}
      {e : Entry S D} {a : ProxyAdapter S D}
      → adapters es ≡ done ps
      → find_entry k es ≡ some e
      → adapter_of e ≡ done a
      → find_proxy k ps ≡ some a
  unfolding adapters find_entry find_proxy
  find-adapters k [] f h g = absurd (ground arith)
  find-adapters k ((j, x) ∷ es) {ps} {e} {a} f h g =
      let (p, qs, o, r, q) = with_adapter-done j (adapter_of x) (adapters es) f in
      rw q (elim (Bool-cases (text_eq j k)) [
        | inl same ↦
            let x_is : x ≡ e = ground arith in
            let p_is : p ≡ a = done-injective (sym o ∙ ap adapter_of x_is ∙ g) in
            rw same (rw p_is refl)
        | inr other ↦ rw other (find-adapters k es r (rw other at h) g)
      ])
