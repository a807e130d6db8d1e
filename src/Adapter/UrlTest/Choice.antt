-- ===== src/Adapter/UrlTest/Choice.antt =====
-- Which member a round of tests chooses.
use redog.Common.{
  ℕ, zero, suc, ◌+◌, ◌-◌, ◌%◌, ◌≤◌, ◌<◌, true, false, List, [], ◌∷◌, ◌++◌, map, Option, none, some,
  ◌≡◌, refl, ap, sym, ◌∙◌, arith, ◌⊎◌, inl, inr, ltb, get_elem?, length, All, Bool-cases, replicate,
}
use mathlib.Core.List.{append_assoc}
use redog.Adapter.UrlTest.{
  UrlTest, unreachable, test_delay, indexed, min_by_delay, store_delay, store_delays, current_delay,
  choose, check_all,
}
use redog.Core.Error.{Build, debug, release, done, panic, bind_outcome}

store_delay_at :
    (seen rest : List ℕ) (x d : ℕ)
    → store_delay (seen ++ (x ∷ rest)) (length seen) d ≡ done (seen ++ (d ∷ rest))
unfolding store_delay
store_delay_at [] rest x d = refl
store_delay_at (y ∷ seen) rest x d = rw (store_delay_at seen rest x d)

length-snoc : (seen : List ℕ) (d : ℕ) → length (seen ++ (d ∷ [])) ≡ suc (length seen)
length-snoc [] d = refl
length-snoc (y ∷ seen) d = ap suc (length-snoc seen d)

-- Storing one delay for each member replaces the whole list.
store_delays_at :
    (seen old ds : List ℕ)
    → length old ≡ length ds
    → store_delays (seen ++ old) (indexed (length seen) ds) ≡ done (seen ++ ds)
unfolding store_delays indexed
store_delays_at seen [] [] h = refl
store_delays_at seen [] (d ∷ ds) h = absurd (omega arith)
store_delays_at seen (x ∷ old) [] h = absurd (omega arith)
store_delays_at seen (x ∷ old) (d ∷ ds) h =
    let next = store_delays_at (seen ++ (d ∷ [])) old ds (omega arith) in
    let moved =
      rw (length-snoc seen d, append_assoc seen (d ∷ []) old, append_assoc seen (d ∷ []) ds) at
        next in
    rw (store_delay_at seen old x d) moved

-- An entry of the list that is at most every other.
pub record IsBest (ds : List ℕ) (i d : ℕ) : Type 0 where
  pub stands : get_elem? ds i ≡ some d
  pub least : All (λ e. d ≤ e) ds

All-le_trans : (a b : ℕ) (ds : List ℕ) → a ≤ b → All (λ e. b ≤ e) ds → All (λ e. a ≤ e) ds
All-le_trans a b [] h k = tt
All-le_trans a b (d ∷ ds) h (x, y) = (omega arith, All-le_trans a b ds h y)

-- The smallest delay is found, where there is any.
min_by_delay_lem :
    (k : ℕ) (d : ℕ) (ds : List ℕ)
    → (j m : ℕ) × (min_by_delay (indexed k (d ∷ ds)) ≡ some (k + j, m)) × IsBest (d ∷ ds) j m
unfolding min_by_delay indexed
min_by_delay_lem k d [] = (0, d, ground arith, record { stands = refl; least = (omega arith, tt) })
min_by_delay_lem k d (e ∷ ds) =
    let (j, m, found, best) = min_by_delay_lem (suc k) e ds in
    elim (Bool-cases (ltb m d)) [
      | inl lt ↦ (
        suc j,
        m,
        rw (found, min_by_delay) (rw lt (ap (λ (t : ℕ). some (t, m)) (omega arith))),
        record { stands = best.stands; least = (ground arith, best.least) },
      )
      | inr ge ↦ (
        0,
        d,
        rw (found, min_by_delay) (rw ge (ap (λ (t : ℕ). some (t, d)) (omega arith))),
        record {
          stands = refl;
          least = (omega arith, All-le_trans d m (e ∷ ds) (ground arith) best.least);
        },
      )
    ]

pub All-threshold :
    (c t m : ℕ) (ds : List ℕ) → c ≤ m + t → All (λ e. m ≤ e) ds → All (λ e. c ≤ e + t) ds
All-threshold c t m [] h k = tt
All-threshold c t m (d ∷ ds) h (x, y) = (omega arith, All-threshold c t m ds h y)

least-le : (m i e : ℕ) (ds : List ℕ) → All (λ x. m ≤ x) ds → get_elem? ds i ≡ some e → m ≤ e
least-le m i e [] a h = absurd (ground arith)
least-le m zero e (d ∷ ds) (a, b) h = ground arith
least-le m (suc i) e (d ∷ ds) (a, b) h = least-le m i e ds b h

get_elem?-lt : (ds : List ℕ) (i : ℕ) {e : ℕ} → get_elem? ds i ≡ some e → i < length ds
get_elem?-lt [] i h = absurd (ground arith)
get_elem?-lt (d ∷ ds) zero h = omega arith
get_elem?-lt (d ∷ ds) (suc i) h = omega (arith, get_elem?-lt ds i h)

pub length-map_delay : (l : List (Option ℕ)) → length (map test_delay l) ≡ length l
length-map_delay [] = refl
length-map_delay (d ∷ l) = ap suc (length-map_delay l)

unreachable_delays : (n : ℕ) → map test_delay (replicate n none) ≡ replicate n unreachable
unfolding test_delay
unreachable_delays zero = refl
unreachable_delays (suc n) = ap (◌∷◌ unreachable) (unreachable_delays n)

min_unreachable :
    (k n : ℕ) → min_by_delay (indexed k (replicate (suc n) unreachable)) ≡ some (k, unreachable)
unfolding min_by_delay indexed
min_unreachable k zero = refl
min_unreachable k (suc n) = rw (min_unreachable (suc k) n, min_by_delay)

pub current_unreachable : (n i : ℕ) → current_delay (replicate n unreachable) i ≡ unreachable
unfolding current_delay
current_unreachable zero i = refl
current_unreachable (suc n) zero = refl
current_unreachable (suc n) (suc i) = current_unreachable n i

pub length-replicate : {A : Type 0} (a : A) (n : ℕ) → length (replicate n a) ≡ n
length-replicate a zero = refl
length-replicate a (suc n) = ap suc (length-replicate a n)

module _ {S D : Type 0} where
  -- The lists of a group have one entry for each member.
  abbrev pub IsValid : UrlTest S D → Type 0
  IsValid g = (length g.delays ≡ length g.proxies) × (g.fastest < length g.proxies)

  -- The outcome of a round, `ds` being the delays that it measured: the member stays, and no other
  -- is better by more than the tolerance; or it is the best one now, and is better by more.
  abbrev pub Chosen : UrlTest S D → List ℕ → ℕ → Type 0
  Chosen g ds i =
      ((i ≡ g.fastest) × All (λ d. current_delay ds g.fastest ≤ d + g.tolerance) ds)
      ⊎ ((d : ℕ) × IsBest ds i d × (d + g.tolerance < current_delay ds g.fastest))

  -- A round, given the smallest delay.
  round :
      (b : Build) (measured : List (Option ℕ)) (g : UrlTest S D) {j m : ℕ}
      → length g.delays ≡ length measured
      → min_by_delay (indexed 0 (map test_delay measured)) ≡ some (j, m)
      → check_all b measured g
        ≡ bind_outcome
            (choose b g.tolerance g.fastest
              (current_delay (map test_delay measured) g.fastest)
              (some (j, m)))
            (λ i. done (record g { delays = map test_delay measured; fastest = i }))
  unfolding check_all
  round b measured g n found =
      let stored =
        store_delays_at [] g.delays (map test_delay measured)
          (n ∙ sym (length-map_delay measured)) in
      rw (stored, check_all) (rw found)

  -- On a valid group with one measurement for each member, a round in which some delay and the
  -- tolerance fit a `u16` stores what was measured, and moves to the best member exactly if it is
  -- better by more than the tolerance, in either build. The member in use stays one of the
  -- group's.
  pub check_all_lem :
      (b : Build) (measured : List (Option ℕ)) (g : UrlTest S D) (i d : ℕ)
      → IsValid g
      → length measured ≡ length g.proxies
      → get_elem? (map test_delay measured) i ≡ some d
      → d + g.tolerance < 65536
      → (k : ℕ) × (check_all b measured g
          ≡ done (record g { delays = map test_delay measured; fastest = k }))
        × Chosen g (map test_delay measured) k
        × (k < length g.proxies)
  check_all_lem b [] g i d v n at fits = absurd (ground arith)
  check_all_lem b (x ∷ measured) g i d v n at fits =
      let ds = map test_delay (x ∷ measured) in
      let (j, m, found, best) = min_by_delay_lem 0 (test_delay x) (map test_delay measured) in
      let low : m ≤ d = least-le m i d ds best.least at in
      let step = round b (x ∷ measured) g (omega arith) found in
      let bound : j < length ds = get_elem?-lt ds j best.stands in
      let size = length-map_delay (x ∷ measured) in
      elim (Bool-cases (ltb (m + g.tolerance) (current_delay ds g.fastest))) [
        | inl better ↦
            (j, step ∙ unfold choose in ground arith, inr (m, best, ground arith), omega arith)
        | inr stays ↦ (
          g.fastest,
          step ∙ unfold choose in ground arith,
          inl (
            refl,
            All-threshold (current_delay ds g.fastest) g.tolerance m ds (ground arith) best.least,
          ),
          v.1,
        )
      ]

  -- On a valid group with a tolerance of 1 to 65535, a round in which every member fails
  -- overflows: a debug build panics, and a release build makes the first member the chosen one.
  pub check_all-unreachable :
      (n : ℕ) (g : UrlTest S D)
      → IsValid g
      → suc n ≡ length g.proxies
      → 1 ≤ g.tolerance
      → g.tolerance < 65536
      → (check_all debug (replicate (suc n) none) g ≡ panic)
        × (check_all release (replicate (suc n) none) g
            ≡ done (record g { delays = replicate (suc n) unreachable; fastest = 0 }))
  check_all-unreachable n g v e lo hi =
      let found =
        ap (λ l. min_by_delay (indexed 0 l)) (unreachable_delays (suc n)) ∙ min_unreachable 0 n in
      let size : length g.delays ≡ length (replicate (suc n) none) =
        v.0 ∙ sym e ∙ sym (length-replicate {A = Option ℕ} none (suc n)) in
      let used : current_delay (map test_delay (replicate (suc n) none)) g.fastest ≡ unreachable =
        ap (λ l. current_delay l g.fastest) (unreachable_delays (suc n))
        ∙ current_unreachable (suc n) g.fastest in
      let over : ltb (65535 + g.tolerance) 65536 ≡ false = ground arith in
      let wrapped : (65535 + g.tolerance) % 65536 ≡ g.tolerance - 1 = omega arith in
      let less : ltb (g.tolerance - 1) 65535 ≡ true = ground arith in
      let stored = unreachable_delays (suc n) in
      (
        round debug (replicate (suc n) none) g size found ∙ rw used (unfold choose in rw over),
        round release (replicate (suc n) none) g size found
            ∙ rw used (unfold choose in rw over (rw wrapped (rw less (rw stored)))),
      )
