-- ===== src/Chunker/Clause/Cuts.antt =====
-- Where `find_boundary` cuts: in range, behind the last clause boundary, or before the last
-- conjunction when there is no clause boundary at all.
use lad_translate.Common.{
  ltb, leb, ◌==◌, ltb→lt, leb→le, ltb-false→le, ==_iff, Bool-cases, length, get_or, ℕ, zero, suc,
  ◌+◌, ◌-◌, ◌≤◌, ◌<◌, ◌≡◌, refl, subst, ◌⊎◌, inl, inr, Bool, true, false, ◌&&◌, List, [], arith,
}
use lad_translate.Common.Text.{Text}
use lad_translate.Chunker.Words.{Unicode}
use lad_translate.Chunker.Clause.{
  find_boundary, scan_conjunctions, weak, BoundaryStrength, at_least_medium,
  token_boundary_strength, is_conjunction, scan_clauses,
}

module _ (u : Unicode) (tokens : List Text) where
  -- A clause ends behind the word at index `i`.
  abbrev pub is_clause_end : ℕ → Bool
  is_clause_end i = at_least_medium (token_boundary_strength u (get_or tokens i []))

  -- The word at index `i` is a conjunction.
  abbrev pub opens_clause : ℕ → Bool
  opens_clause i = is_conjunction u (get_or tokens i [])

  -- What the first loop returns over the indices from `lo` up to `hi`.
  record LastClause (lo hi : ℕ) (r : ℕ × BoundaryStrength) : Type 0 where
    found :
        1 ≤ r.0
        → (lo < r.0)
          × (r.0 ≤ hi)
          × (is_clause_end (r.0 - 1) ≡ true)
          × (r.1 ≡ token_boundary_strength u (get_or tokens (r.0 - 1) []))
    later : (i : ℕ) → lo ≤ i → r.0 ≤ i → i < hi → is_clause_end i ≡ false

  scan_clauses-LastClause : (k lo : ℕ) → LastClause lo (lo + k) (scan_clauses u tokens lo k)
  unfolding scan_clauses
  scan_clauses-LastClause zero lo = record {
    found = λ h. absurd (omega arith);
    later = λ i p q r. absurd (omega arith);
  }
  scan_clauses-LastClause (suc k) lo = elim (Bool-cases (is_clause_end (lo + k))) [
    | inl hit ↦ rw hit (record {
      found = λ h.
          let at : lo + k + 1 - 1 ≡ lo + k = omega arith in
          (omega arith, omega arith, rw at hit, rw at);
      later = λ i p q r. absurd (omega arith);
    })
    | inr miss ↦ rw miss (extend miss (scan_clauses-LastClause k lo))
  ]
    where
      extend :
          {r : ℕ × BoundaryStrength}
          → is_clause_end (lo + k) ≡ false
          → LastClause lo (lo + k) r
          → LastClause lo (lo + suc k) r
      extend {r} miss f = record {
        found = λ h. let (a, b, c, d) = f.found h in (a, omega arith, c, d);
        later = λ i p q l. elim (Bool-cases (i == lo + k)) [
          | inl e ↦ rw ((==_iff i (lo + k)).0 e) miss
          | inr ne ↦ f.later i p q (ground arith)
        ];
      }

  -- What the second loop returns over the indices from `lo` up to `hi`, and where it found none.
  record LastConjunction (lo hi : ℕ) (r : ℕ × BoundaryStrength) : Type 0 where
    found : 1 ≤ r.0 → (lo ≤ r.0) × (r.0 < hi) × (opens_clause r.0 ≡ true) × (r.1 ≡ weak)
    later : (i : ℕ) → lo ≤ i → r.0 < i → i < hi → opens_clause i ≡ false

  scan_conjunctions-LastConjunction :
      (k lo : ℕ) → LastConjunction lo (lo + k) (scan_conjunctions u tokens lo k)
  unfolding scan_conjunctions
  scan_conjunctions-LastConjunction zero lo = record {
    found = λ h. absurd (omega arith);
    later = λ i p q r. absurd (omega arith);
  }
  scan_conjunctions-LastConjunction (suc k) lo = elim (Bool-cases (opens_clause (lo + k))) [
    | inl hit ↦ rw hit (record {
      found = λ h. (omega arith, omega arith, hit, refl);
      later = λ i p q r. absurd (omega arith);
    })
    | inr miss ↦ rw miss (extend miss (scan_conjunctions-LastConjunction k lo))
  ]
    where
      extend :
          {r : ℕ × BoundaryStrength}
          → opens_clause (lo + k) ≡ false
          → LastConjunction lo (lo + k) r
          → LastConjunction lo (lo + suc k) r
      extend {r} miss f = record {
        found = λ h. let (a, b, c, d) = f.found h in (a, omega arith, c, d);
        later = λ i p q l. elim (Bool-cases (i == lo + k)) [
          | inl e ↦ rw ((==_iff i (lo + k)).0 e) miss
          | inr ne ↦ f.later i p q (ground arith)
        ];
      }

  -- What a cut at `end` with its strength means, for the minimum `m` of at least one word.
  abbrev pub IsCut : ℕ → Bool → ℕ → BoundaryStrength → Type 0
  IsCut m weak_allowed end strength =
      ((m ≤ end)
        × (end ≤ length tokens)
        × (is_clause_end (end - 1) ≡ true)
        × ((i : ℕ) → end ≤ i → i < length tokens → is_clause_end i ≡ false))
      ⊎ ((weak_allowed ≡ true)
          × (m ≤ end)
          × (end < length tokens)
          × (strength ≡ weak)
          × (opens_clause end ≡ true)
          × ((i : ℕ) → m ≤ i + 1 → i < length tokens → is_clause_end i ≡ false)
          × ((i : ℕ) → end < i → i < length tokens → opens_clause i ≡ false))

  module _ (m : ℕ) (pos : 1 ≤ m) (long : m ≤ length tokens) where
    -- The loops of `find_boundary`, with the ranges that it gives them.
    clauses :
        LastClause (m - 1) (length tokens) (scan_clauses u tokens (m - 1) (length tokens - (m - 1)))
    clauses =
        let e : m - 1 + (length tokens - (m - 1)) ≡ length tokens = omega arith in
        subst
          (λ (hi : ℕ).
            LastClause (m - 1) hi (scan_clauses u tokens (m - 1) (length tokens - (m - 1))))
          e (scan_clauses-LastClause (length tokens - (m - 1)) (m - 1))

    conjunctions :
        LastConjunction m (length tokens) (scan_conjunctions u tokens m (length tokens - m))
    conjunctions =
        let e : m + (length tokens - m) ≡ length tokens = omega arith in
        subst (λ (hi : ℕ). LastConjunction m hi (scan_conjunctions u tokens m (length tokens - m)))
          e (scan_conjunctions-LastConjunction (length tokens - m) m)

    clause-IsCut :
        (weak_allowed : Bool) (end : ℕ) (strength : BoundaryStrength)
        → scan_clauses u tokens (m - 1) (length tokens - (m - 1)) ≡ (end, strength)
        → 1 ≤ end
        → IsCut m weak_allowed end strength
    clause-IsCut weak_allowed end strength e some_cut =
        let c = subst (LastClause (m - 1) (length tokens)) e clauses in
        let (a, b, hit, _) = c.found some_cut in
        inl (omega arith, b, hit, λ i p l. c.later i (omega arith) p l)

    weak-IsCut :
        (weak_allowed : Bool) (end : ℕ) (strength : BoundaryStrength)
        → ltb 0 (scan_clauses u tokens (m - 1) (length tokens - (m - 1))).0 ≡ false
        → weak_allowed ≡ true
        → scan_conjunctions u tokens m (length tokens - m) ≡ (end, strength)
        → 1 ≤ end
        → IsCut m weak_allowed end strength
    weak-IsCut weak_allowed end strength no_clause w e some_cut =
        let c = subst (LastConjunction m (length tokens)) e conjunctions in
        let (a, b, hit, is_weak) = c.found some_cut in
        inr (
          w,
          a,
          b,
          is_weak,
          hit,
          λ i p l. clauses.later i (omega arith) (omega (arith, ltb-false→le _ _ no_clause)) l,
          λ i p l. c.later i (omega arith) p l,
        )

  -- For a positive `m`, a cut that is returned lies behind the last clause boundary that leaves `m`
  -- words in front; or, if there is no such boundary and weak ones are allowed, before the last
  -- such conjunction.
  pub find_boundary-IsCut :
      (m : ℕ) (weak_allowed : Bool) (end : ℕ) (strength : BoundaryStrength)
      → 1 ≤ m
      → find_boundary u tokens m weak_allowed ≡ (end, strength)
      → 1 ≤ end
      → IsCut m weak_allowed end strength
  unfolding find_boundary
  find_boundary-IsCut m weak_allowed end strength pos e some_cut =
      elim (Bool-cases (ltb (length tokens) m)) [
        | inl short ↦ absurd (ground arith)
        | inr long ↦
            let fits = ltb-false→le _ _ long in
            elim (Bool-cases (ltb 0 (scan_clauses u tokens (m - 1) (length tokens - (m - 1))).0)) [
              | inl hit ↦ clause-IsCut m pos fits weak_allowed end strength (ground arith) some_cut
              | inr miss ↦ elim (Bool-cases weak_allowed) [
                | inl w ↦
                    weak-IsCut m pos fits weak_allowed end strength miss w (ground arith) some_cut
                | inr strict ↦ absurd (ground arith)
              ]
            ]
      ]

  pub find_boundary-misses :
      (m : ℕ) (weak_allowed : Bool)
      → 1 ≤ m
      → m ≤ length tokens
      → (find_boundary u tokens m weak_allowed).0 ≡ 0
      → ((i : ℕ) → m ≤ i + 1 → i < length tokens → is_clause_end i ≡ false)
        × (weak_allowed ≡ true → (i : ℕ) → m ≤ i → i < length tokens → opens_clause i ≡ false)
  unfolding find_boundary
  find_boundary-misses m weak_allowed pos long e =
      let scan : ℕ × BoundaryStrength = scan_clauses u tokens (m - 1) (length tokens - (m - 1)) in
      let nothing : scan.0 ≡ 0 = ground arith in
      (
        λ i p l. (clauses m pos long).later i (omega arith) (omega arith) l,
        λ w i p l.
            let dry : (scan_conjunctions u tokens m (length tokens - m)).0 ≡ 0 = ground arith in
            (conjunctions m pos long).later i p (omega arith) l,
      )

  -- Whatever the minimum, a cut lies within the words.
  pub find_boundary-le :
      (m : ℕ) (weak_allowed : Bool) → (find_boundary u tokens m weak_allowed).0 ≤ length tokens
  unfolding find_boundary
  find_boundary-le m weak_allowed =
      let c = scan_clauses-LastClause (length tokens - (m - 1)) (m - 1) in
      let d = scan_conjunctions-LastConjunction (length tokens - m) m in
      elim (Bool-cases (ltb 0 (scan_clauses u tokens (m - 1) (length tokens - (m - 1))).0)) [
        | inl hit ↦ let (a, b, _, _) = c.found (ltb→lt _ _ hit) in ground arith
        | inr miss ↦
            elim (Bool-cases (ltb 0 (scan_conjunctions u tokens m (length tokens - m)).0)) [
              | inl hit ↦ let (a, b, _, _) = d.found (ltb→lt _ _ hit) in ground arith
              | inr no_weak ↦ ground arith
            ]
      ]

  -- Whatever the minimum, a cut leaves that many words in front.
  pub le-find_boundary :
      (m : ℕ) (weak_allowed : Bool)
      → 1 ≤ (find_boundary u tokens m weak_allowed).0
      → m ≤ (find_boundary u tokens m weak_allowed).0
  le-find_boundary zero weak_allowed h = omega arith
  le-find_boundary (suc m) weak_allowed h = front (
      find_boundary-IsCut (suc m) weak_allowed (find_boundary u tokens (suc m) weak_allowed).0
        (find_boundary u tokens (suc m) weak_allowed).1 (omega arith) refl h)
    where
      front :
          {end : ℕ} {strength : BoundaryStrength}
          → IsCut (suc m) weak_allowed end strength
          → suc m ≤ end
      front (inl a) = a.0
      front (inr a) = a.1

  -- For a positive `m`, when at least `m` words are there and no cut is returned, no clause
  -- boundary leaves `m` words in front and, where weak ones are allowed, no conjunction has `m`
  -- words before it.
  pub find_boundary-none :
      (m : ℕ) (weak_allowed : Bool) (i : ℕ)
      → 1 ≤ m
      → m ≤ length tokens
      → (find_boundary u tokens m weak_allowed).0 ≡ 0
      → m ≤ i + 1
      → i < length tokens
      → (is_clause_end i ≡ false) × (weak_allowed && leb m i && opens_clause i ≡ false)
  find_boundary-none m weak_allowed i p k none_found low high =
      let (clauses, conjunctions) = find_boundary-misses m weak_allowed p k none_found in
      (clauses i low high, by_test weak_allowed (leb m i) refl (λ w l. conjunctions w i l high))
    where
      by_test :
          (w b : Bool)
          → leb m i ≡ b
          → (w ≡ true → m ≤ i → opens_clause i ≡ false)
          → w && b && opens_clause i ≡ false
      by_test false b e h = refl
      by_test true false e h = refl
      by_test true true e h = h refl (leb→le _ _ e)
