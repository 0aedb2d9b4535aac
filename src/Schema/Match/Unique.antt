-- ===== src/Schema/Match/Unique.antt =====
-- What `pairUnique` pairs.
use uql.Base.{
  Has-append, append-Has, Bool, true, List, [], ◌∷◌, if◌then◌else◌, ◌==◌, nat_eq, filter, flat_map,
  length, ◌≡◌, ◌↔◌, inl, inr, refl, sym, ap, ◌∙◌, subst, Has, Has-filter, filter-Has, Bool-cases,
  arith,
}
use uql.Schema.Match.{pair_one, pairs_from, unique_pairs}

only_one : {A : Type 0} (x : A) (xs : List A) → Has x xs → (length xs == 1) ≡ true → xs ≡ x ∷ []
only_one x [] m h = elim m [ ]
only_one x (y ∷ []) (inr m) h = elim m [ ]
only_one x (y ∷ []) (inl e) h = ap (λ z. z ∷ []) (sym e)
only_one x (y ∷ z ∷ zs) m h = ground arith

only_pair : {A : Type 0} (x y : A) → Has x (y ∷ []) → x ≡ y
only_pair x y (inl e) = e
only_pair x y (inr m) = elim m [ ]

module _ {S T : Type 0} (same : S → T → Bool) where
  -- A pair whose parts each have the other as their one counterpart.
  abbrev pub Mutual : List S → List T → S × T → Type 0
  Mutual created dropped p =
      (filter (same p.0) dropped ≡ p.1 ∷ []) × (filter (λ s. same s p.1) created ≡ p.0 ∷ [])

  pair_one-Mutual :
      (created : List S) (s : S) (ts : List T) (p : S × T)
      → Has s created
      → ((t : T) → Has t ts → same s t ≡ true)
      → Has p (pair_one same created s ts)
      → (p.0 ≡ s) × (ts ≡ p.1 ∷ []) × (filter (λ o. same o p.1) created ≡ s ∷ [])
  pair_one-Mutual created s [] p m f h = elim h [ ]
  pair_one-Mutual created s (t ∷ u ∷ ts) p m f h = elim h [ ]
  pair_one-Mutual created s (t ∷ []) p m f h =
      elim (Bool-cases (length (filter (λ o. same o t) created) == 1)) [
        | inl e ↦
            let same_pair =
              only_pair p (s, t) (subst (λ b. Has p (if b then (s, t) ∷ [] else [])) e h) in
            (
              ap (λ q. q.0) same_pair,
              ap (λ q. q.1 ∷ []) (sym same_pair),
              subst (λ u. filter (λ o. same o u) created ≡ s ∷ []) (ap (λ q. q.1) (sym same_pair))
                  (only_one s (filter (λ o. same o t) created)
                    (Has-filter (λ o. same o t) s created m (f t (inl refl))) e),
            )
        | inr e ↦ elim (subst (λ b. Has p (if b then (s, t) ∷ [] else [])) e h) [ ]
      ]

  Mutual-pair_one :
      (created : List S) (s : S) (t : T)
      → filter (λ o. same o t) created ≡ s ∷ []
      → Has (s, t) (pair_one same created s (t ∷ []))
  Mutual-pair_one created s t e = rw e (inl refl)

  pairs_from-Mutual :
      (created : List S) (dropped : List T) (ss : List S) (p : S × T)
      → ((s : S) → Has s ss → Has s created)
      → Has p (pairs_from same created dropped ss)
      → Mutual created dropped p
  unfolding pairs_from flat_map
  pairs_from-Mutual created dropped [] p f h = elim h [ ]
  pairs_from-Mutual created dropped (s ∷ ss) p f h =
      elim (append-Has p (pair_one same created s (filter (same s) dropped)) _ h) [
        | inl m ↦
            let (e, a, b) =
              pair_one-Mutual created s (filter (same s) dropped) p (f s (inl refl))
                (λ t n. (filter-Has (same s) t dropped n).1) m in
            (
              subst (λ z. filter (same z) dropped ≡ p.1 ∷ []) (sym e) a,
              b ∙ ap (λ z. z ∷ []) (sym e),
            )
        | inr m ↦ pairs_from-Mutual created dropped ss p (λ z n. f z (inr n)) m
      ]

  Mutual-pairs_from :
      (created : List S) (dropped : List T) (ss : List S) (s : S) (t : T)
      → Has s ss
      → Mutual created dropped (s, t)
      → Has (s, t) (pairs_from same created dropped ss)
  unfolding pairs_from flat_map
  Mutual-pairs_from created dropped [] s t m h = elim m [ ]
  Mutual-pairs_from created dropped (z ∷ ss) s t (inl e) (a, b) =
      Has-append (s, t) (pair_one same created z (filter (same z) dropped)) _
        (inl (
          subst (λ y. Has (s, t) (pair_one same created y (filter (same y) dropped))) e
            (subst (λ l. Has (s, t) (pair_one same created s l)) (sym a)
              (Mutual-pair_one created s t b))))
  Mutual-pairs_from created dropped (z ∷ ss) s t (inr m) h =
      Has-append (s, t) (pair_one same created z (filter (same z) dropped)) _
        (inr (Mutual-pairs_from created dropped ss s t m h))

  -- Two items are paired exactly where each is the only counterpart of the other.
  pub unique_pairs-Mutual :
      (created : List S) (dropped : List T) (p : S × T)
      → Has p (unique_pairs same created dropped) ↔ Mutual created dropped p
  unfolding unique_pairs
  unique_pairs-Mutual created dropped p = (
    pairs_from-Mutual created dropped created p (λ s m. m),
    λ h.
        Mutual-pairs_from created dropped created p.0 p.1
          (filter-Has (λ s. same s p.1) p.0 created (subst (Has p.0) (sym h.1) (inl refl))).0 h,
  )
