-- ===== src/Schema/Renames/Apart.antt =====
-- What a rename of a column takes.
use uql.Base.{
  String, Bool, true, false, List, [], ◌∷◌, map, ◌==◌, string_eq, ◌≡◌, inl, inr, refl, sym, subst,
  Has, All, All-Has, filter-Has,
}
use uql.Schema.Match.{Matches, match_by_key, unique_pairs}
use uql.Schema.Match.Splits.{match_by_key-Splits}
use uql.Schema.Match.Unique.{Mutual, unique_pairs-Mutual}
use uql.Schema.Nodes.{ColumnNode, TableNode}
use uql.Schema.Differ.{DiffOptions}
use uql.Schema.Renames.{Rename, renames_of}

map-Has :
    {A B : Type 0} (f : A → B) (y : B) (xs : List A)
    → Has y (map f xs)
    → (x : A) × Has x xs × (y ≡ f x)
map-Has f y [] m = elim m [ ]
map-Has f y (x ∷ xs) (inl e) = (x, inl refl, e)
map-Has f y (x ∷ xs) (inr m) = let (z, n, e) = map-Has f y xs m in (z, inr n, e)

module _ {D : Type 0} (opts : DiffOptions D) (same : ColumnNode D → ColumnNode D → Bool)
    (expected current : TableNode D) where
  abbrev pub unnamed_columns : Matches (ColumnNode D) (ColumnNode D)
  unnamed_columns = match_by_key expected.columns current.columns (λ c. c.name) (λ c. c.name)

  -- A rename goes from a column of the database to one of the entity that is the same to `same`, each the one
  -- such for the other among the columns that only one side names, and the two names differ.
  pub renames_of-Mutual :
      (r : Rename)
      → Has r (renames_of opts same expected current)
      → (to : ColumnNode D) × (from : ColumnNode D) × (r
          ≡ record { from = from.name; to = to.name })
        × Mutual same unnamed_columns.created unnamed_columns.dropped (to, from)
        × (same to from ≡ true)
        × ((from.name == to.name) ≡ false)
  unfolding renames_of
  renames_of-Mutual r m =
      let split = unnamed_columns in
      let (p, n, e) =
        map-Has (λ q. record { from = q.1.name; to = q.0.name }) r
          (unique_pairs same split.created split.dropped) m in
      let (a, b) = (unique_pairs-Mutual same split.created split.dropped p).0 n in
      let (d, t) = filter-Has (same p.0) p.1 split.dropped (subst (Has p.1) (sym a) (inl refl)) in
      let (c, u) =
        filter-Has (λ s. same s p.1) p.0 split.created (subst (Has p.0) (sym b) (inl refl)) in
      let parts =
        match_by_key-Splits {K = String} (λ (c : ColumnNode D). c.name)
          (λ (c : ColumnNode D). c.name) expected.columns current.columns in
      (
        p.0,
        p.1,
        e,
        (a, b),
        t,
        All-Has (λ x. (x.name == p.0.name) ≡ false) p.1 split.dropped
            (All-Has (λ s. All (λ x. (x.name == s.name) ≡ false) split.dropped) p.0 split.created
              parts.left_over c)
            d,
      )
