-- ===== src/Schema/Indexes/Names.antt =====
-- What packages/orm/src/schema/indexDifferences.ts reads off the name of an index, without regard to
-- case: the mark of its kind.
use uql.Base.{
  ℕ, ◌+◌, true, false, ◌&&◌, List, [], ◌∷◌, ◌++◌, reverse, map, Option, none, some, if◌then◌else◌,
  ◌==◌, leb, nat_eq,
}
use uql.Text.{Text, codes}

-- `join`
unfoldable pub join_texts : Text → List Text → Text
join_texts separator [] = []
join_texts separator (t ∷ []) = t
join_texts separator (t ∷ u ∷ ts) = t ++ (separator ++ join_texts separator (u ∷ ts))

abbrev pub lower : ℕ → ℕ
lower c = if leb 65 c && leb c 90 then c + 32 else c

abbrev pub kinds : List Text
kinds = codes "idx" ∷ codes "fk" ∷ codes "ck" ∷ codes "pk" ∷ codes "uk" ∷ codes "uq" ∷ []

-- What follows a prefix, in whatever case it is written.
abbrev pub after_mark : (mark : Text) → Text → Option Text
after_mark [] t = some t
after_mark (c ∷ mark) [] = none
after_mark (c ∷ mark) (d ∷ t) =
    let later = after_mark mark t in if c == lower d then later else none

abbrev pub or_else : Option Text → Option Text → Option Text
or_else none later = later
or_else (some t) later = some t

abbrev pub after_any : List Text → Text → Option Text
after_any [] t = none
after_any (mark ∷ marks) t = or_else (after_mark mark t) (after_any marks t)

-- `name.replace(KIND_PREFIX, '')`, where it matches.
abbrev pub without_kind_prefix : Text → Option Text
without_kind_prefix name = after_any (map (λ k. k ++ codes "_") kinds) name

-- `name.replace(KIND_SUFFIX, '')`, where it matches.
abbrev pub without_kind_suffix : Text → Option Text
without_kind_suffix name =
    elim (after_any (map (λ k. reverse (codes "_" ++ k)) kinds) (reverse name)) [
      | some t ↦ some (reverse t)
      | none ↦ none
    ]

-- `replaceAll('__', '_')`
unfoldable pub single_separators : Text → Text
single_separators [] = []
single_separators (c ∷ []) = c ∷ []
single_separators (c ∷ d ∷ t) = elim (c == 95 && d == 95) [
  | true ↦ 95 ∷ single_separators t
  | false ↦ c ∷ single_separators (d ∷ t)
]

abbrev pub bare : Text → Option Text → Option Text → Text
bare name (some t) prefix = t
bare name none (some t) = t
bare name none none = name

unfoldable pub index_name_stem : Text → Text
index_name_stem name =
    single_separators (bare name (without_kind_suffix name) (without_kind_prefix name))
