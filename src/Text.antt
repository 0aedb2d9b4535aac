-- ===== src/Text.antt =====
-- JavaScript strings, as the lists of their UTF-16 code units. `codes` is the text of an ASCII
-- literal.
use Prim.Native.Char.{code}
use Prim.Native.String.{String}
use mathlib.Core.Path.{ap₂}
use uql.Base.{
  ℕ, Bool, true, false, ◌&&◌, List, [], ◌∷◌, ◌≡◌, refl, sym, subst, ◌↔◌, Bool-cases, inl, inr,
  false_true, Equal, ◌==◌, nat_eq, ==_iff, ==_refl, if◌then◌else◌, ltb,
}

abbrev pub Text : Type 0
Text = List ℕ

abbrev pub codes : String → Text
codes String.[] = []
codes (String.◌∷◌ c s) = code c ∷ codes s

-- `===`, `startsWith` and the order of `sort`, which compares code units.
abbrev pub same_text : Text → Text → Bool
same_text [] [] = true
same_text (c ∷ s) (d ∷ t) = c == d && same_text s t
same_text _ _ = false

same_text_to : (s t : Text) → same_text s t ≡ true → s ≡ t
same_text_to [] [] h = refl
same_text_to (c ∷ s) (d ∷ t) h = elim (Bool-cases (c == d)) [
  | inl e ↦
      ap₂ (λ x xs. x ∷ xs) ((==_iff c d).0 e)
        (same_text_to s t (subst (λ b. (b && same_text s t) ≡ true) e h))
  | inr e ↦ false_true (sym (subst (λ b. (b && same_text s t) ≡ true) e h))
]
same_text_to [] (d ∷ t) h = cc
same_text_to (c ∷ s) [] h = cc

same_text_refl : (s : Text) → same_text s s ≡ true
same_text_refl [] = refl
same_text_refl (c ∷ s) = rw (==_refl c) (same_text_refl s)

pub same_text_iff : (s t : Text) → (same_text s t ≡ true) ↔ (s ≡ t)
same_text_iff s t = (same_text_to s t, λ e. subst (λ x. same_text s x ≡ true) e (same_text_refl s))

instance abbrev pub text_eq : Equal Text
text_eq = record { same = same_text; same_iff = same_text_iff }

abbrev pub starts_with_text : Text → Text → Bool
starts_with_text [] t = true
starts_with_text (c ∷ s) [] = false
starts_with_text (c ∷ s) (d ∷ t) = c == d && starts_with_text s t

abbrev pub before_text : Text → Text → Bool
before_text [] t = true
before_text (c ∷ s) [] = false
before_text (c ∷ s) (d ∷ t) =
    let later = before_text s t in if ltb c d then true else if c == d then later else false
