-- ===== src/Parameters/Ranges.antt =====
-- A range over the map of parameters: its order decides nothing but which error is reported.
use zalando_vertical_autosca.Common.{
  some-none, some-inj, ap, String, ◌≡◌, refl, sym, ◌∙◌, Option, none, some, List, [], ◌∷◌, str_eq,
  eq_iff, inl, inr, Bool-cases, true,
}
use mathlib.Core.Path.{subst}
use mathlib.Core.List.{Memᴰ}
use zalando_vertical_autosca.Common.Errors.{err-ok, ok-inj, ok, Result-cases}
use zalando_vertical_autosca.Platform.{Templates, Runtime}
use zalando_vertical_autosca.Vpa.{lookup}
use zalando_vertical_autosca.Parameters.{ParameterData, evaluate_all, evaluate_parameter}
use zalando_vertical_autosca.Parameters.Laws.{Computes, evaluate_all-Computes, evaluate_all-err}

-- A key stands once in a map.
abbrev pub DistinctNames : List (String × String) → Type 0
DistinctNames [] = Unit {0}
DistinctNames ((name, _) ∷ rest) = (lookup rest name ≡ none) × DistinctNames rest

str_eq_refl : (s : String) → str_eq s s ≡ true
str_eq_refl s = (eq_iff s s).1 refl

lookup-some :
    (name t : String) (params : List (String × String))
    → DistinctNames params
    → Memᴰ (name, t) params
    → lookup params name ≡ some t
lookup-some name t [] distinct m = elim m [ ]
lookup-some name t ((key, u) ∷ rest) (fresh, distinct) (Memᴰ.head e) =
    rw (ap (λ p. p.0) e, str_eq_refl key, ap (λ p. p.1) e) refl
lookup-some name t ((key, u) ∷ rest) (fresh, distinct) (Memᴰ.tail m) =
    elim (Bool-cases (str_eq key name)) [
      | inr other ↦ rw other (lookup-some name t rest distinct m)
      | inl same ↦ absurd (
          some-none (
            sym (lookup-some name t rest distinct m)
            ∙ ap (lookup rest) (sym ((eq_iff key name).0 same))
            ∙ fresh))
    ]

module _ (templates : Templates) (runtime : Runtime) where
  -- What is computed under a name is determined by the template.
  Computes-unique :
      (inputs : ParameterData) (name : String) (o v w : Option String)
      → Computes templates runtime inputs name o v
      → Computes templates runtime inputs name o w
      → v ≡ w
  Computes-unique inputs name none v w h k = h ∙ sym k
  Computes-unique inputs name (some t) v w (x, e, f) (y, e', f') =
      e ∙ ap (λ a. some a) (ok-inj (sym f ∙ f')) ∙ sym e'

  Computes-some :
      (inputs : ParameterData) (name t : String) (o v : Option String)
      → o ≡ some t
      → Computes templates runtime inputs name o v
      → (value : String) × (evaluate_parameter templates runtime name t inputs ≡ ok value)
  Computes-some inputs name t none v e h = absurd (some-none (sym e))
  Computes-some inputs name t (some u) v e (value, _, f) =
      (value, ap (λ a. evaluate_parameter templates runtime name a inputs) (some-inj (sym e)) ∙ f)

  -- If the parameters can be computed when the map is ranged over in one order, they can in any
  -- other, and the result has the same value under each name.
  pub evaluate_all_order :
      (params others : List (String × String)) (inputs : ParameterData)
      (result : List (String × String))
      → DistinctNames others
      → ((name : String) → lookup params name ≡ lookup others name)
      → evaluate_all templates runtime params inputs ≡ ok result
      → (other : List (String × String)) × (evaluate_all templates runtime others inputs ≡ ok other)
        × ((name : String) → lookup result name ≡ lookup other name)
  evaluate_all_order params others inputs result distinct alike computed =
      elim (Result-cases (evaluate_all templates runtime others inputs)) [
        | inl (other, done) ↦ (
          other,
          done,
          λ name.
              Computes-unique inputs name (lookup params name) _ _
                (evaluate_all-Computes templates runtime params inputs result name computed)
                (subst (λ o. Computes templates runtime inputs name o (lookup other name))
                  (sym (alike name))
                  (evaluate_all-Computes templates runtime others inputs other name done)),
        )
        | inr (e, failed) ↦
            let (name, t, cause, m, bad, _) =
              evaluate_all-err templates runtime others inputs e failed in
            let (value, good) =
              Computes-some inputs name t (lookup params name) _
                (alike name ∙ lookup-some name t others distinct m)
                (evaluate_all-Computes templates runtime params inputs result name computed) in
            absurd (err-ok (sym bad ∙ good))
      ]
