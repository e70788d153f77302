-- ===== src/Parameters/Laws.antt =====
-- Parameters are computed all or none, each under its own name.
use zalando_vertical_autosca.Common.{
  String, ◌≡◌, refl, Option, none, some, List, [], ◌∷◌, arith, str_eq, eq_iff, if◌then◌else◌, inl,
  inr, Bool-cases, ◌<>◌,
}
use mathlib.Core.Path.{subst}
use mathlib.Core.List.{Memᴰ}
use zalando_vertical_autosca.Common.Errors.{Result, ok, err, wrapped, GoError, Result-cases}
use zalando_vertical_autosca.Platform.{Templates, Runtime}
use zalando_vertical_autosca.Vpa.{lookup}
use zalando_vertical_autosca.Parameters.{
  ParameterData, evaluate_parameter, evaluate_all, prepend_value,
}

module _ (templates : Templates) (runtime : Runtime) where
  -- The value under a name, computed from the template under that name.
  abbrev pub Computes : ParameterData → String → Option String → Option String → Type 0
  Computes params name none v = v ≡ none
  Computes params name (some t) v =
      (value : String) × (v ≡ some value)
      × (evaluate_parameter templates runtime name t params ≡ ok value)

  Computes-head :
      (params : ParameterData) (name key t value : String) (o v : Option String)
      → evaluate_parameter templates runtime key t params ≡ ok value
      → Computes params name o v
      → Computes params name
          (if str_eq key name then some t else o)
          (if str_eq key name then some value else v)
  Computes-head params name key t value o v e h = elim (Bool-cases (str_eq key name)) [
    | inl same ↦ rw same (
      value,
      refl,
      subst (λ n. evaluate_parameter templates runtime n t params ≡ ok value)
          ((eq_iff key name).0 same) e,
    )
    | inr other ↦ rw other h
  ]

  prepend_value-ok :
      (name : String) (r : Result String) (rest : Result (List (String × String)))
      (result : List (String × String))
      → prepend_value templates runtime name r rest ≡ ok result
      → (value : String) × (tail : List (String × String)) × (r ≡ ok value)
        × (rest ≡ ok tail)
        × (result ≡ (name, value) ∷ tail)
  prepend_value-ok name (ok value) (ok tail) result h = (value, tail, refl, refl, ground arith)
  prepend_value-ok name (ok value) (err e) result h = absurd (ground arith)
  prepend_value-ok name (err e) rest result h = absurd (ground arith)

  -- If the parameters are computed at all, the result has under a name the value of the policy's
  -- template under that name, and no value if the policy has none.
  pub evaluate_all-Computes :
      (params : List (String × String)) (inputs : ParameterData) (result : List (String × String))
      (name : String)
      → evaluate_all templates runtime params inputs ≡ ok result
      → Computes inputs name (lookup params name) (lookup result name)
  unfolding evaluate_all
  evaluate_all-Computes [] inputs result name h = ground arith
  evaluate_all-Computes ((key, t) ∷ params) inputs result name h =
      let (value, tail, e, f, g) =
        prepend_value-ok key (evaluate_parameter templates runtime key t inputs)
          (evaluate_all templates runtime params inputs) result h in
      rw g (
        Computes-head inputs name key t value (lookup params name) (lookup tail name) e
          (evaluate_all-Computes params inputs tail name f))

  -- If the computation fails, the template under some name of the policy fails, and the error is
  -- that failure, wrapped with the name.
  pub evaluate_all-err :
      (params : List (String × String)) (inputs : ParameterData) (e : GoError)
      → evaluate_all templates runtime params inputs ≡ err e
      → (name : String) × (t : String) × (cause : GoError) × Memᴰ (name, t) params
        × (evaluate_parameter templates runtime name t inputs ≡ err cause)
        × (e ≡ wrapped ("evaluating parameter " <> runtime.quote name) cause)
  unfolding evaluate_all
  evaluate_all-err [] inputs e h = absurd (ground arith)
  evaluate_all-err ((key, t) ∷ params) inputs e h =
      elim (Result-cases (evaluate_parameter templates runtime key t inputs)) [
        | inr (cause, failed) ↦ (key, t, cause, Memᴰ.head refl, failed, ground arith)
        | inl (value, done) ↦ elim (Result-cases (evaluate_all templates runtime params inputs)) [
          | inl (tail, rest) ↦ absurd (ground arith)
          | inr (e', rest) ↦
              let (name, u, cause, m, failed, g) = evaluate_all-err params inputs e' rest in
              (name, u, cause, Memᴰ.tail m, failed, ground arith)
        ]
      ]
