-- ===== src/Parameters.antt =====
-- internal/controller/parameters.go: PostgreSQL parameters computed from templates.
pub mod Laws
pub mod Ranges
use Prim.Native.Char.{Char, code}
use zalando_vertical_autosca.Common.{
  ℕ, String, ◌<>◌, Bool, true, false, not, ◌&&◌, ◌||◌, List, [], ◌∷◌, leb, ◌==◌, str_eq,
  if◌then◌else◌,
}
use zalando_vertical_autosca.Common.Int.{ℤ, pos, ◌+ℤ◌, ◌*ℤ◌, ltb_ℤ, eqb_ℤ, div_trunc, wrap64}
use zalando_vertical_autosca.Common.Errors.{Result, ok, err, plain, wrapped, wrap_error, GoError}
use zalando_vertical_autosca.Platform.{Templates, Runtime}
use text.Mathlib.Text.{starts_with}

-- The functions of `templateFuncs`, on int64.
unfoldable pub template_div : ℤ → ℤ → Result ℤ
template_div a b =
    if eqb_ℤ b (pos 0) then err (plain "division by zero") else ok (wrap64 (div_trunc a b))

unfoldable pub template_mul : ℤ → ℤ → ℤ
template_mul a b = wrap64 (a *ℤ b)

unfoldable pub template_add : ℤ → ℤ → ℤ
template_add a b = wrap64 (a +ℤ b)

unfoldable pub template_max : ℤ → ℤ → ℤ
template_max a b = if ltb_ℤ b a then a else b

unfoldable pub template_funcs : List (String × (ℤ → ℤ → Result ℤ))
template_funcs =
    ("div", template_div)
    ∷ ("mul", λ a b. ok (template_mul a b))
    ∷ ("add", λ a b. ok (template_add a b))
    ∷ ("max", λ a b. ok (template_max a b))
    ∷ []

pub record ParameterData : Type 0 where
  pub memory : ℤ
  pub cpu : ℤ

-- `unicode.IsSpace`
unfoldable pub is_space : ℕ → Bool
is_space c =
    (leb 9 c && leb c 13)
    || c == 32
    || c == 0x85
    || c == 0xa0
    || c == 0x1680
    || (leb 0x2000 c && leb c 0x200a)
    || c == 0x2028
    || c == 0x2029
    || c == 0x202f
    || c == 0x205f
    || c == 0x3000

unfoldable pub trim_left : String → String
unfolding is_space
trim_left String.[] = String.[]
trim_left (String.◌∷◌ c s) = if is_space (code c) then trim_left s else String.◌∷◌ c s

unfoldable pub trim_right : String → String
unfolding is_space
trim_right String.[] = String.[]
trim_right (String.◌∷◌ c s) =
    let rest = trim_right s in
    if str_eq rest "" && is_space (code c) then String.[] else String.◌∷◌ c rest

-- `strings.TrimSpace`
unfoldable pub trim_space : String → String
unfolding trim_left trim_right
trim_space s = trim_right (trim_left s)

module _ (templates : Templates) (runtime : Runtime) where
  open templates use {Template, parse_template, execute}

  abbrev trimmed : Result String → Result String
  trimmed (ok s) = ok (trim_space s)
  trimmed (err e) = err (wrapped "executing template" e)

  execute_parsed : Result Template → ParameterData → Result String
  execute_parsed (err e) params = err (wrapped "parsing template" e)
  execute_parsed (ok t) params =
      trimmed (execute t (("memory", params.memory) ∷ ("cpu", params.cpu) ∷ []) template_funcs)

  -- `evaluateParameter`
  unfoldable pub evaluate_parameter : String → String → ParameterData → Result String
  unfolding execute_parsed
  evaluate_parameter name template_text params =
      if not (starts_with (trim_space template_text) "{{")
      then ok template_text
      else execute_parsed (parse_template name template_text) params

  abbrev prepend_value :
      String → Result String → Result (List (String × String)) → Result (List (String × String))
  prepend_value name (err e) rest = err (wrapped ("evaluating parameter " <> runtime.quote name) e)
  prepend_value name (ok value) (err e) = err e
  prepend_value name (ok value) (ok result) = ok ((name, value) ∷ result)

  -- The loop over the map, which stops at the first error.
  unfoldable pub evaluate_all :
      List (String × String) → ParameterData → Result (List (String × String))
  evaluate_all [] params = ok []
  evaluate_all ((name, template_text) ∷ rest) params =
      prepend_value name (evaluate_parameter name template_text params) (evaluate_all rest params)

  -- `CalculatePostgresParameters`. A nil map and an empty one are both the empty list.
  unfoldable pub calculate_postgres_parameters :
      List (String × String) → ℤ → ℤ → Result (List (String × String))
  calculate_postgres_parameters params memory_bytes cpu_cores =
      evaluate_all params (record { memory = memory_bytes; cpu = cpu_cores })
