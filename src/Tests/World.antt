-- ===== src/Tests/World.antt =====
-- A small platform: quantities are whole numbers of units, a schedule ticks on the hour, the clock
-- gains a second with each reading, and the one postgresql resource is its memory text.
use zalando_vertical_autosca.Common.{
  ℕ, ◌+◌, ◌*◌, ◌/◌, String, ◌<>◌, ◌≡◌, refl, Option, none, some, List, [], ◌∷◌, arith, str_eq,
  if◌then◌else◌, ◌↔◌,
}
use zalando_vertical_autosca.Common.Int.{
  ℤ, pos, negsuc, ◌+ℤ◌, ◌-ℤ◌, ◌*ℤ◌, ◌<ℤ◌, ◌≤ℤ◌, eqb_ℤ, -ℤ_parts,
}
use zalando_vertical_autosca.Common.Errors.{Result, ok, err, api, not_found, plain}
use zalando_vertical_autosca.Api.{VerticalPodAutoscaler, StatefulSet}
use zalando_vertical_autosca.Platform.{
  Quantities, IsOrder, Gronx, FindsTicks, Json, Fields, object, end, field, Runtime, Templates,
  Client, Platform,
}

abbrev pub gi : ℕ → ℤ
gi n = pos (n * 1073741824)

abbrev find_text : List (String × ℤ) → String → Result ℤ
find_text [] s = err (plain "no quantity")
find_text ((t, q) ∷ rest) s = if str_eq t s then ok q else find_text rest s

abbrev text_of : List (String × ℤ) → ℤ → String
text_of [] q = "0"
text_of ((t, p) ∷ rest) q = if eqb_ℤ p q then t else text_of rest q

abbrev texts : List (String × ℤ)
texts = ("1Gi", gi 1) ∷ ("10Gi", gi 10) ∷ ("20Gi", gi 20) ∷ ("40Gi", gi 40) ∷ []

abbrev pub whole_units : Quantities
whole_units = record {
  Quantity = ℤ;
  value = λ q. q;
  milli_value = λ q. q *ℤ pos 1000;
  cmp = λ q y. q -ℤ y;
  text = text_of texts;
  parse = find_text texts;
  new_quantity = λ n. n;
  new_milli_quantity = λ n. n;
}

subtract_self : (a : ℤ) → a -ℤ a ≡ pos 0
unfolding ◌-ℤ◌
subtract_self a = ground arith

subtract_flip : (a b : ℤ) → ((a -ℤ b) <ℤ pos 0) ↔ (pos 0 <ℤ (b -ℤ a))
subtract_flip a b = ground (arith, -ℤ_parts a b, -ℤ_parts b a)

pub whole_units-IsOrder : IsOrder whole_units
whole_units-IsOrder = record { cmp_refl = subtract_self; cmp_flip = subtract_flip }

abbrev pub hour : ℕ
hour = 3600000000000

abbrev last_hour : ℤ → Result ℤ
last_hour (pos n) = ok (pos (n / hour * hour))
last_hour (negsuc n) = err (plain "before the first tick")

abbrev next_hour : ℤ → Result ℤ
next_hour (pos n) = ok (pos ((n / hour + 1) * hour))
next_hour (negsuc n) = ok (pos 0)

abbrev pub hourly : Gronx
hourly = record {
  is_valid = λ cron. str_eq cron "0 * * * *";
  prev_tick_before = λ cron now included. last_hour now;
  next_tick_after = λ cron now included. next_hour now;
}

abbrev pub OnTheHour : String → ℤ → Type 0
OnTheHour cron t = (k : ℕ) × (t ≡ pos (k * hour))

latest_hour : (now t u : ℤ) → last_hour now ≡ ok t → OnTheHour "" u → u ≤ℤ now → u ≤ℤ t
latest_hour (pos n) t u h (k, e) started = rw e (ground arith)
latest_hour (negsuc n) t u h (k, e) started = absurd (ground arith)

last_hour-OnTheHour : (now t : ℤ) → last_hour now ≡ ok t → OnTheHour "" t × (t ≤ℤ now)
last_hour-OnTheHour (pos n) t h = ((n / hour, ground arith), ground arith)
last_hour-OnTheHour (negsuc n) t h = absurd (ground arith)

last_hour_finds : (now u : ℤ) → OnTheHour "" u → u ≤ℤ now → (t : ℤ) × (last_hour now ≡ ok t)
last_hour_finds (pos n) u tick started = (pos (n / hour * hour), refl)
last_hour_finds (negsuc n) u (k, e) started = absurd (ground arith)

next_hour-OnTheHour : (now t : ℤ) → next_hour now ≡ ok t → OnTheHour "" t × (now <ℤ t)
next_hour-OnTheHour (pos n) t h = ((n / hour + 1, ground arith), ground arith)
next_hour-OnTheHour (negsuc n) t h = ((0, ground arith), ground arith)

pub hourly-FindsTicks : FindsTicks hourly OnTheHour
hourly-FindsTicks = record {
  prev_is_tick = λ cron now t h. last_hour-OnTheHour now t h;
  prev_is_latest = λ cron now t u h tick started. latest_hour now t u h tick started;
  prev_finds = λ cron now u tick started. last_hour_finds now u tick started;
  next_is_tick = λ cron now t h. next_hour-OnTheHour now t h;
}

abbrev mutual
  print_json : Json → String
  print_json (Json.text s) = "\"" <> s <> "\""
  print_json (object fs) = "{" <> print_fields fs <> "}"

  print_fields : Fields → String
  print_fields end = ""
  print_fields (field name j fs) = name <> ":" <> print_json j <> ";" <> print_fields fs

abbrev pub plain_text : Runtime
plain_text = record {
  quote = λ s. "'" <> s <> "'";
  decimal = text_of texts;
  fixed = λ digits x. "x";
  marshal = λ j. ok (print_json j);
  rfc3339 = λ t. "now";
  out_of_range = λ x. negsuc 9223372036854775807;
}

-- The one template that there is prints the memory.
abbrev run_template : String → List (String × ℤ) → Result String
run_template s ((_, memory) ∷ _) = ok (" " <> text_of texts memory <> " ")
run_template s [] = err (plain "no data")

abbrev pub memory_only : Templates
memory_only = record {
  Template = String;
  parse_template = λ name s. if str_eq s "{{ .memory }}" then ok s else err (plain "bad template");
  execute = λ t values functions. run_template t values;
}

-- The fields of an object that is its memory text: its status is "Running".
abbrev read_field : String → List String → Result (Option String)
read_field o [] = err (plain "no field")
read_field o (section_name ∷ path) =
    if str_eq section_name "status"
    then ok (some "Running")
    else if str_eq o ""
    then ok none
    else ok (some o)

-- The clock, and the memory text of the resource.
abbrev pub Server : Type 0
Server = ℤ × String

abbrev pub recommends_20gi : VerticalPodAutoscaler ℤ
recommends_20gi = record {
  name = "vpa";
  recommendation =
      some (record { container_name = "postgres"; target = ("memory", gi 20) ∷ [] } ∷ []);
}

abbrev one_replica : StatefulSet
one_replica = record { replicas = none; updated_replicas = pos 1; ready_replicas = pos 1 }

abbrev pub api_server : Client ℤ
api_server = record {
  World = Server;
  Object = String;
  nested_string = read_field;
  now = λ w. (w.0, (w.0 +ℤ pos 1000000000, w.1));
  get_policy = λ w namespace name. (err (api not_found "no policy"), w);
  get_vpa = λ w namespace name. (ok recommends_20gi, w);
  get_postgresql = λ w namespace name. (ok w.1, w);
  patch_postgresql = λ w namespace name raw. (ok tt, (w.0, "20Gi"));
  get_deployment = λ w namespace name. (err (api not_found "no deployment"), w);
  get_stateful_set = λ w namespace name. (ok one_replica, w);
  get_daemon_set = λ w namespace name. (err (api not_found "no daemon set"), w);
  patch_workload = λ w kind namespace name raw. (ok tt, w);
  patch_status = λ w new old. (ok tt, w);
}

abbrev pub small_platform : Platform
small_platform = record {
  quantities = whole_units;
  gronx = hourly;
  runtime = plain_text;
  templates = memory_only;
  client = api_server;
}
