-- ===== src/Startup/Arguments.antt =====
-- The flags of main and how package flag parses the arguments: the first that is no flag, or `--`,
-- ends them; an error ends the process with status 2, a request for help with 0.
use multinic.Base.{
  ℕ, String, Bool, true, false, ◌||◌, List, [], ◌∷◌, Option, none, some, ◌==◌, if◌then◌else◌, any,
}

pub record Flags : Type 0 where
  pub metrics_addr : String
  pub probe_addr : String
  pub enable_leader_election : Bool
  pub enable_http2 : Bool

abbrev pub default_flags : Flags
default_flags = record {
  metrics_addr = ":8080";
  probe_addr = ":8082";
  enable_leader_election = false;
  enable_http2 = false;
}

-- Of each flag of zap: whether it is Boolean, and which values it takes.
abbrev pub ZapFlags : Type 0
ZapFlags = String → Option (Bool × (String → Bool))

pub data Parsed : Type 0 where
  parsed : Flags → Parsed
  exited : ℕ → Parsed

-- What one argument is.
pub data Argument : Type 0 where
  positional terminator malformed : Argument
  flag : String → Option String → Argument

-- The text before the first `=`, and the text after it.
unfoldable pub split_equals : String → String × Option String
split_equals String.[] = ("", none)
split_equals (String.◌∷◌ c s) =
    let rest = split_equals s in
    if String.◌∷◌ c String.[] == "=" then ("", some s) else (String.◌∷◌ c rest.0, rest.1)

unfoldable pub read_name : String → Argument
unfolding split_equals
read_name String.[] = malformed
read_name (String.◌∷◌ c s) =
    if String.◌∷◌ c String.[] == "-" || String.◌∷◌ c String.[] == "="
    then malformed
    else (let (name, value) = split_equals (String.◌∷◌ c s) in flag name value)

-- After the second dash.
unfoldable pub read_long : String → Argument
unfolding read_name
read_long String.[] = terminator
read_long (String.◌∷◌ c s) = read_name (String.◌∷◌ c s)

-- After the first dash.
unfoldable pub read_dash : String → Argument
unfolding read_long
read_dash String.[] = positional
read_dash (String.◌∷◌ c s) =
    if String.◌∷◌ c String.[] == "-" then read_long s else read_name (String.◌∷◌ c s)

unfoldable pub read_argument : String → Argument
unfolding read_dash
read_argument String.[] = positional
read_argument (String.◌∷◌ c s) = if String.◌∷◌ c String.[] == "-" then read_dash s else positional

-- strconv.ParseBool
unfoldable pub parse_bool : String → Option Bool
parse_bool s =
    if any (λ t. t == s) ("1" ∷ "t" ∷ "T" ∷ "true" ∷ "TRUE" ∷ "True" ∷ [])
    then some true
    else if any (λ t. t == s) ("0" ∷ "f" ∷ "F" ∷ "false" ∷ "FALSE" ∷ "False" ∷ [])
    then some false
    else none

-- What the four flags of main, and those of zap, are.
unfoldable pub is_boolean : ZapFlags → String → Option Bool
is_boolean zap name =
    if name == "metrics-bind-address" || name == "health-probe-bind-address"
    then some false
    else if name == "leader-elect" || name == "enable-http2"
    then some true
    else (elim (zap name) [ none ↦ none | some (boolean, takes) ↦ some boolean ])

unfoldable pub set_boolean : String → Bool → Flags → Flags
set_boolean name b f =
    if name == "leader-elect"
    then record f { enable_leader_election = b }
    else record f { enable_http2 = b }

-- A value that the flag does not take is an error.
unfoldable pub set_flag : ZapFlags → String → String → Flags → Option Flags
unfolding parse_bool set_boolean
set_flag zap name value f =
    if name == "metrics-bind-address"
    then some (record f { metrics_addr = value })
    else if name == "health-probe-bind-address"
    then some (record f { probe_addr = value })
    else if name == "leader-elect" || name == "enable-http2"
    then (elim (parse_bool value) [ none ↦ none | some b ↦ some (set_boolean name b f) ])
    else (elim (zap name) [
      | none ↦ none
      | some (boolean, takes) ↦ if takes value then some f else none
    ])

-- What one flag asks for: a value is set, the next argument is the value, or the process ends.
pub data Demand : Type 0 where
  set_to : String → Demand
  take_next : Demand
  end_with : ℕ → Demand

unfoldable pub ask : ZapFlags → String → Option String → Demand
unfolding is_boolean
ask zap name value = elim (is_boolean zap name) [
  | none ↦ if name == "help" || name == "h" then end_with 0 else end_with 2
  | some boolean ↦ elim value [
    | some v ↦ set_to v
    | none ↦ if boolean then set_to "true" else take_next
  ]
]

unfoldable pub parse_flags : ZapFlags → List String → Flags → Parsed
unfolding read_argument ask set_flag
parse_flags zap [] f = parsed f
parse_flags zap (a ∷ []) f = elim (read_argument a) [
  | positional ↦ parsed f
  | terminator ↦ parsed f
  | malformed ↦ exited 2
  | flag name value ↦ elim (ask zap name value) [
    | end_with code ↦ exited code
    | take_next ↦ exited 2
    | set_to v ↦ elim (set_flag zap name v f) [ none ↦ exited 2 | some f' ↦ parsed f' ]
  ]
]
parse_flags zap (a ∷ b ∷ rest) f = elim (read_argument a) [
  | positional ↦ parsed f
  | terminator ↦ parsed f
  | malformed ↦ exited 2
  | flag name value ↦ elim (ask zap name value) [
    | end_with code ↦ exited code
    | take_next ↦ elim (set_flag zap name b f) [
      | none ↦ exited 2
      | some f' ↦ parse_flags zap rest f'
    ]
    | set_to v ↦ elim (set_flag zap name v f) [
      | none ↦ exited 2
      | some f' ↦ parse_flags zap (b ∷ rest) f'
    ]
  ]
]
