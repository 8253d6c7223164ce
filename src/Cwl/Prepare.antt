-- ===== src/Cwl/Prepare.antt =====
-- What `run_cwl` of cwl.py does before it calls Calrissian: the document is resolved and validated, and
-- the inputs and the arguments are put together.
use openeo_argoworkflows.Base.{
  ℕ, String, ◌<>◌, Bool, true, false, not, ◌||◌, Option, none, some, List, [], ◌∷◌, ◌++◌, ◌==◌,
  if◌then◌else◌, nat_eq, string_eq, ◌>>=◌,
}
use openeo_argoworkflows.Base.Dict
use openeo_argoworkflows.Base.Dict.{Dict}
use openeo_argoworkflows.Base.Json.{Json, object, has_key}
use openeo_argoworkflows.Base.Split.{cut, split}
use openeo_argoworkflows.Base.Text.{Text, codes, text_eq, lower, contains}
use openeo_argoworkflows.Auth.Urls.{strip}
use openeo_argoworkflows.Cwl.Document.{load_cwl_doc}
use openeo_argoworkflows.Cwl.Executor.{ExecutorSpec, executor_parse_cwl_inputs, auto_wire_inputs}

-- `urlparse(value).scheme in ("http", "https")`, for a text with no control characters before the
-- first colon.
unfoldable pub is_url : String → Bool
unfolding cut lower
is_url value = elim (cut b':' (codes value)) [
  | none ↦ false
  | some (scheme, rest) ↦ lower scheme == codes "http" || lower scheme == codes "https"
]

-- `sys.exit(code)`: no code, a number or a message.
pub data ExitCode : Type 0 where
  no_code : ExitCode
  number : ℕ → ExitCode
  message : String → ExitCode

-- How `calrissian.main.main` ends: it returns, or calls `sys.exit`, or raises.
pub data Exit : Type 0 where
  returned : Option ℕ → Exit
  exited : ExitCode → Exit
  crashed : Exit

-- What a run of Calrissian is given: its arguments, the inputs file, and the variables for its pods.
pub record Invocation : Type 0 where
  pub args : List String
  pub inputs : Dict String Json
  pub pod_env : Option (Dict String String)

-- What the process shares with what it calls.
pub record Process : Type 0 where
  pub argv : List String
  pub environ : Dict String String

pub record Validation : Type 0 where
  pub valid : Bool
  pub errors : List Text

-- The calls that this file does not answer: a download, `cwltool --validate` with its return code
-- and error output, the YAML reader, the name of the host, `json.dumps` of a document, Calrissian, and
-- its manifest, if it wrote one that can be read. `none` is an exception.
pub record Tools : Type 0 where
  pub urlretrieve : String → Option String
  pub cwltool : String → Option (ℕ × Text)
  pub safe_load : String → Option Json
  pub hostname : String
  pub calrissian : Invocation → Process → Exit × Process
  pub manifest : Option Json

pub record Options : Type 0 where
  pub validate_only : Bool
  pub max_ram : String
  pub max_cores : String

-- A file that cannot be parsed is no package.
unfoldable pub is_graph_cwl : (String → Option Json) → String → Bool
unfolding strip contains
is_graph_cwl safe_load source =
    if strip (codes source) == [] || not (contains (codes source) (codes "$graph"))
    then false
    else elim (safe_load source) [
      | none ↦ false
      | some v ↦ elim v [ object d ↦ has_key "$graph" d | _ ↦ false ]
    ]

unfoldable pub resolve_cwl_arg : (String → Option Json) → String → String → String
unfolding is_graph_cwl
resolve_cwl_arg safe_load path source =
    if is_graph_cwl safe_load source then path <> "#main" else path

-- The text of the document.
unfoldable pub resolve_cwl : Tools → String → Option String
unfolding is_url
resolve_cwl t cwl = if is_url cwl then t.urlretrieve cwl else some cwl

unfoldable pub error_lines : List Text → List Text
unfolding strip
error_lines [] = []
error_lines (l ∷ ls) = let rest = error_lines ls in if strip l == [] then rest else strip l ∷ rest

unfoldable pub validate_cwl : Tools → String → Option Validation
unfolding error_lines split
validate_cwl t source = elim (t.cwltool source) [
  | none ↦ none
  | some (code, stderr) ↦
      if code == 0
      then some (record { valid = true; errors = [] })
      else some (record { valid = false; errors = error_lines (split b'\n' stderr) })
]

-- The inputs that the document declares; none if it cannot be read.
unfoldable pub declared_inputs : Tools → String → Dict Json ExecutorSpec
unfolding load_cwl_doc executor_parse_cwl_inputs
declared_inputs t source = elim (load_cwl_doc t.safe_load source) [
  | none ↦ []
  | some doc ↦ elim (executor_parse_cwl_inputs doc) [ none ↦ [] | some specs ↦ specs ]
]

-- A document without inputs, and one that cannot be read, leave the inputs as they are.
unfoldable pub wire_inputs :
    Dict Json ExecutorSpec → Dict String String → Dict String Json → Dict String Json
unfolding auto_wire_inputs Dict.get
wire_inputs [] environ inputs = inputs
wire_inputs (d ∷ ds) environ inputs = auto_wire_inputs (λ v. Dict.get v environ) (d ∷ ds) inputs

abbrev pub cdse_env_vars : List String
cdse_env_vars = "AWS_ACCESS_KEY_ID" ∷ "AWS_SECRET_ACCESS_KEY" ∷ "AWS_ENDPOINT_URL_S3" ∷ []

-- All of the variables with their values, or none of them.
unfoldable pub pod_env : List String → Dict String String → Option (Dict String String)
unfolding Dict.get
pod_env [] environ = some []
pod_env (v ∷ vs) environ = do
  value ← Dict.get v environ
  rest ← pod_env vs environ
  some ((v, value) ∷ rest)

pod_env_args : String → Option (Dict String String) → List String
pod_env_args work_dir none = []
pod_env_args work_dir (some env) = "--pod-env-vars" ∷ (work_dir <> "/pod-env-vars.json") ∷ []

unfoldable pub calrissian_args :
    Tools → Options → String → String → Option (Dict String String) → List String
unfolding pod_env_args resolve_cwl_arg
calrissian_args t o work_dir source env =
    ("calrissian"
      ∷ "--max-ram"
      ∷ o.max_ram
      ∷ "--max-cores"
      ∷ o.max_cores
      ∷ "--outdir"
      ∷ (work_dir <> "/output")
      ∷ "--tmp-outdir-prefix"
      ∷ (work_dir <> "/tmp/")
      ∷ "--stdout"
      ∷ (work_dir <> "/cwl-stdout.json")
      ∷ "--stderr"
      ∷ (work_dir <> "/cwl-stderr.log")
      ∷ [])
    ++ (pod_env_args work_dir env
        ++ (resolve_cwl_arg t.safe_load (work_dir <> "/workflow.cwl") source
            ∷ (work_dir <> "/inputs.json")
            ∷ []))

-- What stands before the call: an exception, the answer of a mere validation, or the call.
pub data Prepared : Type 0 where
  refused : Prepared
  checked : Validation → Prepared
  ready : Invocation → Prepared

unfoldable pub invocation :
    Tools → Options → String → Dict String String → String → Dict String Json → Invocation
unfolding pod_env calrissian_args wire_inputs declared_inputs
invocation t o work_dir environ source inputs = record {
  args = calrissian_args t o work_dir source (pod_env cdse_env_vars environ);
  inputs = wire_inputs (declared_inputs t source) environ inputs;
  pod_env = pod_env cdse_env_vars environ;
}

unfoldable pub after_validation :
    Tools
    → Options
    → String
    → Dict String String
    → String
    → Dict String Json
    → Validation
    → Prepared
unfolding invocation
after_validation t o work_dir environ source inputs v =
    if not v.valid
    then refused
    else if o.validate_only
    then checked v
    else ready (invocation t o work_dir environ source inputs)

unfoldable pub prepare_run :
    Tools → Options → String → Dict String String → String → Dict String Json → Prepared
unfolding resolve_cwl validate_cwl after_validation
prepare_run t o work_dir environ cwl inputs = elim (resolve_cwl t cwl) [
  | none ↦ refused
  | some source ↦ elim (validate_cwl t source) [
    | none ↦ refused
    | some v ↦ after_validation t o work_dir environ source inputs v
  ]
]
