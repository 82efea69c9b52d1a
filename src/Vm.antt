-- ===== src/Vm.antt =====
-- The governed programs as data (nano_vm.models.Program and Step, as the code builds them), and the
-- virtual machine that runs them, which is a package that the repository does not hold: a
-- parameter, with the behaviour that the comments of app/programs and app/tools rely on.
pub mod Steps
use sieshka.Prelude.{
  ℕ, zero, suc, ◌≡◌, Bool, true, false, ◌&&◌, not, String, Option, none, some, List, [], ◌∷◌, ltb,
  is_some, length, ◌==◌, string_eq, nat_eq, if◌then◌else◌,
}
use sieshka.Prelude.Dict.{Dict, lookup}
use sieshka.Orders.{OrderState}
use sieshka.Database.{Db, Failure, invalid_program, Session, Result, ok, err}

-- A JSON value that passes between the steps.
pub data Value : Type 0 where
  number : ℕ → Value
  ident : ℕ → Value
  state : OrderState → Value
  text : String → Value

-- "$name", "$name.output", and any other text.
pub data Arg : Type 0 where
  var output : String → Arg
  literal : Value → Arg

-- "$name.output < n" and "$name.output >= n".
pub data Condition : Type 0 where
  less at_least : String → ℕ → Condition

pub data Step : Type 0 where
  tool :
      (id name : String) (args : Dict String Arg) (output_key : String) (next_step : Option String)
      → Step
  condition : (id : String) (test : Condition) (then_step otherwise : String) → Step

-- A step without `next_step` is terminal.
pub record Program : Type 0 where
  pub name : String
  pub steps : List Step

abbrev pub Values : Type 0
Values = Dict String Value

-- The registered tools, by name.
abbrev pub Registry : Type 0
Registry = String → Values → Session Value

abbrev id_of : Step → String
id_of (tool id _ _ _ _) = id
id_of (condition id _ _ _) = id

unfoldable pub find_step : String → List Step → Option Step
find_step id [] = none
find_step id (s ∷ steps) = if id_of s == id then some s else find_step id steps

abbrev pub resolve_arg : Values → Values → Arg → Option Value
resolve_arg context outputs (var name) = lookup name context
resolve_arg context outputs (output name) = lookup name outputs
resolve_arg context outputs (literal v) = some v

-- An argument that does not resolve is not passed on.
unfoldable pub resolve : Values → Values → Dict String Arg → Values
resolve context outputs [] = []
resolve context outputs ((key, arg) ∷ args) =
    let rest = resolve context outputs args in
    elim (resolve_arg context outputs arg) [ none ↦ rest | some v ↦ (key, v) ∷ rest ]

abbrev number_of : Option Value → ℕ
number_of (some (number n)) = n
number_of _ = 0

unfoldable pub holds : Condition → Values → Bool
holds (less name n) outputs = ltb (number_of (lookup name outputs)) n
holds (at_least name n) outputs = not (ltb (number_of (lookup name outputs)) n)

-- After a tool: a raise ends the run as failed, and so does the terminal step, as a success.
abbrev pub conclude :
    Option String
    → (String → Value → Db → Option (Result Value × Db))
    → Result Value
    → Db
    → Option (Result Value × Db)
conclude next rest (err f) db = some (err f, db)
conclude none rest (ok v) db = some (ok v, db)
conclude (some target) rest (ok v) db = rest target v db

-- The documented run of a program, each step at most once: the steps are taken from the first one,
-- and a tool's output is known under the step's id and under its `output_key`. `none` is a run that
-- has a missing step or repeats one.
unfoldable pub execute :
    ℕ → Registry → List Step → Values → Values → Option Step → Db → Option (Result Value × Db)
execute zero registry steps context outputs step db = none
execute (suc n) registry steps context outputs none db = none
execute (suc n) registry steps context outputs (some (condition id test then_step otherwise)) db =
    execute n registry steps context outputs
      (find_step (if holds test outputs then then_step else otherwise) steps) db
execute (suc n) registry steps context outputs (some (tool id name args key next)) db =
    let (r, db') = registry name (resolve context outputs args) db in
    conclude next
      (λ target v d.
        execute n registry steps context ((id, v) ∷ (key, v) ∷ outputs) (find_step target steps) d)
      r db'

abbrev pub first_step : List Step → Option Step
first_step [] = none
first_step (s ∷ steps) = some s

unfoldable pub documented_run : Registry → Program → Values → Db → Option (Result Value × Db)
unfolding execute
documented_run registry p context db =
    execute (length p.steps) registry p.steps context [] (first_step p.steps) db

-- Every step that a program names is one of its own, which is what the validator's search wants.
unfoldable pub all_resolve : List Step → List Step → Bool
unfolding find_step
all_resolve all [] = true
all_resolve all (tool _ _ _ _ none ∷ steps) = all_resolve all steps
all_resolve all (tool _ _ _ _ (some target) ∷ steps) =
    is_some (find_step target all) && all_resolve all steps
all_resolve all (condition _ _ then_step otherwise ∷ steps) =
    is_some (find_step then_step all) && is_some (find_step otherwise all) && all_resolve all steps

-- `Trace`: how the run ended, and its id, which may be missing.
pub record Trace : Type 0 where
  pub status : Result Value
  pub trace_id : Option ℕ

-- A policy: the capabilities that each tool is given.
abbrev pub Capabilities : Type 0
Capabilities = Dict String (List String)

-- nano_vm, nano_vm_mcp and PostgreSQL.
pub record Platform : Type 0 where
  -- `ExecutionVM.run`.
  pub run : Registry → Program → Values → Db → Trace × Db
  pub run_documented :
      (registry : Registry) (p : Program) (context : Values) (db db' : Db) (r : Result Value)
      → documented_run registry p context db ≡ some (r, db')
      → ((run registry p context db).0.status ≡ r) × ((run registry p context db).1 ≡ db')
  -- `ProgramValidator(program).validate().is_valid()`.
  pub is_valid : Program → Bool
  pub valid_documented : (p : Program) → all_resolve p.steps p.steps ≡ true → is_valid p ≡ true
  -- `GovernedToolExecutor(policy).check(tool)`, which raises if it is false.
  pub check : Capabilities → String → Bool
  pub check_documented :
      (granted : Capabilities) (name : String)
      → is_some (lookup name granted) ≡ true
      → check granted name ≡ true
  -- The id that the database chooses for a new row of `kitchen_tickets`.
  pub new_id : Db → ℕ
  pub new_id_unused : (db : Db) → lookup (new_id db) db.kitchen_tickets ≡ none
