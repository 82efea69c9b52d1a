-- ===== src/Vm/Steps.antt =====
-- One step of a documented run at a time, for a tool whose call is known.
use sieshka.Prelude.{ℕ, suc, ◌≡◌, ap, ◌∙◌, String, Option, none, some, List, ◌∷◌}
use sieshka.Prelude.Dict.{Dict}
use sieshka.Database.{Db, Failure, Result, ok, err}
use sieshka.Vm.{Value, Arg, Values, Registry, Step, tool, find_step, resolve, conclude, execute}

module _ (n : ℕ) (registry : Registry) (steps : List Step) (context outputs : Values) where
  module _ (id name : String) (args : Dict String Arg) (key : String) where
    abbrev rest : Value → Option Step → Db → Option (Result Value × Db)
    rest v next d = execute n registry steps context ((id, v) ∷ (key, v) ∷ outputs) next d

    pub execute_terminal :
        {db db' : Db} {v : Value}
        → registry name (resolve context outputs args) db ≡ (ok v, db')
        → execute (suc n) registry steps context outputs (some (tool id name args key none)) db
          ≡ some (ok v, db')
    unfolding execute
    execute_terminal h =
        ap
          (λ (out : Result Value × Db).
            conclude none (λ target v d. rest v (find_step target steps) d) out.0 out.1)
          h

    pub execute_next :
        {db db' : Db} {v : Value} {r : Option (Result Value × Db)} (target : String)
        → registry name (resolve context outputs args) db ≡ (ok v, db')
        → rest v (find_step target steps) db' ≡ r
        → execute
            (suc n)
            registry
            steps
            context
            outputs
            (some (tool id name args key (some target)))
            db
          ≡ r
    unfolding execute
    execute_next target h more =
        ap
          (λ (out : Result Value × Db).
            conclude (some target) (λ target v d. rest v (find_step target steps) d) out.0 out.1)
          h
        ∙ more

    pub execute_raise :
        {db db' : Db} {f : Failure} (next : Option String)
        → registry name (resolve context outputs args) db ≡ (err f, db')
        → execute (suc n) registry steps context outputs (some (tool id name args key next)) db
          ≡ some (err f, db')
    unfolding execute
    execute_raise next h =
        ap
          (λ (out : Result Value × Db).
            conclude next (λ target v d. rest v (find_step target steps) d) out.0 out.1)
          h
