-- ===== src/Core/Operations/Once.antt =====
-- A prepared operation is submitted once (packages/core/src/operations.ts).
use privacy_layer_confidenti.Base.{true, false, ◌≡◌, refl, List, [], ◌∷◌, arith}
use privacy_layer_confidenti.Core.Operations.{
  Attempt, raised, PreparedOperation, already_executed, start, execute,
}

module _ {Receipt Options : Type 0} where
  abbrev pub refused_each : List Options → List (Attempt Receipt)
  refused_each [] = []
  refused_each (options ∷ more) = raised already_executed ∷ refused_each more

module _ {W Address Asset Prepared Receipt Options : Type 0} where
  -- Executing an operation again and again, with what each execution gives and the world at the end.
  unfoldable pub execute_each :
      List Options
      → PreparedOperation W Address Asset Prepared Receipt Options
      → W
      → List (Attempt Receipt) × W
  unfolding execute
  execute_each [] op w = ([], w)
  execute_each (options ∷ more) op w =
      let (r, op', w') = execute options op w in
      let (rs, w'') = execute_each more op' w' in (r ∷ rs, w'')

  started_refused :
      (all : List Options) (op : PreparedOperation W Address Asset Prepared Receipt Options) (w : W)
      → op.execution_started ≡ true
      → execute_each all op w ≡ (refused_each all, w)
  unfolding execute_each execute
  started_refused [] op w h = refl
  started_refused (options ∷ more) op w h = ground (arith, started_refused more op w h)

  -- A fresh operation that is executed any number of times runs its submission exactly once, with
  -- the first options: the first execution gives what the submission gives, also when that throws,
  -- and each later one throws that the operation was already executed and leaves the world alone.
  pub execute-once :
      (options : Options) (more : List Options)
      (op : PreparedOperation W Address Asset Prepared Receipt Options) (w : W)
      → op.execution_started ≡ false
      → execute_each (options ∷ more) op w
        ≡ ((op.execute_fn options w).0 ∷ refused_each more, (op.execute_fn options w).1)
  unfolding execute_each execute
  execute-once options more op w h =
      ground (arith, started_refused more (start op) (op.execute_fn options w).1 refl)
