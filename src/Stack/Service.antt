-- ===== src/Stack/Service.antt =====
-- pkg/stack/service.go: the service that finds stacks by name.
use im_manager.Base.{String, none, some}
use im_manager.Base.Dict.{get}
use im_manager.Errdef.{Result, ok, err, new_not_found}
use im_manager.Stack.Types.{Stack, Stacks}

unfoldable pub find : Stacks → String → Result Stack
find stacks name = elim (get stacks name) [
  | none ↦ err (new_not_found "stack not found: %s")
  | some stack ↦ ok stack
]
