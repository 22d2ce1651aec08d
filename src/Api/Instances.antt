-- ===== src/Api/Instances.antt =====
-- pkg/polarisapi/service_api.go: AddInstances, DeleteInstances and UpdateInstances with the reading
-- of their responses. The goroutines of a batch request run here in the order of the batches; they
-- share only the list of errors, whose order nothing reads.
pub mod Accepted
use polaris_controller.Common.{
  ℕ, ◌||◌, Bool, eqb, if◌then◌else◌, Option, none, some, List, [], ◌∷◌, ◌++◌,
}
use polaris_controller.Common.Int.{ℤ}
use polaris_controller.Common.Outcome.{
  PError, Error, batch, Outcome, ok, err, panic, pure, lift, of_error, ◌>>=◌,
}
use polaris_controller.Api.Types.{
  Instance, ItemResponse, Body, Request, add_instances, delete_instances, update_instances,
}
use polaris_controller.Api.Http.{Server, Access, Io, status_ok, polaris_http_request}
use polaris_controller.Api.Split.{split_array}

-- PErrors.GetError
unfoldable pub get_error : List PError → Option Error
get_error [] = none
get_error (e ∷ es) = some (batch (e ∷ es))

abbrev pub failed_batch : List PError
failed_batch = record { ip = ""; port = 0; code = 500 } ∷ []

-- One PError for each element whose code is not accepted.
unfoldable pub refused_items : (ℕ → Bool) → List ItemResponse → List PError
refused_items accepted [] = []
refused_items accepted (ins ∷ rest) =
    let more = refused_items accepted rest in
    if accepted ins.code
    then more
    else record { ip = ins.host; port = ins.port; code = ins.code } ∷ more

-- The elements are read if there are any; otherwise the whole batch has failed.
deal_items : (ℕ → Bool) → List ItemResponse → List PError
deal_items accepted [] = failed_batch
deal_items accepted (ins ∷ rest) = refused_items accepted (ins ∷ rest)

abbrev pub accepted_by_add : ℕ → Bool
accepted_by_add code = eqb code 400201 || eqb code 200000 || eqb code 401000

abbrev pub accepted_by_delete : ℕ → Bool
accepted_by_delete code = eqb code 200000 || eqb code 401000

abbrev pub accepted_by_update : ℕ → Bool
accepted_by_update code = eqb code 200002 || eqb code 200000

unfoldable pub deal_add_instance_response : Body → List PError
unfolding deal_items
deal_add_instance_response response =
    if eqb response.code 200000 || eqb response.code 401000
    then []
    else deal_items accepted_by_add response.responses

unfoldable pub deal_delete_instance_response : Body → List PError
unfolding deal_items
deal_delete_instance_response response =
    if eqb response.code 200000 || eqb response.code 401000
    then []
    else deal_items accepted_by_delete response.responses

unfoldable pub deal_update_instance_response : Body → List PError
unfolding deal_items
deal_update_instance_response response =
    if eqb response.code 200000 then [] else deal_items accepted_by_update response.responses

-- The goroutine of one batch of AddInstances: it reads the body whatever the status is.
unfoldable pub read_add : Outcome (ℕ × Option Body) → Outcome (List PError)
read_add (ok (status, none)) = ok failed_batch
read_add (ok (status, some response)) = ok (deal_add_instance_response response)
read_add (err e) = ok failed_batch
read_add panic = panic

-- Those of DeleteInstances and UpdateInstances read the body only if the status is not 200.
unfoldable pub read_unless_ok :
    (Body → List PError) → Outcome (ℕ × Option Body) → Outcome (List PError)
read_unless_ok deal (ok (status, none)) = ok (if eqb status status_ok then [] else failed_batch)
read_unless_ok deal (ok (status, some response)) =
    ok (if eqb status status_ok then [] else deal response)
read_unless_ok deal (err e) = ok failed_batch
read_unless_ok deal panic = panic

module _ (server : Server) (access : Access) where
  -- The goroutines: one request for each batch, and all the errors.
  unfoldable pub send_batches :
      (List Instance → Request)
      → (Outcome (ℕ × Option Body) → Outcome (List PError))
      → List (List Instance)
      → Io (List PError)
  send_batches request read [] = pure []
  send_batches request read (v ∷ batches) = do
    errors ← λ history.
        let (r, history') = polaris_http_request server access (request v) history in
        (read r, history')
    more ← send_batches request read batches
    pure (errors ++ more)

  report : Io (List PError) → Io (Unit {0})
  report m = do errors ← m; lift (of_error (get_error errors))

  unfoldable pub add_instances_request : ℕ → List Instance → ℤ → Io (Unit {0})
  unfolding report
  add_instances_request int_of_inf instances size =
      report (send_batches add_instances read_add (split_array int_of_inf instances size))

  unfoldable pub delete_instances_request : ℕ → List Instance → ℤ → Io (Unit {0})
  unfolding report
  delete_instances_request int_of_inf instances size = report (
      send_batches delete_instances (read_unless_ok deal_delete_instance_response)
        (split_array int_of_inf instances size))

  unfoldable pub update_instances_request : ℕ → List Instance → ℤ → Io (Unit {0})
  unfolding report
  update_instances_request int_of_inf instances size = report (
      send_batches update_instances (read_unless_ok deal_update_instance_response)
        (split_array int_of_inf instances size))
