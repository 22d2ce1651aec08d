-- ===== src/Tests/Instances.antt =====
-- Endpoints, instances and batches at concrete inputs.
use mathlib.Core.List.{flatten}
use polaris_controller.Common.{
  ℕ, String, ◌≤◌, ◌≡◌, refl, true, false, some, none, List, [], ◌∷◌, all, length, arith, All,
}
use polaris_controller.Common.Outcome.{Outcome, ok}
use polaris_controller.Common.Dict.{Dict, lookup, insert, merge, index}
use polaris_controller.Address.{
  Address, InstanceSet, SdkInstance, get_address_map_from_endpoints,
  get_address_map_from_polaris_instance, is_sync_instance, add_subsets, add_addresses,
  build_addresses, address_key, choose_weight,
}
use polaris_controller.Address.Panics.{is_read, has_targets, get_address_map_from_endpoints-reads}
use polaris_controller.Common.Int.{pos}
use polaris_controller.Util.Filter.{get_weight_from_service}
use polaris_controller.Util.Text.{itoa, last_part}
use polaris_controller.Api.Split.{split_array}
use polaris_controller.Api.Split.Batches.{flatten-split_array, split_array-short}
use polaris_controller.Controller.Instances.{compare_instance, merge_metadata_with_service}
use polaris_controller.Controller.Instances.Convergence.{
  is_some, put_all, remove_all, endpoints-converge,
}
use polaris_controller.Controller.Instances.Ownership.{merge_metadata_with_service-owned}
use polaris_controller.Common.{eqb, ◌||◌}
use polaris_controller.Api.Types.{Body}
use polaris_controller.Api.Instances.{
  deal_add_instance_response, deal_delete_instance_response, deal_update_instance_response,
}
use polaris_controller.Api.Instances.Accepted.{
  is_empty, all_accepted, deal_instance_response-accepts,
}
use polaris_controller.Tests.{sample_env, reviews, reviews_endpoints, old_instance, sample_config}

abbrev ready_instance : Address
ready_instance = record {
  ip = "10.0.0.1";
  port = 9080;
  pod_name = "reviews-0";
  ordinal = "";
  weight = pos 100;
  healthy = true;
  isolate = false;
  metadata = ("app", "reviews") ∷ [];
  protocol = "http/TCP";
  version = "";
  polaris_instance = none;
}

abbrev expected : InstanceSet
expected = ("10.0.0.1-9080", ready_instance) ∷ []

endpoints_are_read :
    get_address_map_from_endpoints reviews reviews_endpoints sample_env.pods [] ≡ some expected
unfolding get_address_map_from_endpoints add_subsets add_addresses build_addresses address_key
    choose_weight get_weight_from_service itoa last_part insert merge index lookup
endpoints_are_read = refl

stale_instance_is_removed :
    let cur = get_address_map_from_polaris_instance (old_instance ∷ []) "cluster" in
    let (adds, deletes, updates) = compare_instance sample_env reviews expected cur in
    is_some (lookup "10.0.0.9-9080" (put_all adds (remove_all deletes cur)))
    ≡ is_some (lookup "10.0.0.9-9080" expected)
stale_instance_is_removed =
    endpoints-converge sample_env reviews reviews_endpoints sample_env.pods [] (old_instance ∷ [])
      "cluster" expected "10.0.0.9-9080" endpoints_are_read

endpoints_with_target_are_read :
    is_read (get_address_map_from_endpoints reviews reviews_endpoints sample_env.pods [])
    ≡ all has_targets reviews_endpoints.subsets
endpoints_with_target_are_read =
    get_address_map_from_endpoints-reads reviews reviews_endpoints sample_env.pods []

abbrev own_metadata : Dict String
own_metadata = made_of (merge_metadata_with_service sample_env reviews ready_instance)
  where
    made_of : Outcome (Dict String) → Dict String
    made_of (ok metadata) = metadata
    made_of _ = []

abbrev registered : SdkInstance
registered = record old_instance { metadata = some own_metadata }

own_metadata_made : merge_metadata_with_service sample_env reviews ready_instance ≡ ok own_metadata
unfolding merge_metadata_with_service lookup index
own_metadata_made = refl

registered_is_owned : is_sync_instance sample_config.cluster_name registered ≡ true
unfolding lookup
registered_is_owned =
    merge_metadata_with_service-owned sample_env reviews ready_instance registered own_metadata refl
      refl own_metadata_made refl

abbrev five : List ℕ
five = 1 ∷ 2 ∷ 3 ∷ 4 ∷ 5 ∷ []

five_in_batches : flatten (split_array 0 five (pos 2)) ≡ five
five_in_batches = flatten-split_array 0 five 2 (omega arith)

five_in_short_batches : All (λ batch. length batch ≤ 2) (split_array 0 five (pos 2))
five_in_short_batches = split_array-short 0 five 2 (omega arith)

-- One instance exists, and one is new.
abbrev partial_response : Body
partial_response = record {
  code = 200001;
  responses =
      record { code = 400201; host = "10.0.0.1"; port = 9080 }
      ∷ record { code = 200000; host = "10.0.0.2"; port = 9080 }
      ∷ [];
  services = [];
  auth_token = "";
}

partial_response_is_read :
    (is_empty (deal_add_instance_response partial_response) ≡ (
      eqb partial_response.code 200000
      || eqb partial_response.code 401000
      || all_accepted
          (λ c. eqb c 400201 || eqb c 200000 || eqb c 401000)
          partial_response.responses))
    × (is_empty (deal_delete_instance_response partial_response) ≡ (
        eqb partial_response.code 200000
        || eqb partial_response.code 401000
        || all_accepted (λ c. eqb c 200000 || eqb c 401000) partial_response.responses))
    × (is_empty (deal_update_instance_response partial_response) ≡ (
        eqb partial_response.code 200000
        || all_accepted (λ c. eqb c 200002 || eqb c 200000) partial_response.responses))
partial_response_is_read = deal_instance_response-accepts partial_response
