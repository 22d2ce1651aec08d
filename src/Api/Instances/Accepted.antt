-- ===== src/Api/Instances/Accepted.antt =====
-- Which responses to a batch are taken for a success (pkg/polarisapi/service_api.go).
use polaris_controller.Common.{
  ℕ, ◌≡◌, refl, ◌∙◌, Bool, true, false, ◌&&◌, ◌||◌, not, eqb, if◌then◌else◌, List, [], ◌∷◌, all,
  arith, Bool-cases, inl, inr,
}
use polaris_controller.Api.Types.{Body, ItemResponse}
use polaris_controller.Api.Instances.{
  refused_items, deal_items, accepted_by_add, accepted_by_delete, accepted_by_update,
  deal_add_instance_response, deal_delete_instance_response, deal_update_instance_response,
}

abbrev pub is_empty {ℓ} : {A : Type ℓ} → List A → Bool
is_empty [] = true
is_empty (x ∷ xs) = false

-- There are elements, and each has a code that counts as a success.
abbrev pub all_accepted : (ℕ → Bool) → List ItemResponse → Bool
all_accepted accepted items = not (is_empty items) && all (λ r. accepted r.code) items

is_empty-refused_items :
    (accepted : ℕ → Bool) (items : List ItemResponse)
    → is_empty (refused_items accepted items) ≡ all (λ r. accepted r.code) items
unfolding refused_items
is_empty-refused_items accepted [] = refl
is_empty-refused_items accepted (r ∷ items) = elim (Bool-cases (accepted r.code)) [
  | inl fine ↦ rw (fine, is_empty-refused_items accepted items) refl
  | inr refused ↦ rw refused refl
]

is_empty-deal_items :
    (accepted : ℕ → Bool) (items : List ItemResponse)
    → is_empty (deal_items accepted items) ≡ all_accepted accepted items
unfolding deal_items
is_empty-deal_items accepted [] = refl
is_empty-deal_items accepted (r ∷ items) = is_empty-refused_items accepted (r ∷ items)

or_assoc : (a b c : Bool) → ((a || b) || c) ≡ (a || b || c)
or_assoc a b c = ground arith

of_items :
    (test : Bool) (accepted : ℕ → Bool) (items : List ItemResponse)
    → is_empty (if test then [] else deal_items accepted items)
      ≡ (test || all_accepted accepted items)
of_items true accepted items = refl
of_items false accepted items = is_empty-deal_items accepted items

-- A response to an addition, a deletion or an update of instances yields no error exactly if its
-- code counts as a success of the whole batch, or it has elements and the code of each counts as
-- one: 400201 (an instance that exists) counts for an addition only, 401000 (no permission) for an
-- addition and a deletion, and 200002 (nothing to change) for an update only.
pub deal_instance_response-accepts :
    (response : Body)
    → (is_empty (deal_add_instance_response response) ≡ (
        eqb response.code 200000
        || eqb response.code 401000
        || all_accepted (λ c. eqb c 400201 || eqb c 200000 || eqb c 401000) response.responses))
      × (is_empty (deal_delete_instance_response response) ≡ (
          eqb response.code 200000
          || eqb response.code 401000
          || all_accepted (λ c. eqb c 200000 || eqb c 401000) response.responses))
      × (is_empty (deal_update_instance_response response) ≡ (
          eqb response.code 200000
          || all_accepted (λ c. eqb c 200002 || eqb c 200000) response.responses))
unfolding deal_add_instance_response deal_delete_instance_response deal_update_instance_response
deal_instance_response-accepts response = (
  of_items (eqb response.code 200000 || eqb response.code 401000) accepted_by_add response.responses
      ∙ or_assoc (eqb response.code 200000) (eqb response.code 401000)
          (all_accepted accepted_by_add response.responses),
  of_items (eqb response.code 200000 || eqb response.code 401000) accepted_by_delete
        response.responses
      ∙ or_assoc (eqb response.code 200000) (eqb response.code 401000)
          (all_accepted accepted_by_delete response.responses),
  of_items (eqb response.code 200000) accepted_by_update response.responses,
)
