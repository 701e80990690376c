-- ===== src/Policy/Effects.antt =====
-- What each operation of the policy service does to its state.
use bonipam.Common.{
  ℕ, ◌+◌, String, ◌≡◌, refl, Option, none, some, ◌==◌, arith, nat_eq, ok, Option-cases, Bool-cases,
  Result-cases, inl, inr,
}
use bonipam.Common.Int.{ℤ}
use bonipam.Common.Lists.{length}
use bonipam.Go.Map.{Map, get, put, any_entry}
use bonipam.Go.Text.{trim_space, equal_fold}
use bonipam.Go.Time.{Time}
use bonipam.Policy.Types.{
  draft, published, PolicyDefinition, Policy, CreatePolicyRequest, UpdatePolicyRequest, Outside,
}
use bonipam.Policy.Store.{
  get_version, PolicyService, versions_of, validate_policy, parse_creator, new_policy,
  insert_policy, store_new_policy, create_policy,
}
use bonipam.Policy.Change.{
  rename_policy, next_version, store_version, redefine_policy, update_policy, publish_policy,
  rollback_target, roll_back_to, rollback_found, rollback_policy,
}
use bonipam.Policy.Versions.{
  IsVersioned, store_version-IsVersioned, put-IsVersioned, insert_policy-IsVersioned,
  publish-IsVersioned,
}

-- What a step does: nothing, an insertion of a new policy at version 1, a write of a policy with the
-- same version and definition, or a write with the next version and its definition.
pub data Effect (s t : PolicyService) : Type 0 where
  same : t ≡ s → Effect s t
  inserted :
      (p : Policy) → p.version ≡ 1 → get s.policies p.id ≡ none → t ≡ insert_policy s p → Effect s t
  written :
      (k : String) (p p' : Policy) (marks : Map ℕ)
      → get s.policies k ≡ some p
      → p'.version ≡ p.version
      → p'.definition ≡ p.definition
      → p'.id ≡ p.id
      → t ≡ record s { policies = put s.policies k p'; published_versions = marks }
      → Effect s t
  versioned :
      (k : String) (p p' : Policy) (marks : Map ℕ)
      → get s.policies k ≡ some p
      → p'.version ≡ p.version + 1
      → p'.id ≡ p.id
      → t ≡ record (store_version s k p') { published_versions = marks }
      → Effect s t

pub Effect-IsVersioned : {s t : PolicyService} → Effect s t → IsVersioned s → IsVersioned t
Effect-IsVersioned (same e) v = rw e v
Effect-IsVersioned {s} (inserted p one unused e) v = rw e (insert_policy-IsVersioned s p one v)
Effect-IsVersioned {s} (written k p p' marks at version definition id e) v =
    rw e (put-IsVersioned s k p p' marks at version definition id v)
Effect-IsVersioned {s} (versioned k p p' marks at version id e) v = rw e (
    publish-IsVersioned (store_version s k p') marks
      (store_version-IsVersioned s k p p' at version id v))

-- The parts of the operations.
store_new_policy-Effect :
    (s : PolicyService) (p : Policy)
    → p.version ≡ 1
    → get s.policies p.id ≡ none
    → Effect s (store_new_policy s p).1
unfolding store_new_policy
store_new_policy-Effect s p one unused =
    elim (Bool-cases (any_entry (λ _ existing. equal_fold existing.name p.name) s.policies)) [
      | inl taken ↦ rw taken (same refl)
      | inr free ↦ rw free (inserted p one unused refl)
    ]

rename_policy-keeps :
    (s : PolicyService) (k : String) (p p' : Policy) (name : String)
    → rename_policy s k p name ≡ ok p'
    → (p'.version ≡ p.version) × (p'.definition ≡ p.definition) × (p'.id ≡ p.id)
unfolding rename_policy
rename_policy-keeps s k p p' name h = (ground arith, ground arith, ground arith)

module _ (out : Outside) (s : PolicyService) where
  redefine_policy-Effect :
      (k : String) (p renamed : Policy) (definition : Option PolicyDefinition)
      → get s.policies k ≡ some p
      → renamed.version ≡ p.version
      → renamed.definition ≡ p.definition
      → renamed.id ≡ p.id
      → Effect s (redefine_policy out s k renamed definition).1
  unfolding redefine_policy store_version
  redefine_policy-Effect k p renamed none at version definition id =
      written k p renamed s.published_versions at version definition id refl
  redefine_policy-Effect k p renamed (some d) at version definition id =
      elim (Option-cases (validate_policy out d)) [
        | inl valid ↦
            let p' = next_version renamed d draft none in
            rw (valid, redefine_policy)
              (versioned k p p' s.published_versions at (unfold next_version in ground arith)
                (unfold next_version in ground arith) refl)
        | inr (e, invalid) ↦ rw (invalid, redefine_policy) (same refl)
      ]

  pub update_policy-Effect :
      (policy_id : String) (req : UpdatePolicyRequest)
      → Effect s (update_policy out s policy_id req).1
  unfolding update_policy
  update_policy-Effect policy_id req = elim (Option-cases (out.parse_uuid (trim_space policy_id))) [
    | inl bad ↦ rw (bad, update_policy) (same refl)
    | inr (k, parsed) ↦ elim (Option-cases (get s.policies k)) [
      | inl missing ↦ rw (parsed, missing, update_policy) (same refl)
      | inr (p, at) ↦ elim (Result-cases (rename_policy s k p req.name)) [
        | inr (e, refused) ↦ rw (parsed, at, refused, update_policy) (same refl)
        | inl (renamed, done) ↦
            let (version, definition, id) = rename_policy-keeps s k p renamed req.name done in
            rw (parsed, at, done, update_policy)
              (redefine_policy-Effect k p renamed req.definition at version definition id)
      ]
    ]
  ]

  pub create_policy-Effect :
      (req : CreatePolicyRequest) (id : String) (now : Time)
      → get s.policies id ≡ none
      → Effect s (create_policy out s req id now).1
  unfolding create_policy
  create_policy-Effect req id now unused = elim (Bool-cases (trim_space req.name == "")) [
    | inl blank ↦ rw (blank, create_policy) (same refl)
    | inr named ↦ elim (Option-cases (validate_policy out req.definition)) [
      | inr (e, invalid) ↦ rw (named, invalid, create_policy) (same refl)
      | inl valid ↦ elim (Option-cases (parse_creator out req.created_by)) [
        | inl bad ↦ rw (named, valid, bad, create_policy) (same refl)
        | inr (creator, parsed) ↦
            let p = new_policy (trim_space req.name) req.definition creator id now in
            rw (named, valid, parsed, create_policy)
              (store_new_policy-Effect s p (unfold new_policy in refl)
                (unfold new_policy in unused))
      ]
    ]
  ]

  pub publish_policy-Effect :
      (policy_id : String) (now : Time) → Effect s (publish_policy out s policy_id now).1
  unfolding publish_policy
  publish_policy-Effect policy_id now =
      elim (Option-cases (out.parse_uuid (trim_space policy_id))) [
        | inl bad ↦ rw (bad, publish_policy) (same refl)
        | inr (k, parsed) ↦ elim (Option-cases (get s.policies k)) [
          | inl missing ↦ rw (parsed, missing, publish_policy) (same refl)
          | inr (p, at) ↦
              rw (parsed, at, publish_policy)
                (written k p (record p { status = published; published_at = some now }) _ at refl
                  refl refl refl)
        ]
      ]

  roll_back_to-Effect :
      (k : String) (p : Policy) (d : PolicyDefinition) (now : Time)
      → get s.policies k ≡ some p
      → Effect s (roll_back_to s k p d now).1
  unfolding roll_back_to store_version
  roll_back_to-Effect k p d now at =
      versioned k p (next_version p d published (some now)) _ at (unfold next_version in refl)
        (unfold next_version in refl) refl

  rollback_found-Effect :
      (k : String) (p : Policy) (target : ℤ) (now : Time)
      → get s.policies k ≡ some p
      → Effect s (rollback_found s k p target now).1
  unfolding rollback_found
  rollback_found-Effect k p target now at =
      elim (Bool-cases (nat_eq (length (versions_of s k)) 0)) [
        | inl empty ↦ rw (empty, rollback_found) (same refl)
        | inr some_version ↦ elim (Bool-cases (nat_eq (rollback_target s p target) 0)) [
          | inl nothing ↦ rw (some_version, nothing, rollback_found) (same refl)
          | inr chosen ↦
              elim (Option-cases (get_version (versions_of s k) (rollback_target s p target))) [
                | inl missing ↦ rw (some_version, chosen, missing, rollback_found) (same refl)
                | inr (d, found) ↦
                    rw (some_version, chosen, found, rollback_found)
                      (roll_back_to-Effect k p d now at)
              ]
        ]
      ]

  pub rollback_policy-Effect :
      (policy_id : String) (target : ℤ) (now : Time)
      → Effect s (rollback_policy out s policy_id target now).1
  unfolding rollback_policy
  rollback_policy-Effect policy_id target now =
      elim (Option-cases (out.parse_uuid (trim_space policy_id))) [
        | inl bad ↦ rw (bad, rollback_policy) (same refl)
        | inr (k, parsed) ↦ elim (Option-cases (get s.policies k)) [
          | inl missing ↦ rw (parsed, missing, rollback_policy) (same refl)
          | inr (p, at) ↦ rw (parsed, at, rollback_policy) (rollback_found-Effect k p target now at)
        ]
      ]
