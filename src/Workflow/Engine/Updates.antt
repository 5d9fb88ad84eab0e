-- ===== src/Workflow/Engine/Updates.antt =====
-- The results of a workflow, as its units add to them.
use mellivor_kernel.Prelude.{
  String, ◌≡◌, refl, sym, ap, ◌∙◌, true, false, ◌||◌, none, some, List, [], ◌∷◌, ◌++◌, append_assoc,
  append-nil, arith, Bool-cases, Option-cases, inl, inr, Dict, get, put, has, keys, get-put,
  put_new, contains, eq_iff, eq_refl, if◌then◌else◌,
}
use mellivor_kernel.Execution.Result.{ExecutionResult}
use mellivor_kernel.Workflow.Definition.{WorkflowStep, step_names}
use mellivor_kernel.Workflow.Definition.Names.{are_unique}
use mellivor_kernel.Workflow.Units.{is_stopping, first_stopping_failure}
use mellivor_kernel.Workflow.Pool.Stops.{Member}
use mellivor_kernel.Workflow.Engine.Loop.{update}

contains-append :
    (n : String) (xs ys : List String) → contains n (xs ++ ys) ≡ (contains n xs || contains n ys)
contains-append n [] ys = refl
contains-append n (x ∷ xs) ys = ground (arith, contains-append n xs ys)

pub unique_parts :
    (xs ys : List String)
    → are_unique (xs ++ ys) ≡ true
    → (are_unique xs ≡ true) × (are_unique ys ≡ true)
unique_parts [] ys h = (refl, h)
unique_parts (x ∷ xs) ys h = ground (arith, unique_parts xs ys, contains-append x xs ys)

pub unique_apart :
    (n : String) (xs ys : List String)
    → are_unique (xs ++ ys) ≡ true
    → contains n xs ≡ true
    → contains n ys ≡ false
unique_apart n [] ys h m = absurd (cc)
unique_apart n (x ∷ xs) ys h m =
    ground (arith, unique_apart n xs ys, contains-append x xs ys, eq_iff x n)

keys-append {ℓ} : {V : Type ℓ} (d e : Dict V) → keys (d ++ e) ≡ keys d ++ keys e
unfolding keys
keys-append [] e = refl
keys-append ((k, v) ∷ d) e = ap (λ r. k ∷ r) (keys-append d e)

pub has-keys {ℓ} : {V : Type ℓ} (n : String) (d : Dict V) → has n d ≡ contains n (keys d)
unfolding get keys
has-keys n [] = refl
has-keys n ((k, v) ∷ d) = ground (arith, has-keys n d)

absent {ℓ} : {V : Type ℓ} (n : String) (d : Dict V) → contains n (keys d) ≡ false → get n d ≡ none
absent n d h = ground (arith, has-keys n d)

module _ {V : Type 0} where
  -- New keys go to the end, in order.
  pub keys-update :
      (d c : Dict V) → are_unique (keys d ++ keys c) ≡ true → keys (update d c) ≡ keys d ++ keys c
  unfolding update keys
  keys-update d [] h = sym (append-nil (keys d))
  keys-update d ((k, v) ∷ c) h =
      let fresh : contains k (keys d) ≡ false = elim (Bool-cases (contains k (keys d))) [
        | inl there ↦
            absurd (ground (arith, unique_apart k (keys d) (k ∷ keys c) h there, eq_refl k))
        | inr absent ↦ absent
      ] in
      let grown : keys (d ++ (k, v) ∷ []) ≡ keys d ++ k ∷ [] = keys-append d ((k, v) ∷ []) in
      rw (put_new k v d (absent k d fresh)) (
        keys-update (d ++ (k, v) ∷ []) c (
          ap are_unique (ap (λ r. r ++ keys c) grown ∙ append_assoc (keys d) (k ∷ []) (keys c)) ∙ h)
        ∙ ap (λ r. r ++ keys c) grown
        ∙ append_assoc (keys d) (k ∷ []) (keys c))

  pub get-update :
      (n : String) (d c : Dict V)
      → are_unique (keys c) ≡ true
      → get n (update d c) ≡ (if has n c then get n c else get n d)
  unfolding update get keys
  get-update n d [] h = refl
  get-update n d ((k, v) ∷ c) h =
      ground (arith, get-update n (put k v d) c, get-put k n v d, has-keys n c, eq_iff k n)

pub step_names-append :
    (xs ys : List WorkflowStep) → step_names (xs ++ ys) ≡ step_names xs ++ step_names ys
step_names-append [] ys = refl
step_names-append (x ∷ xs) ys = ap (λ r. x.name ∷ r) (step_names-append xs ys)

-- The step that is found to stop the workflow.
pub first_stopping_failure-some :
    (steps : List WorkflowStep) (results : Dict ExecutionResult) (s : WorkflowStep)
    (r : ExecutionResult)
    → first_stopping_failure steps results ≡ some (s, r)
    → Member s steps × (get s.name results ≡ some r) × (is_stopping s r ≡ true)
unfolding first_stopping_failure
first_stopping_failure-some [] results s r h = absurd (cc)
first_stopping_failure-some (t ∷ steps) results s r h = elim (Option-cases (get t.name results)) [
  | inl nothing ↦
      let (m, found, stops) = first_stopping_failure-some steps results s r (ground arith) in
      (inr m, found, stops)
  | inr (result, e) ↦ elim (Bool-cases (is_stopping t result)) [
    | inl stops ↦ (inl (ground arith), ground arith, ground arith)
    | inr goes_on ↦
        let (m, found, stops) = first_stopping_failure-some steps results s r (ground arith) in
        (inr m, found, stops)
  ]
]
