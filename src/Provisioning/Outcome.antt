-- ===== src/Provisioning/Outcome.antt =====
-- What scripts/setup_localstack.py leaves in the account, and when it fails.
use event_sourcing_cqrs.Prelude.{
  String, ◌≡◌, refl, ◌⊎◌, inl, inr, Option, none, some, true, false, Memᴰ, Bool-cases,
}
use event_sourcing_cqrs.Exec.{Error, ok, err, pure, Result-cases}
use event_sourcing_cqrs.Exec.Except.{try_except}
use event_sourcing_cqrs.Services.Cloud.{Function}
use event_sourcing_cqrs.Provisioning.{
  Providers, queue_name, role_name, function_name, rule_name, assumed_role, trust_policy,
  url_or_empty, retry_function, retry_rule, is_already_there,
}
use event_sourcing_cqrs.Provisioning.Steps.{
  setup_sqs, setup_iam, create_retry_function, setup_lambda,
}

module _ {Zip : Type 0} (p : Providers Zip) where
  -- The script is left with the queue's URL; or with none, as the queue could not be created and
  -- was not said to be there.
  pub data HasQueue (s₀ : p.sqs.State) : Option String → p.sqs.State → Type 0 where
    is_queue :
        {s : p.sqs.State} (url : String)
        → p.sqs.url_of queue_name s ≡ some url
        → HasQueue s₀ (some url) s
    no_queue :
        {s : p.sqs.State} (e : Error)
        → (p.sqs.create_queue queue_name "86400" s₀).0 ≡ err e
        → p.sqs.already_exists e ≡ false
        → HasQueue s₀ none s

  -- The script is left with the role's ARN; or with the assumed one, as the role could not be
  -- created and was not said to be there.
  pub data HasRole (s₀ : p.iam.State) : String → p.iam.State → Type 0 where
    is_role :
        {s : p.iam.State} (arn : String) → p.iam.arn_of role_name s ≡ some arn → HasRole s₀ arn s
    is_assumed :
        {s : p.iam.State} (e : Error)
        → (p.iam.create_role role_name trust_policy s₀).0 ≡ err e
        → is_already_there e ≡ false
        → HasRole s₀ assumed_role s

  -- The script is left with the ARN of a function that runs the handler that was packed, with that
  -- role, and with that URL or the empty text; or with none, as the handler could not be packed, or
  -- the function not created.
  pub data HasFunction (role_arn : String) (dlq_url : Option String) (s₀ : p.lambda.State)
      : Option String → p.lambda.State → Type 0 where
    is_function :
        {s : p.lambda.State} (arn : String) (f : Function Zip)
        → p.lambda.function_of function_name s ≡ some f
        → p.package_lambda ≡ ok f.zip_file
        → f.handler ≡ "retry_handler.handler"
        → f.role ≡ role_arn
        → Memᴰ ("SQS_DLQ_URL", url_or_empty dlq_url) f.variables
        → HasFunction role_arn dlq_url s₀ (some arn) s
    not_packed :
        {s : p.lambda.State} (e : Error)
        → p.package_lambda ≡ err e
        → HasFunction role_arn dlq_url s₀ none s
    not_created :
        {s : p.lambda.State} (zip_bytes : Zip) (e : Error)
        → p.package_lambda ≡ ok zip_bytes
        → (p.lambda.create_function
            (retry_function role_arn dlq_url zip_bytes)
            (p.lambda.delete_function function_name s₀).1).0
          ≡ err e
        → HasFunction role_arn dlq_url s₀ none s

  abbrev pub target : p.events.State → Option String
  target s = p.events.target_of rule_name "RetryLambda" s

  -- The rule was put and asked to take the function that the script is left with for its target; or
  -- its target is as before, as the rule could not be put, or there is no function.
  pub data HasTarget (lambda_arn : Option String) (s₀ s : p.events.State) : Type 0 where
    is_asked :
        (rule_arn arn : String)
        → (p.events.put_rule retry_rule s₀).0 ≡ ok rule_arn
        → lambda_arn ≡ some arn
        → s
          ≡ (p.events.put_targets rule_name "RetryLambda" arn (p.events.put_rule retry_rule s₀).1).1
        → (target s ≡ target s₀) ⊎ (target s ≡ some arn)
        → HasTarget lambda_arn s₀ s
    no_rule :
        (e : Error)
        → (p.events.put_rule retry_rule s₀).0 ≡ err e
        → target s ≡ target s₀
        → HasTarget lambda_arn s₀ s
    no_function :
        (lambda_arn ≡ none) ⊎ (lambda_arn ≡ some "")
        → target s ≡ target s₀
        → HasTarget lambda_arn s₀ s

  -- The queue was said to be there already, and could not be looked up.
  abbrev pub QueueLost : p.sqs.State → Error → Type 0
  QueueLost s e =
      (e₀ : Error) × ((p.sqs.create_queue queue_name "86400" s).0 ≡ err e₀)
      × (p.sqs.already_exists e₀ ≡ true)
      × ((p.sqs.get_queue_url queue_name (p.sqs.create_queue queue_name "86400" s).1).0 ≡ err e)

  -- The role was said to be there already, and could not be looked up.
  abbrev pub RoleLost : p.iam.State → Error → Type 0
  RoleLost s e =
      (e₀ : Error) × ((p.iam.create_role role_name trust_policy s).0 ≡ err e₀)
      × (is_already_there e₀ ≡ true)
      × ((p.iam.get_role role_name (p.iam.create_role role_name trust_policy s).1).0 ≡ err e)

  pub setup_sqs-cases :
      (s : p.sqs.State)
      → ((url : Option String) × ((setup_sqs p s).0 ≡ ok url) × HasQueue s url (setup_sqs p s).1)
        ⊎ ((e : Error) × ((setup_sqs p s).0 ≡ err e) × QueueLost s e)
  unfolding setup_sqs
  setup_sqs-cases s =
      let s₁ = (p.sqs.create_queue queue_name "86400" s).1 in
      elim (Result-cases (p.sqs.create_queue queue_name "86400" s).0) [
        | inl (url, created) ↦ rw created (
            inl (
              some url,
              refl,
              is_queue url (p.sqs.create_queue_returns queue_name "86400" url s created),
            ))
        | inr (e₀, failed) ↦ elim (Bool-cases (p.sqs.already_exists e₀)) [
          | inr other ↦ rw (failed, other) (inl (none, refl, no_queue e₀ failed other))
          | inl there ↦ elim (Result-cases (p.sqs.get_queue_url queue_name s₁).0) [
            | inl (url, got) ↦
                rw (failed, there, got)
                  (inl (
                    some url,
                    refl,
                    is_queue url (p.sqs.get_queue_url_returns queue_name url s₁ got),
                  ))
            | inr (e, lost) ↦ rw (failed, there, lost) (inr (e, refl, (e₀, refl, there, refl)))
          ]
        ]
      ]

  pub setup_iam-cases :
      (s : p.iam.State)
      → ((arn : String) × ((setup_iam p s).0 ≡ ok arn) × HasRole s arn (setup_iam p s).1)
        ⊎ ((e : Error) × ((setup_iam p s).0 ≡ err e) × RoleLost s e)
  unfolding setup_iam
  setup_iam-cases s =
      let s₁ = (p.iam.create_role role_name trust_policy s).1 in
      elim (Result-cases (p.iam.create_role role_name trust_policy s).0) [
        | inl (arn, created) ↦ rw created (
            inl (
              arn,
              refl,
              is_role arn (p.iam.create_role_returns role_name trust_policy arn s created),
            ))
        | inr (e₀, failed) ↦ elim (Bool-cases (is_already_there e₀)) [
          | inr other ↦ rw (failed, other) (inl (assumed_role, refl, is_assumed e₀ failed other))
          | inl there ↦ elim (Result-cases (p.iam.get_role role_name s₁).0) [
            | inl (arn, got) ↦
                rw (failed, there, got)
                  (inl (arn, refl, is_role arn (p.iam.get_role_returns role_name arn s₁ got)))
            | inr (e, lost) ↦ rw (failed, there, lost) (inr (e, refl, (e₀, refl, there, refl)))
          ]
        ]
      ]

  -- The second `try` block of `setup_lambda` with its handler, after the deletion.
  create_or_none :
      (role_arn : String) (dlq_url : Option String) (s₀ : p.lambda.State)
      → let m = try_except (create_retry_function p role_arn dlq_url) (λ _. pure none) in
        let s = (p.lambda.delete_function function_name s₀).1 in
        (arn : Option String) × ((m s).0 ≡ ok arn) × HasFunction role_arn dlq_url s₀ arn (m s).1
  create_or_none role_arn dlq_url s₀ = elim (Result-cases p.package_lambda) [
    | inr (e, failed) ↦ rw failed (none, refl, not_packed e refl)
    | inl (zip_bytes, packed) ↦
        let f = retry_function role_arn dlq_url zip_bytes in
        let s = (p.lambda.delete_function function_name s₀).1 in
        elim (Result-cases (p.lambda.create_function f s).0) [
          | inr (e, failed) ↦ rw (packed, failed) (none, refl, not_created zip_bytes e refl failed)
          | inl (arn, created) ↦
              rw (packed, created)
                (
                  some arn,
                  refl,
                  is_function arn f (p.lambda.create_function_returns f arn s created) refl refl
                      refl (Memᴰ.tail (Memᴰ.tail (Memᴰ.tail (Memᴰ.tail (Memᴰ.head refl))))),
                )
        ]
  ]

  pub setup_lambda_returns :
      (role_arn : String) (dlq_url : Option String) (s : p.lambda.State)
      → (arn : Option String) × ((setup_lambda p role_arn dlq_url s).0 ≡ ok arn)
        × HasFunction role_arn dlq_url s arn (setup_lambda p role_arn dlq_url s).1
  unfolding setup_lambda
  setup_lambda_returns role_arn dlq_url s =
      elim (Result-cases (p.lambda.delete_function function_name s).0) [
        | inl (_, deleted) ↦ rw deleted (create_or_none role_arn dlq_url s)
        | inr (_, failed) ↦ rw failed (create_or_none role_arn dlq_url s)
      ]
