-- ===== src/Provisioning/Steps.antt =====
-- The functions of scripts/setup_localstack.py, and the script.
use event_sourcing_cqrs.Prelude.{String, Option, none, some, if◌then◌else◌, str_eq}
use event_sourcing_cqrs.Exec.{Exec, Error, pure, lift, ◌>>=◌, ◌>>◌}
use event_sourcing_cqrs.Exec.Except.{try_except}
use event_sourcing_cqrs.Archiver.Bucket.{ensure_bucket}
use event_sourcing_cqrs.Provisioning.{
  Providers, Cloud, Provisioned, queue_name, role_name, function_name, rule_name, bucket,
  assumed_role, trust_policy, retry_function, retry_rule, invoke_permission, topic_command,
  is_already_there,
}

module _ {Zip : Type 0} (p : Providers Zip) where
  module _ {A : Type 0} where
    abbrev pub on_s3 : Exec p.s3.State A → Exec (Cloud p) A
    on_s3 m c = let (r, s) = m c.s3 in (r, record c { s3 = s })

    abbrev pub on_sqs : Exec p.sqs.State A → Exec (Cloud p) A
    on_sqs m c = let (r, s) = m c.sqs in (r, record c { sqs = s })

    abbrev pub on_iam : Exec p.iam.State A → Exec (Cloud p) A
    on_iam m c = let (r, s) = m c.iam in (r, record c { iam = s })

    abbrev pub on_lambda : Exec p.lambda.State A → Exec (Cloud p) A
    on_lambda m c = let (r, s) = m c.lambda in (r, record c { lambda = s })

    abbrev pub on_events : Exec p.events.State A → Exec (Cloud p) A
    on_events m c = let (r, s) = m c.events in (r, record c { events = s })

    abbrev pub on_shell : Exec p.shell.State A → Exec (Cloud p) A
    on_shell m c = let (r, s) = m c.shell in (r, record c { shell = s })

  -- `setup_s3`, the same as `ensure_bucket` of consumers/archiver.py
  unfoldable pub setup_s3 : Exec p.s3.State (Unit {0})
  setup_s3 = ensure_bucket p.s3 bucket

  -- The handlers of `setup_sqs`.
  abbrev pub queue_there : Error → Exec p.sqs.State (Option String)
  queue_there e =
      if p.sqs.already_exists e
      then (do url ← p.sqs.get_queue_url queue_name; pure (some url))
      else pure none

  -- `setup_sqs`
  unfoldable pub setup_sqs : Exec p.sqs.State (Option String)
  setup_sqs =
      try_except (do url ← p.sqs.create_queue queue_name "86400"; pure (some url)) queue_there

  -- The handler of `setup_iam`.
  abbrev pub role_there : Error → Exec p.iam.State String
  role_there e = if is_already_there e then p.iam.get_role role_name else pure assumed_role

  -- `setup_iam`
  unfoldable pub setup_iam : Exec p.iam.State String
  setup_iam = try_except (p.iam.create_role role_name trust_policy) role_there

  -- The second `try` block of `setup_lambda`.
  abbrev pub create_retry_function : String → Option String → Exec p.lambda.State (Option String)
  create_retry_function role_arn dlq_url = do
    zip_bytes ← lift p.package_lambda
    fn_arn ← p.lambda.create_function (retry_function role_arn dlq_url zip_bytes)
    pure (some fn_arn)

  -- `setup_lambda`
  unfoldable pub setup_lambda : String → Option String → Exec p.lambda.State (Option String)
  setup_lambda role_arn dlq_url = do
    try_except (p.lambda.delete_function function_name) (λ _. pure tt)
    try_except (create_retry_function role_arn dlq_url) (λ _. pure none)

  -- The target, and the permission, which may be there already.
  abbrev pub set_target : String → String → Exec (Cloud p) (Unit {0})
  set_target rule_arn arn = do
    on_events (p.events.put_targets rule_name "RetryLambda" arn)
    try_except (on_lambda (p.lambda.add_permission (invoke_permission rule_arn))) (λ _. pure tt)

  -- `if lambda_arn:`, of `setup_eventbridge`
  abbrev pub trigger : String → Option String → Exec (Cloud p) (Unit {0})
  trigger rule_arn none = pure tt
  trigger rule_arn (some arn) = if str_eq arn "" then pure tt else set_target rule_arn arn

  -- `setup_eventbridge`
  unfoldable pub setup_eventbridge : Option String → Exec (Cloud p) (Unit {0})
  setup_eventbridge lambda_arn =
      try_except
        (do rule_arn ← on_events (p.events.put_rule retry_rule); trigger rule_arn lambda_arn)
        (λ _. pure tt)

  -- `setup_kafka_topic`, whose answers are only printed
  unfoldable pub setup_kafka_topic : Exec p.shell.State (Unit {0})
  setup_kafka_topic =
      try_except
        (do
          p.shell.run (topic_command "order-events" "6")
          p.shell.run (topic_command "order-events-dlq" "1")
          pure tt)
        (λ _. pure tt)

  -- The script, after its wait for the services.
  unfoldable pub provision : Exec (Cloud p) Provisioned
  provision = do
    on_s3 setup_s3
    dlq_url ← on_sqs setup_sqs
    role_arn ← on_iam setup_iam
    lambda_arn ← on_lambda (setup_lambda role_arn dlq_url)
    setup_eventbridge lambda_arn
    on_shell setup_kafka_topic
    pure (record { dlq_url = dlq_url; role_arn = role_arn; lambda_arn = lambda_arn })
