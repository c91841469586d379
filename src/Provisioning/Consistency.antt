-- ===== src/Provisioning/Consistency.antt =====
-- The parts that scripts/setup_localstack.py sets up fit together.
use event_sourcing_cqrs.Prelude.{String, ◌≡◌, Option}
use event_sourcing_cqrs.Exec.{Exec, Error, Result, ok, err, pure}
use event_sourcing_cqrs.Exec.Except.{try_except}
use event_sourcing_cqrs.Archiver.Bucket.{Ensured}
use event_sourcing_cqrs.Provisioning.{
  Providers, Cloud, Provisioned, function_name, rule_name, bucket, retry_rule, invoke_permission,
}
use event_sourcing_cqrs.Provisioning.Steps.{on_lambda, on_events}
use event_sourcing_cqrs.Provisioning.Outcome.{
  HasQueue, HasRole, HasFunction, HasTarget, target, QueueLost, RoleLost,
}

module _ {Zip : Type 0} (p : Providers Zip) where
  -- A call that is about the rule and who may invoke the function, and no more that is spoken of here.
  pub record LeavesOthers (c c' : Cloud p) : Type 0 where
    pub s3_same : c'.s3 ≡ c.s3
    pub sqs_same : c'.sqs ≡ c.sqs
    pub iam_same : c'.iam ≡ c.iam
    pub function_same :
        p.lambda.function_of function_name c'.lambda ≡ p.lambda.function_of function_name c.lambda

  module _ (rule_arn arn : String) where
    abbrev allowed : Exec (Cloud p) (Unit {0})
    allowed =
        try_except (on_lambda p (p.lambda.add_permission (invoke_permission rule_arn)))
          (λ _. pure tt)

  -- What `setup_eventbridge` does, which never raises.
  abbrev Bridged : Option String → Cloud p → Cloud p → Type 0
  Bridged lambda_arn c c' = HasTarget p lambda_arn c.events c'.events × LeavesOthers c c'

  module _ (c : Cloud p) (rule_arn : String)
      (put : (p.events.put_rule retry_rule c.events).0 ≡ ok rule_arn) where
    abbrev c₁ : Cloud p
    c₁ = (on_events p (p.events.put_rule retry_rule) c).1

    abbrev rule_kept : target p c₁.events ≡ target p c.events
    rule_kept = p.events.put_rule_keeps retry_rule rule_name "RetryLambda" c.events

  -- What the script leaves.
  pub data Outcome (c : Cloud p) : Result Provisioned → Cloud p → Type 0 where
    provided :
        {c' : Cloud p} (q : Provisioned)
        → Ensured p.s3 bucket c.s3 c'.s3
        → HasQueue p c.sqs q.dlq_url c'.sqs
        → HasRole p c.iam q.role_arn c'.iam
        → HasFunction p q.role_arn q.dlq_url c.lambda q.lambda_arn c'.lambda
        → HasTarget p q.lambda_arn c.events c'.events
        → Outcome c (ok q) c'
    no_queue_url :
        {c' : Cloud p} (e : Error)
        → Ensured p.s3 bucket c.s3 c'.s3
        → QueueLost p c.sqs e
        → c'.iam ≡ c.iam
        → c'.lambda ≡ c.lambda
        → c'.events ≡ c.events
        → Outcome c (err e) c'
    no_role_arn :
        {c' : Cloud p} (url : Option String) (e : Error)
        → Ensured p.s3 bucket c.s3 c'.s3
        → HasQueue p c.sqs url c'.sqs
        → RoleLost p c.iam e
        → c'.lambda ≡ c.lambda
        → c'.events ≡ c.events
        → Outcome c (err e) c'
