-- ===== src/Provisioning.antt =====
-- scripts/setup_localstack.py: the script that provides the services with a bucket, a queue, a role,
-- the retry handler as a function, a rule that triggers it, and the topics.
pub mod Steps
pub mod Consistency
pub mod Outcome
use event_sourcing_cqrs.Prelude.{
  ℕ, String, Option, none, some, List, [], ◌∷◌, if◌then◌else◌, Bool, false,
}
use event_sourcing_cqrs.Exec.{Exec, Error, Result, driver, pure, lift, ◌>>=◌, ◌>>◌}
use event_sourcing_cqrs.Exec.Except.{try_except}
use event_sourcing_cqrs.Exec.Message.{says_already_exists}
use event_sourcing_cqrs.Services.Buckets.{Buckets}
use event_sourcing_cqrs.Services.Cloud.{
  QueueAdmin, TrustPolicy, Roles, Function, Permission, Functions, Rule, Rules, Shell,
}
use event_sourcing_cqrs.Archiver.Bucket.{ensure_bucket}

-- What the script is given. `package_lambda` is what that function makes of the handler's file.
pub record Providers (Zip : Type 0) : Type 1 where
  pub s3 : Buckets
  pub sqs : QueueAdmin
  pub iam : Roles
  pub lambda : Functions Zip
  pub events : Rules
  pub shell : Shell
  pub package_lambda : Result Zip

-- The state of those services.
pub record Cloud {Zip : Type 0} (p : Providers Zip) : Type 0 where
  pub s3 : p.s3.State
  pub sqs : p.sqs.State
  pub iam : p.iam.State
  pub lambda : p.lambda.State
  pub events : p.events.State
  pub shell : p.shell.State

-- What the script is left with.
pub record Provisioned : Type 0 where
  pub dlq_url : Option String
  pub role_arn : String
  pub lambda_arn : Option String

abbrev pub queue_name : String
queue_name = "event-dlq"

abbrev pub role_name : String
role_name = "lambda-retry-role"

abbrev pub function_name : String
function_name = "event-retry-handler"

abbrev pub rule_name : String
rule_name = "dlq-retry-rule"

abbrev pub bucket : String
bucket = "event-snapshots"

-- The ARN that is assumed if the role cannot be had.
abbrev pub assumed_role : String
assumed_role = "arn:aws:iam::000000000000:role/lambda-retry-role"

abbrev pub trust_policy : TrustPolicy
trust_policy = record {
  version = "2012-10-17";
  effect = "Allow";
  principal_service = "lambda.amazonaws.com";
  action = "sts:AssumeRole";
}

-- `dlq_url or ""`
abbrev pub url_or_empty : Option String → String
url_or_empty none = ""
url_or_empty (some url) = url

-- The arguments of `create_function`, with the variable names as the script spells them.
abbrev pub retry_function : {Zip : Type 0} → String → Option String → Zip → Function Zip
retry_function role_arn dlq_url zip_bytes = record {
  function_name = function_name;
  runtime = "python3.12";
  role = role_arn;
  handler = "retry_handler.handler";
  zip_file = zip_bytes;
  variables =
      ("KAFKA_BROKERS", "redpanda:29092")
      ∷ ("PANDAPROXY_URL", "http://redpanda:8082")
      ∷ ("KAFKA_TOPIC", "order-events")
      ∷ ("S3_BUCKET", "event-snapshots")
      ∷ ("SQS_DLQ_URL", url_or_empty dlq_url)
      ∷ ("AWS_ENDPOINT_URL", "http://localstack:4566")
      ∷ ("AWS_DEFAU LT_REGION", "us-east-1")
      ∷ ("AWS_ACCESS_KEY_ID", "test")
      ∷ ("AWS_SECRET_ACCESS_KEY", "test")
      ∷ [];
  timeout = 30;
}

abbrev pub retry_rule : Rule
retry_rule = record {
  name = rule_name;
  schedule_expression = "rate(1 minute)";
  state = "ENABLED";
  description = "Trigger Lambda to retry failed events from DLQ";
}

abbrev pub invoke_permission : String → Permission
invoke_permission rule_arn = record {
  function_name = function_name;
  statement_id = "eventbridge-invoke";
  action = "lambda:InvokeFunction";
  principal = "events.amazonaws.com";
  source_arn = rule_arn;
}

abbrev pub topic_command : String → String → List String
topic_command topic partitions =
    "docker" ∷ "exec" ∷ "redpanda" ∷ "rpk" ∷ "topic" ∷ "create" ∷ topic ∷ "--partitions"
    ∷ partitions ∷ "--replicas" ∷ "1" ∷ []

-- The test on an exception's text in `setup_iam`.
abbrev pub is_already_there : Error → Bool
is_already_there (driver text) = says_already_exists text
is_already_there other = false
