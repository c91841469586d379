-- ===== src/Services/Cloud.antt =====
-- The services of a cloud account that scripts/setup_localstack.py sets up, each by the calls that
-- the script makes. A call that raises may have had its effect or not.
use event_sourcing_cqrs.Prelude.{ℕ, String, ◌≡◌, ◌⊎◌, Bool, Option, some, List}
use event_sourcing_cqrs.Exec.{Exec, Error, ok}

-- SQS. `already_exists` tells the exceptions of class `QueueAlreadyExists`.
pub record QueueAdmin : Type 1 where
  pub State : Type 0
  pub url_of : String → State → Option String
  pub already_exists : Error → Bool
  -- `create_queue(QueueName, {"MessageRetentionPeriod": …})`
  pub create_queue : String → String → Exec State String
  pub get_queue_url : String → Exec State String
  pub create_queue_returns :
      (name retention url : String) (s : State)
      → (create_queue name retention s).0 ≡ ok url
      → url_of name (create_queue name retention s).1 ≡ some url
  pub get_queue_url_returns :
      (name url : String) (s : State)
      → (get_queue_url name s).0 ≡ ok url
      → url_of name (get_queue_url name s).1 ≡ some url

-- A policy that lets a service assume a role.
pub record TrustPolicy : Type 0 where
  pub version : String
  pub effect : String
  pub principal_service : String
  pub action : String

-- IAM. The answer is the role's ARN.
pub record Roles : Type 1 where
  pub State : Type 0
  pub arn_of : String → State → Option String
  pub create_role : String → TrustPolicy → Exec State String
  pub get_role : String → Exec State String
  pub create_role_returns :
      (name : String) (policy : TrustPolicy) (arn : String) (s : State)
      → (create_role name policy s).0 ≡ ok arn
      → arn_of name (create_role name policy s).1 ≡ some arn
  pub get_role_returns :
      (name arn : String) (s : State)
      → (get_role name s).0 ≡ ok arn
      → arn_of name (get_role name s).1 ≡ some arn

-- The arguments of `create_function`. `Zip` are the bytes of an archive.
pub record Function (Zip : Type 0) : Type 0 where
  pub function_name : String
  pub runtime : String
  pub role : String
  pub handler : String
  pub zip_file : Zip
  pub variables : List (String × String)
  pub timeout : ℕ

pub record Permission : Type 0 where
  pub function_name : String
  pub statement_id : String
  pub action : String
  pub principal : String
  pub source_arn : String

-- Lambda. A function that has the name of another is not created.
pub record Functions (Zip : Type 0) : Type 1 where
  pub State : Type 0
  pub function_of : String → State → Option (Function Zip)
  pub delete_function : String → Exec State (Unit {0})
  -- the answer is the function's ARN
  pub create_function : Function Zip → Exec State String
  pub add_permission : Permission → Exec State (Unit {0})
  pub create_function_returns :
      (f : Function Zip) (arn : String) (s : State)
      → (create_function f s).0 ≡ ok arn
      → function_of f.function_name (create_function f s).1 ≡ some f
  pub add_permission_keeps :
      (p : Permission) (name : String) (s : State)
      → function_of name (add_permission p s).1 ≡ function_of name s

pub record Rule : Type 0 where
  pub name : String
  pub schedule_expression : String
  pub state : String
  pub description : String

-- EventBridge. The answer of `put_targets` may count failed entries, so its target is there or not.
pub record Rules : Type 1 where
  pub State : Type 0
  -- the ARN that a rule has under a target's id
  pub target_of : String → String → State → Option String
  -- the answer is the rule's ARN
  pub put_rule : Rule → Exec State String
  -- `put_targets(Rule, [{"Id": …, "Arn": …}])`
  pub put_targets : String → String → String → Exec State (Unit {0})
  pub put_rule_keeps :
      (r : Rule) (name id : String) (s : State)
      → target_of name id (put_rule r s).1 ≡ target_of name id s
  pub put_targets_sets :
      (name id arn : String) (s : State)
      → (target_of name id (put_targets name id arn s).1 ≡ target_of name id s)
        ⊎ (target_of name id (put_targets name id arn s).1 ≡ some arn)

-- `subprocess.run`: the exit code, and the text of the standard error.
pub record Shell : Type 1 where
  pub State : Type 0
  pub run : List String → Exec State (ℕ × String)
