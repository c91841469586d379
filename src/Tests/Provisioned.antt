-- ===== src/Tests/Provisioned.antt =====
-- The script of scripts/setup_localstack.py on an account in memory, which has a role already.
use event_sourcing_cqrs.Prelude.{
  String, refl, ap, inr, Option, none, some, false, [], str_eq, eq_refl, arith, if◌then◌else◌,
}
use event_sourcing_cqrs.Exec.{ok, err, driver, ok-injective}
use event_sourcing_cqrs.Services.Cloud.{QueueAdmin, Roles, Function, Functions, Rules, Shell}
use event_sourcing_cqrs.Provisioning.{Providers, Cloud}
use event_sourcing_cqrs.Tests.Memory.{memory_account}

-- One name, and what there is under it.
abbrev under : {A : Type 0} → String → String → Option A → Option A
under name own held = if str_eq own name then held else none

-- A queue for each name that is asked for, with the name for its URL.
abbrev memory_queues : QueueAdmin
memory_queues = record {
  State = Unit {0};
  url_of = λ name s. some name;
  already_exists = λ e. false;
  create_queue = λ name retention s. (ok name, s);
  get_queue_url = λ name s. (ok name, s);
  create_queue_returns = λ name retention url s h. ap some (ok-injective h);
  get_queue_url_returns = λ name url s h. ap some (ok-injective h);
}

-- Every role is there already, with its name for its ARN.
abbrev memory_roles : Roles
memory_roles = record {
  State = Unit {0};
  arn_of = λ name s. some name;
  create_role = λ name policy s. (err (driver "Role with name already exists."), s);
  get_role = λ name s. (ok name, s);
  create_role_returns = λ name policy arn s h. ground (arith, h);
  get_role_returns = λ name arn s h. ap some (ok-injective h);
}

-- The last function that was created.
abbrev memory_functions : Functions String
memory_functions = record {
  State = Option (Function String);
  function_of = λ name s. elim s [ none ↦ none | some f ↦ under name f.function_name (some f) ];
  delete_function = λ name s. (ok tt, none);
  create_function = λ f s. (ok f.function_name, some f);
  add_permission = λ p s. (ok tt, s);
  create_function_returns = λ f arn s h. rw (eq_refl f.function_name) refl;
  add_permission_keeps = λ p name s. refl;
}

-- The ARN of one target, whatever its rule and id.
abbrev memory_rules : Rules
memory_rules = record {
  State = Option String;
  target_of = λ name id s. s;
  put_rule = λ r s. (ok r.name, s);
  put_targets = λ name id arn s. (ok tt, some arn);
  put_rule_keeps = λ r name id s. refl;
  put_targets_sets = λ name id arn s. inr refl;
}

abbrev no_docker : Shell
no_docker = record { State = Unit {0}; run = λ command s. (err (driver "FileNotFoundError"), s) }

abbrev providers : Providers String
providers = record {
  s3 = memory_account;
  sqs = memory_queues;
  iam = memory_roles;
  lambda = memory_functions;
  events = memory_rules;
  shell = no_docker;
  package_lambda = ok "the handler";
}

abbrev account : Cloud providers
account = record { s3 = []; sqs = tt; iam = tt; lambda = none; events = none; shell = tt }
