-- ===== src/Tests/Lives.antt =====
-- The processes of the program in memory: the API, the consumer, and two lives of the archiver.
use event_sourcing_cqrs.Prelude.{ℕ, ◌≡◌, refl, ◌⊎◌, false, List, [], ◌∷◌, replicate}
use event_sourcing_cqrs.Prelude.Newest.{drop}
use event_sourcing_cqrs.Events.{Event}
use event_sourcing_cqrs.Exec.{Error, ok, err}
use event_sourcing_cqrs.EventStore.Indexes.{
  IsIndexed, CreationRaised, event_indexes, setup_indexes, setup_indexes_cases,
}
use event_sourcing_cqrs.Lifespan.{Platform, App}
use event_sourcing_cqrs.Consumer.Process
use event_sourcing_cqrs.Consumer.Process.{run_consumer, run_consumer-Stopped}
use event_sourcing_cqrs.Archiver.{archive_all, flush, archive_record, upload_batch_to_s3}
use event_sourcing_cqrs.Archiver.Process as ArchiverProcess
use event_sourcing_cqrs.Archiver.Process.{archive, fresh}
use event_sourcing_cqrs.Archiver.Restarts.{
  ArchivedTo, Lives, ends, killed, here, next, Lives-ArchivedTo,
}
use event_sourcing_cqrs.Tests.Memory.{memory_account}
use event_sourcing_cqrs.Tests.Scenario.{created, filled}
use event_sourcing_cqrs.Tests.Streams.{bucket, fresh_run}
use event_sourcing_cqrs.Tests.Views.{sinks, before_round, two_records}
use event_sourcing_cqrs.Tests.Platform.{memory_connections, memory_indexes}

setup_indexes_cases_example :
    ((setup_indexes memory_indexes []).0 ≡ ok tt)
      × IsIndexed memory_indexes (setup_indexes memory_indexes []).1
      × (memory_indexes.indexes (setup_indexes memory_indexes (setup_indexes memory_indexes []).1).1
          ≡ memory_indexes.indexes (setup_indexes memory_indexes []).1)
    ⊎ (e : Error) × ((setup_indexes memory_indexes []).0 ≡ err e)
      × CreationRaised memory_indexes event_indexes [] e
setup_indexes_cases_example = setup_indexes_cases memory_indexes []

abbrev platform : Platform
platform = record {
  connections = memory_connections;
  events = memory_indexes;
  s3 = memory_account;
  s3_bucket = "event-snapshots";
}

abbrev down_yet : App platform
down_yet = record { connections = λ c. false; events = []; s3 = [] }

abbrev consumer : Process.Process sinks memory_connections
consumer = record { stage = before_round; connections = λ c. false }

run_consumer-Stopped_example :
    Process.Stopped sinks memory_connections 1 two_records consumer
      (run_consumer sinks memory_connections 1 two_records consumer).0
      (run_consumer sinks memory_connections 1 two_records consumer).1
run_consumer-Stopped_example = run_consumer-Stopped sinks memory_connections 1 two_records consumer

abbrev log : List (Event ℕ)
log = created ∷ replicate 101 filled

abbrev archiver : ArchiverProcess.Process bucket memory_account memory_connections
archiver = record { run = fresh_run; buckets = []; connections = λ c. false }

-- The first life is killed after a full batch and one more record; the second reads from the
-- committed position on.
abbrev killed_once : ArchiverProcess.Process bucket memory_account memory_connections
killed_once = record {
  run = archive_all bucket 0 ((70, created) ∷ replicate 100 (70, filled)) fresh_run;
  buckets = [];
  connections = λ c. false;
}

abbrev last_two : List (ℕ × Event ℕ)
last_two = (80, filled) ∷ (81, filled) ∷ []

abbrev ended : ArchiverProcess.Process bucket memory_account memory_connections
ended =
    (archive bucket memory_account memory_connections "event-snapshots" 99 100 last_two
      killed_once).1

first_batch : killed_once.run.group ≡ 100
unfolding archive_all archive_record flush upload_batch_to_s3
first_batch = refl

two-Lives : Lives bucket memory_account memory_connections log archiver ended
unfolding archive_all archive_record flush upload_batch_to_s3 drop
two-Lives =
    next
      (next here
        (killed ((70, created) ∷ replicate 100 (70, filled)) [] (λ c. false) (filled ∷ [], refl)))
      (ends "event-snapshots" 99 last_two (λ c. false) ([], refl))

Lives-ArchivedTo_example : ArchivedTo bucket memory_account memory_connections log ended.run
Lives-ArchivedTo_example =
    Lives-ArchivedTo bucket memory_account memory_connections log refl two-Lives
