-- ===== src/Examples/Attributes.antt =====
-- The theorems on settings at concrete inputs.
use lqs.Prelude.{ends_with, ◌==◌}
use lqs.Security.Settings.{SecurityUpdate, default_security}
use lqs.Security.Settings.Encryption.{Exclusive, updated-Exclusive}
use lqs.Queue.Types.{QueueUpdate, RedrivePolicy, is_fifo}
use lqs.Queue.Validate.Ranges.{Ranges, validate_queue_creation-Ranges, resolve_queue_update-Ranges}
use lqs.Store.Read.{read_redrive_policy}
use lqs.Store.Redrive.{set_redrive_policy}
use lqs.Store.Laws.Ends.{Elsewhere}
use lqs.Store.Laws.Policies.{set_redrive_policy-read}
use lqs.Prelude.{true, false, none, some, [], ◌∷◌, ◌≡◌, refl, text}
use lqs.Queue.Types.{standard, default_options}
use lqs.Samples.{plain, events}
use lqs.Runs.{runs}
use lqs.Examples.{event_config, one_dead_letter}

abbrev events_policy : RedrivePolicy
events_policy = record { dead_letter_queue = b'd' ∷ []; max_receive_count = 3 }

set_redrive_policy-read_example :
    (read_redrive_policy (set_redrive_policy one_dead_letter events (some events_policy) 7).0 events
      ≡ some events_policy)
    × Elsewhere events (some events_policy)
unfolding runs
set_redrive_policy-read_example =
    set_redrive_policy-read one_dead_letter events (some events_policy) 7 refl

validate_queue_creation-Ranges_example :
    Ranges 30000 0 345600000 1048576 0 120000
    × (is_fifo standard ≡ ends_with events (text ".fifo"))
    × ((300000 == 300000) ≡ true)
unfolding runs
validate_queue_creation-Ranges_example =
    validate_queue_creation-Ranges plain events standard default_options [] refl

abbrev no_security_update : SecurityUpdate
no_security_update = record {
  policy = none;
  sqs_managed_sse_enabled = none;
  kms_master_key_id = none;
  kms_data_key_reuse_period_seconds = none;
}

abbrev longer_delay : QueueUpdate
longer_delay = record {
  security = no_security_update;
  visibility_timeout_ms = none;
  redrive_policy = none;
  delay_ms = some 900000;
  message_retention_ms = none;
  maximum_message_size = none;
  receive_wait_time_ms = none;
  max_in_flight = none;
  content_based_deduplication = none;
  deduplication_scope = none;
  fifo_throughput_limit = none;
}

resolve_queue_update-Ranges_example : Ranges 30000 900000 345600000 1048576 0 120000
unfolding runs
resolve_queue_update-Ranges_example =
    resolve_queue_update-Ranges plain event_config longer_delay
      (record {
        security = default_options.security;
        visibility = 30000;
        delay = 900000;
        retention = 345600000;
        maximum = 1048576;
        wait = 0;
        max_in_flight = 120000;
        content_based = false;
        scope = default_options.deduplication_scope;
        throughput = default_options.fifo_throughput_limit;
        redrive_policy = none;
      })
      refl

updated-Exclusive_example : Exclusive (record default_security { sqs_managed_sse_enabled = true })
unfolding runs
updated-Exclusive_example =
    updated-Exclusive (λ s. none) default_security
      (record no_security_update { sqs_managed_sse_enabled = some true })
      (record default_security { sqs_managed_sse_enabled = true }) refl
