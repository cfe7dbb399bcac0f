-- ===== src/Queue/Validate/Ranges.antt =====
-- src/sqlite_lqs.rs `validate_queue_creation` and `resolve_queue_update`: the settings that a queue can
-- get.
use lqs.Prelude.{
  ℕ, ◌≤◌, Bool, true, false, not, ◌&&◌, ◌≡◌, subst, arith, ltb, ◌==◌, Bytes, text, ends_with,
}
use lqs.Error.{ok, >>=-eq-ok, >>-eq-ok, fail_if, fail_if-eq-ok}
use lqs.Security.Settings.{validate_security, updated, unwrap_or}
use lqs.Queue.Types.{
  QueueType, is_fifo, QueueOptions, QueueUpdate, QueueConfig, ResolvedQueueUpdate,
}
use lqs.Queue.External.{External}
use lqs.Queue.Validate.{
  QueueTags, validate_tags, validate_receive_options, validate_delivery_options, validate_fifo,
  validate_queue_creation, resolve_queue_update,
}

-- The ranges of SQS for the visibility timeout, the delay, the retention and the largest message, the
-- wait of a receive, and the messages in flight.
abbrev pub Ranges : ℕ → ℕ → ℕ → ℕ → ℕ → ℕ → Type 0
Ranges visibility delay retention maximum wait max_in_flight =
    (visibility ≤ 43200000)
    × (delay ≤ 900000)
    × (60000 ≤ retention)
    × (retention ≤ 1209600000)
    × (1024 ≤ maximum)
    × (maximum ≤ 1048576)
    × (wait ≤ 20000)
    × (1 ≤ max_in_flight)
    × (max_in_flight ≤ 120000)

ranges :
    (visibility delay retention maximum wait max_in_flight : ℕ)
    → ltb 43200000 visibility ≡ false
    → validate_delivery_options delay retention maximum ≡ ok tt
    → validate_receive_options wait max_in_flight ≡ ok tt
    → Ranges visibility delay retention maximum wait max_in_flight
unfolding validate_delivery_options validate_receive_options
ranges visibility delay retention maximum wait max_in_flight v d r =
    let bad_d = fail_if-eq-ok _ _ d in
    let bad_r = fail_if-eq-ok _ _ r in ground (arith, v, bad_d, bad_r)

same_answer : (a b : Bool) → (a && not b) ≡ false → (not a && b) ≡ false → a ≡ b
same_answer a b h k = ground arith

not-false : (b : Bool) → not b ≡ false → b ≡ true
not-false b h = ground arith

ok_same : (a b : ResolvedQueueUpdate) → ok a ≡ ok b → a ≡ b
ok_same a b h = cc

-- A queue that passes `validate_queue_creation` has settings in the ranges of SQS, a name that ends
-- in .fifo exactly if it is a FIFO queue, and the fixed deduplication window of five minutes.
pub validate_queue_creation-Ranges :
    (ext : External) (name : Bytes) (kind : QueueType) (options : QueueOptions) (tags : QueueTags)
    → validate_queue_creation ext name kind options tags ≡ ok tt
    → Ranges options.visibility_timeout_ms options.delay_ms options.message_retention_ms
        options.maximum_message_size options.receive_wait_time_ms options.max_in_flight
      × (is_fifo kind ≡ ends_with name (text ".fifo"))
      × ((options.deduplication_window_ms == 300000) ≡ true)
unfolding validate_queue_creation
validate_queue_creation-Ranges ext name kind options tags h =
    let (a, h1) = >>-eq-ok (validate_security ext.json_parse options.security) _ h in
    let (b, h2) = >>-eq-ok (validate_tags ext tags) _ h1 in
    let (c, h3) = >>-eq-ok (fail_if (is_fifo kind && not (ends_with name (text ".fifo"))) _) _ h2 in
    let (d, h4) = >>-eq-ok (fail_if (not (is_fifo kind) && ends_with name (text ".fifo")) _) _ h3 in
    let (v, h5) = >>-eq-ok (fail_if (ltb 43200000 options.visibility_timeout_ms) _) _ h4 in
    let (e, h6) =
      >>-eq-ok
        (validate_delivery_options options.delay_ms options.message_retention_ms
          options.maximum_message_size)
        _ h5 in
    let (r, h7) =
      >>-eq-ok (validate_receive_options options.receive_wait_time_ms options.max_in_flight) _ h6 in
    let (f, h8) =
      >>-eq-ok
        (validate_fifo kind options.content_based_deduplication options.deduplication_scope
          options.fifo_throughput_limit)
        _ h7 in
    (
      ranges options.visibility_timeout_ms options.delay_ms options.message_retention_ms
          options.maximum_message_size options.receive_wait_time_ms options.max_in_flight
          (fail_if-eq-ok _ _ v) e r,
      same_answer (is_fifo kind) (ends_with name (text ".fifo")) (fail_if-eq-ok _ _ c)
          (fail_if-eq-ok _ _ d),
      not-false (options.deduplication_window_ms == 300000) (fail_if-eq-ok _ _ h8),
    )

-- The settings that `resolve_queue_update` computes from the present ones and a partial update are in
-- the ranges of SQS, whatever the present ones are.
pub resolve_queue_update-Ranges :
    (ext : External) (current : QueueConfig) (change : QueueUpdate) (resolved : ResolvedQueueUpdate)
    → resolve_queue_update ext current change ≡ ok resolved
    → Ranges resolved.visibility resolved.delay resolved.retention resolved.maximum resolved.wait
        resolved.max_in_flight
unfolding resolve_queue_update
resolve_queue_update-Ranges ext current change resolved h =
    let visibility = unwrap_or change.visibility_timeout_ms current.visibility_timeout_ms in
    let delay = unwrap_or change.delay_ms current.delay_ms in
    let retention = unwrap_or change.message_retention_ms current.message_retention_ms in
    let maximum = unwrap_or change.maximum_message_size current.maximum_message_size in
    let wait = unwrap_or change.receive_wait_time_ms current.receive_wait_time_ms in
    let most = unwrap_or change.max_in_flight current.max_in_flight in
    let (security, s, h1) =
      >>=-eq-ok (updated ext.json_parse current.security change.security) _ h in
    let (v, h2) = >>-eq-ok (fail_if (ltb 43200000 visibility) _) _ h1 in
    let (d, h3) = >>-eq-ok (validate_delivery_options delay retention maximum) _ h2 in
    let (r, h4) = >>-eq-ok (validate_receive_options wait most) _ h3 in
    let (f, h5) = >>-eq-ok (validate_fifo current.queue_type _ _ _) _ h4 in
    let (g, h6) = >>-eq-ok _ _ h5 in
    subst
      (λ (x : ResolvedQueueUpdate).
        Ranges x.visibility x.delay x.retention x.maximum x.wait x.max_in_flight)
      (ok_same _ resolved h6)
      (ranges visibility delay retention maximum wait most (fail_if-eq-ok _ _ v) d r)
