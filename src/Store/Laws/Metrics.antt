-- ===== src/Store/Laws/Metrics.antt =====
-- src/management.rs `queue_metrics`: the three counters.
use lqs.Prelude.{
  ℕ, ◌+◌, Bool, true, false, ◌&&◌, Option, none, some, List, [], ◌∷◌, ◌≡◌, arith, ltb, leb,
  if◌then◌else◌, count, Bytes,
}
use lqs.Error.{ok}
use lqs.Store.Tables.{QueueRow, Message, Db}
use lqs.Store.Read.{ms, find_queue, after}
use lqs.Store.Receive.Next.{is_visible}
use lqs.Store.Manage.{
  QueueMetrics, is_current, is_visible_now, is_hidden_now, is_delayed_now, queue_metrics,
}

abbrev one : Bool → ℕ
one b = if b then 1 else 0

-- A current message is in one of the three classes, and only in one.
one_class :
    (current : Bool) (available now : ℕ) (until : Option ℕ)
    → one (current && leb available now && is_visible until now)
        + one (current && after until now)
        + one (current && ltb now available && is_visible until now)
      ≡ one current
one_class false available now until = omega arith
one_class true available now none = ground arith
one_class true available now (some t) = ground arith

count-cons :
    (p : Message → Bool) (m : Message) (ms' : List Message)
    → count p (m ∷ ms') ≡ one (p m) + count p ms'
unfolding count
count-cons p m ms' = ground arith

classes :
    (name : Bytes) (now retention : ℕ) (messages : List Message)
    → count (is_visible_now name now retention) messages
        + count (is_hidden_now name now retention) messages
        + count (is_delayed_now name now retention) messages
      ≡ count (is_current name now retention) messages
classes name now retention [] = unfold count in omega arith
classes name now retention (m ∷ messages) =
    rw
      (
        count-cons (is_visible_now name now retention) m messages,
        count-cons (is_hidden_now name now retention) m messages,
        count-cons (is_delayed_now name now retention) m messages,
        count-cons (is_current name now retention) m messages,
      )
      (omega (
        arith,
        classes name now retention messages,
        one_class (is_current name now retention m) m.available_at_ms now m.invisible_until_ms,
      ))

metrics_of :
    (a b : QueueMetrics)
    → ok a ≡ ok b
    → (b.visible ≡ a.visible) × (b.not_visible ≡ a.not_visible) × (b.delayed ≡ a.delayed)
metrics_of a b h = (ground arith, ground arith, ground arith)

-- The visible, the not visible and the delayed messages that `queue_metrics` counts are together the
-- messages of the queue that have not expired, each counted once.
pub queue_metrics-partition :
    (db : Db) (name : Bytes) (now : ℕ) (q : QueueRow) (metrics : QueueMetrics)
    → find_queue db name ≡ some q
    → queue_metrics db name now ≡ ok metrics
    → metrics.visible + metrics.not_visible + metrics.delayed
      ≡ count (is_current name (ms now) q.message_retention_ms) db.messages
unfolding queue_metrics
queue_metrics-partition db name now q metrics f h =
    let (v, n, d) = metrics_of _ metrics (rw (f, queue_metrics) at h) in
    rw (v, n, d) (classes name (ms now) q.message_retention_ms db.messages)
