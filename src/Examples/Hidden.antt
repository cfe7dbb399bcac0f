-- ===== src/Examples/Hidden.antt =====
-- The theorem on visibility at a concrete change.
use lqs.Prelude.{◌≡◌, refl, inl, [], ◌∷◌, leb}
use lqs.Prelude.Word.{saturating_add_i64}
use lqs.Store.Tables.{Message}
use lqs.Store.Read.{ms}
use lqs.Store.Receive.Next.{is_visible}
use lqs.Store.Visibility.{with_deadline}
use lqs.Store.Laws.Hidden.{change_visibility-hides}
use lqs.Examples.{one_event, row_of}
use lqs.Samples.{events}
use lqs.Runs.{runs}

-- The message after the change at 5, with a timeout of 30 seconds.
abbrev hidden : Message
hidden = with_deadline 30005 (row_of events 1 10)

change_visibility-hides_example :
    is_visible hidden.invisible_until_ms 40 ≡ leb (saturating_add_i64 (ms 5) (ms 30000)) 40
unfolding runs
change_visibility-hides_example =
    change_visibility-hides one_event events (9 ∷ []) 30000 5 hidden 40 refl refl (inl refl) refl
