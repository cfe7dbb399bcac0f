-- ===== src/Store/Sound/Self/Labels.antt =====
-- src/management.rs and src/sqlite_lqs.rs: the table of policies through tags, permissions and purges.
use lqs.Prelude.{ℕ, List, ◌≡◌, refl, Bytes}
use lqs.Queue.External.{External}
use lqs.Queue.Validate.{QueueTags}
use lqs.Store.Tables.{Db}
use lqs.Store.Messages.{delete_messages}
use lqs.Store.Redrive.{touch_queue}
use lqs.Store.Settings.{
  add_permission_body, add_permission, remove_permission_body, remove_permission,
}
use lqs.Store.Manage.{tag_body, tag_queue, untag_body, untag_queue}
use lqs.Store.Remove.{purge_rows, purge_body, purge_queue}
use lqs.Store.Sound.Self.{>>=-Kept, >>-Kept, transaction-policies}
use lqs.Store.Sound.Self.Policies.{write_security-policies}

ruleset kept_rules = (>>=-Kept, >>-Kept, refl)

module _ (ext : External) (db : Db) (name : Bytes) where
  pub tag_queue-policies :
      (tags : QueueTags) → (tag_queue ext db name tags).0.redrive_policies ≡ db.redrive_policies
  unfolding tag_queue tag_body
  tag_queue-policies tags =
      transaction-policies db (tag_body ext db name tags) (search kept_rules depth 8)

  pub untag_queue-policies :
      (keys : List Bytes) → (untag_queue ext db name keys).0.redrive_policies ≡ db.redrive_policies
  unfolding untag_queue untag_body
  untag_queue-policies keys =
      transaction-policies db (untag_body ext db name keys) (search kept_rules depth 8)

  pub add_permission-policies :
      (label : Bytes) (accounts actions : List Bytes) (now : ℕ)
      → (add_permission ext db name label accounts actions now).0.redrive_policies
        ≡ db.redrive_policies
  unfolding add_permission add_permission_body touch_queue
  add_permission-policies label accounts actions now =
      transaction-policies db (add_permission_body ext db name label accounts actions now)
        (search (kept_rules, write_security-policies) depth 8)

  pub remove_permission-policies :
      (label : Bytes) (now : ℕ)
      → (remove_permission ext db name label now).0.redrive_policies ≡ db.redrive_policies
  unfolding remove_permission remove_permission_body touch_queue
  remove_permission-policies label now =
      transaction-policies db (remove_permission_body ext db name label now)
        (search (kept_rules, write_security-policies) depth 8)

pub purge_queue-policies :
    (db : Db) (name : Bytes) (now : ℕ)
    → (purge_queue db name now).0.redrive_policies ≡ db.redrive_policies
unfolding purge_queue purge_body purge_rows delete_messages
purge_queue-policies db name now =
    transaction-policies db (purge_body db name now) (search kept_rules depth 8)
