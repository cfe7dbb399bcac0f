-- ===== src/Store/Sound/Labels.antt =====
-- Tags and permissions leave the messages alone, so the store stays sound.
use lqs.Prelude.{ℕ, some, List, refl, subst, Bytes}
use lqs.Error.{>>=-eq-ok, >>-eq-ok}
use lqs.Queue.External.{External}
use lqs.Queue.Validate.{QueueTags}
use lqs.Security.Permission.{
  add_permission as add_to_policy, remove_permission as remove_from_policy,
}
use lqs.Store.Tables.{Db}
use lqs.Store.Read.{read_queue_config}
use lqs.Store.Settings.{
  write_security, add_permission_body, add_permission, remove_permission_body, remove_permission,
}
use lqs.Store.Manage.{tag_body, tag_queue, untag_body, untag_queue}
use lqs.Store.Sound.Rows.{IsSound}
use lqs.Store.Sound.Send.{transaction-keeps, same_rows-IsSound}
use lqs.Store.Sound.Manage.{ok_fst, security-IsSound, touch_queue-IsSound}

module _ (ext : External) (db : Db) (v : IsSound db) (name : Bytes) where
  -- Tagging keeps the store sound.
  pub tag_queue-IsSound : (tags : QueueTags) → IsSound (tag_queue ext db name tags).0
  unfolding tag_queue tag_body
  tag_queue-IsSound tags = transaction-keeps IsSound db (tag_body ext db name tags) v λ db' a h.
      let (given, h1) = >>-eq-ok _ _ h in
      let (valid, h2) = >>-eq-ok _ _ h1 in
      let (config, c, h3) = >>=-eq-ok (read_queue_config db name) _ h2 in
      let (room, h4) = >>-eq-ok _ _ h3 in
      subst IsSound (ok_fst _ db' tt a h4) (same_rows-IsSound db _ refl refl refl v)

  -- Removing tags keeps the store sound.
  pub untag_queue-IsSound : (keys : List Bytes) → IsSound (untag_queue ext db name keys).0
  unfolding untag_queue untag_body
  untag_queue-IsSound keys = transaction-keeps IsSound db (untag_body ext db name keys) v λ db' a h.
      let (given, h1) = >>-eq-ok _ _ h in
      let (valid, h2) = >>-eq-ok _ _ h1 in
      let (config, c, h3) = >>=-eq-ok (read_queue_config db name) _ h2 in
      subst IsSound (ok_fst _ db' tt a h3) (same_rows-IsSound db _ refl refl refl v)

  -- A new permission keeps the store sound.
  pub add_permission-IsSound :
      (label : Bytes) (accounts actions : List Bytes) (now : ℕ)
      → IsSound (add_permission ext db name label accounts actions now).0
  unfolding add_permission add_permission_body
  add_permission-IsSound label accounts actions now =
      transaction-keeps IsSound db (add_permission_body ext db name label accounts actions now) v
        λ db' a h.
          let (config, c, h1) = >>=-eq-ok (read_queue_config db name) _ h in
          let (policy, p, h2) =
            >>=-eq-ok
              (add_to_policy ext.json_parse ext.json_print config.security.policy name label
                accounts actions)
              _ h1 in
          let (db1, e, h3) =
            >>=-eq-ok
              (write_security ext db name (record (config.security) { policy = some policy })) _
              h2 in
          subst IsSound (ok_fst _ db' tt a h3)
            (touch_queue-IsSound db1 name now (security-IsSound ext db name _ db1 e v))

  -- A removed permission keeps the store sound.
  pub remove_permission-IsSound :
      (label : Bytes) (now : ℕ) → IsSound (remove_permission ext db name label now).0
  unfolding remove_permission remove_permission_body
  remove_permission-IsSound label now =
      transaction-keeps IsSound db (remove_permission_body ext db name label now) v λ db' a h.
        let (config, c, h1) = >>=-eq-ok (read_queue_config db name) _ h in
        let (policy, p, h2) =
          >>=-eq-ok (remove_from_policy ext.json_parse ext.json_print config.security.policy label)
            _ h1 in
        let (db1, e, h3) =
          >>=-eq-ok (write_security ext db name (record (config.security) { policy = policy })) _
            h2 in
        subst IsSound (ok_fst _ db' tt a h3)
          (touch_queue-IsSound db1 name now (security-IsSound ext db name _ db1 e v))
