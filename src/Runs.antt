-- ===== src/Runs.antt =====
-- What a run on concrete input computes with: a test that runs the code unfolds `runs`.

unfoldable pub runs : Unit {0}
unfolding lqs.Attributes.size_from lqs.Attributes.message_attributes_size lqs.Attributes.is_xml_char
    lqs.Attributes.valid_xml_text lqs.Attributes.is_name_byte lqs.Attributes.invalid_name
    lqs.Attributes.kind_and_suffix lqs.Attributes.number_value lqs.Attributes.normalize_value
    lqs.Attributes.validate_attribute lqs.Attributes.validate_entries
    lqs.Attributes.validate_message_attributes lqs.Attributes.payload_size lqs.Attributes.type_tag
    lqs.Attributes.digest_input lqs.Attributes.message_attributes_md5
    lqs.Attributes.Number.checked_i32 lqs.Attributes.Number.digits_value
    lqs.Attributes.Number.parse_digits lqs.Attributes.Number.parse_i32
    lqs.Attributes.Number.strip_sign lqs.Attributes.Number.is_negative
    lqs.Attributes.Number.split_exponent lqs.Attributes.Number.split_fraction
    lqs.Attributes.Number.place_point lqs.Attributes.Number.normalize_digits
    lqs.Attributes.Number.normalize_mantissa lqs.Attributes.Number.normalize_number
    lqs.Batch.valid_entry_id lqs.Batch.check_ids lqs.Batch.validate_batch_ids lqs.Batch.total_size
    lqs.Batch.validate_batch_size lqs.Batch.run_entries lqs.Batch.check_batch lqs.Batch.run_batch
    lqs.Batch.send_batch lqs.Batch.delete_batch lqs.Batch.change_visibility_batch
    lqs.Error.Display.display lqs.Http.Access.queue_actions lqs.Http.Access.access_queue
    lqs.Http.Access.access_context lqs.Http.Access.authorize_name lqs.Http.Access.authorize
    lqs.Http.Actions.settle lqs.Http.Actions.create_queue_action
    lqs.Http.Actions.set_queue_attributes_action lqs.Http.Actions.get_queue_attributes_action
    lqs.Http.Actions.source_cursor lqs.Http.Actions.source_page lqs.Http.Actions.list_sources_action
    lqs.Http.Actions.send_message_action lqs.Http.Actions.delete_message_action
    lqs.Http.Actions.visibility_seconds lqs.Http.Actions.change_visibility_action
    lqs.Http.Answer.fields_of lqs.Http.Answer.json_text_map lqs.Http.Answer.put_text
    lqs.Http.Answer.sequence_number lqs.Http.BatchActions.caught
    lqs.Http.BatchActions.record_outcome lqs.Http.BatchActions.run_requests
    lqs.Http.BatchActions.sent_json lqs.Http.BatchActions.send_entry
    lqs.Http.BatchActions.delete_entry lqs.Http.BatchActions.change_entry
    lqs.Http.BatchActions.batch_entry lqs.Http.BatchActions.check_sizes
    lqs.Http.BatchActions.batch_action lqs.Http.Body.attribute_json lqs.Http.Body.system_json
    lqs.Http.Body.digest_json lqs.Http.Body.add_json_metadata lqs.Http.Body.message_json
    lqs.Http.Body.xml_metadata lqs.Http.Body.message_xml lqs.Http.Body.succeeded_json
    lqs.Http.Body.failed_json lqs.Http.Body.json_result lqs.Http.Body.xml_result
    lqs.Http.Body.sent_answer lqs.Http.Body.json_answer lqs.Http.Body.json_body
    lqs.Http.Body.xml_answer lqs.Http.Body.xml_body lqs.Http.Config.validate_limits
    lqs.Http.Config.validate_authentication lqs.Http.Config.validate lqs.Http.Config.env_limit
    lqs.Http.Config.from_env lqs.Http.Config.installed_hook lqs.Http.Config.router
    lqs.Http.Configuration.same_policy lqs.Http.Configuration.same_security
    lqs.Http.Configuration.same_queue_configuration lqs.Http.Configuration.strings_or
    lqs.Http.Configuration.values_under lqs.Http.Configuration.requested_attribute_names
    lqs.Http.Configuration.bool_text lqs.Http.Configuration.put
    lqs.Http.Configuration.add_attributes lqs.Http.Configuration.base_attributes
    lqs.Http.Configuration.fifo_attributes lqs.Http.Configuration.queue_attributes
    lqs.Http.Configuration.readable lqs.Http.Configuration.check_names
    lqs.Http.Configuration.select_queue_attributes lqs.Http.Dispatch.execute
    lqs.Http.Dispatch.dispatch_own lqs.Http.Dispatch.dispatch lqs.Http.Entries.add_entry
    lqs.Http.Entries.group_entries lqs.Http.Entries.entry_requests lqs.Http.Entries.entries
    lqs.Http.Entries.entry_size lqs.Http.Handler.◌>>=◌ lqs.Http.Handler.reply
    lqs.Http.Handler.finish lqs.Http.Handler.read lqs.Http.Handler.look lqs.Http.Handler.attempt
    lqs.Http.Handler.call lqs.Http.Handler.lock_lqs lqs.Http.Identity.local_principal
    lqs.Http.Identity.local_hook lqs.Http.Identity.bit_xor lqs.Http.Identity.bit_or
    lqs.Http.Identity.difference lqs.Http.Identity.bearer_hook lqs.Http.Laws.Escape.escape_byte
    lqs.Http.Lists.required_strings lqs.Http.Lists.index_of lqs.Http.Lists.indexed_values
    lqs.Http.Lists.permission_list lqs.Http.Lists.query_keys lqs.Http.Lists.tag_keys
    lqs.Http.Lists.destructive_queue lqs.Http.Management.queues_answer
    lqs.Http.Management.list_queues_action lqs.Http.Management.absent_here
    lqs.Http.Management.is_missing lqs.Http.Management.get_queue_url_action
    lqs.Http.Management.destroy lqs.Http.Management.destroy_action
    lqs.Http.Management.tag_queue_action lqs.Http.Management.untag_queue_action
    lqs.Http.Management.list_queue_tags_action lqs.Http.Management.add_permission_action
    lqs.Http.Management.remove_permission_action lqs.Http.Management.permission_action
    lqs.Http.Maps.string_fields lqs.Http.Maps.json_queue_attributes lqs.Http.Maps.index_and_field
    lqs.Http.Maps.fill lqs.Http.Maps.add_slot lqs.Http.Maps.collect_slots lqs.Http.Maps.named_values
    lqs.Http.Maps.query_queue_attributes lqs.Http.Maps.attributes_of lqs.Http.Maps.keyed_values
    lqs.Http.Maps.json_tags lqs.Http.Maps.parse_tags lqs.Http.Maps.settable
    lqs.Http.Maps.validate_attribute_names lqs.Http.Messages.add_indexed
    lqs.Http.Messages.collect_indexed lqs.Http.Messages.value_of_fields
    lqs.Http.Messages.query_attributes lqs.Http.Messages.entries_of
    lqs.Http.Messages.attribute_entries lqs.Http.Messages.one_value lqs.Http.Messages.attribute_of
    lqs.Http.Messages.attributes_from lqs.Http.Messages.parse_attributes lqs.Http.Names.last_segment
    lqs.Http.Names.queue_name lqs.Http.Names.valid_queue_name lqs.Http.Names.validate_queue_name
    lqs.Http.Names.parse_bool_attribute lqs.Http.Names.parse_seconds lqs.Http.Poll.request_of_pass
    lqs.Http.Poll.after_pass lqs.Http.Poll.receive_pass lqs.Http.Poll.poll_receive
    lqs.Http.Poll.start_receive lqs.Http.Poll.receive_message lqs.Http.Reply.missing
    lqs.Http.Reply.invalid_parameter lqs.Http.Reply.map_lqs_error lqs.Http.Requests.string_list
    lqs.Http.Requests.parse_selection lqs.Http.Requests.apply lqs.Http.Requests.parse_send_request
    lqs.Http.Requests.parse_receive_request lqs.Http.Response.response
    lqs.Http.Response.success_response lqs.Http.Response.error_response
    lqs.Http.Serve.admission_error lqs.Http.Serve.context_of lqs.Http.Serve.run_action
    lqs.Http.Serve.run_request lqs.Http.Serve.process_post lqs.Http.Serve.request_id
    lqs.Http.Serve.handle_request lqs.Http.Settings.parse_redrive_policy
    lqs.Http.Settings.seconds_attribute lqs.Http.Settings.millis_attribute
    lqs.Http.Settings.parse_update lqs.Http.Settings.delivery_attributes
    lqs.Http.Settings.parse_create_queue lqs.Http.Wire.protocol_from_headers
    lqs.Http.Wire.parse_json lqs.Http.Wire.parse_query lqs.Http.Wire.parse_wire
    lqs.Http.Wire.string_of lqs.Http.Wire.required_string lqs.Http.Wire.optional_string
    lqs.Http.Wire.unsigned lqs.Http.Xml.replace_byte lqs.Http.Xml.xml_escape lqs.Http.Xml.element
    lqs.Http.Xml.concat_map lqs.Prelude.Lists.any lqs.Prelude.Lists.all lqs.Prelude.Lists.select
    lqs.Prelude.Lists.find lqs.Prelude.Lists.count lqs.Prelude.Lists.update lqs.Prelude.Lists.take
    lqs.Prelude.Lists.drop lqs.Prelude.Lists.replicate lqs.Prelude.Lists.trim_start
    lqs.Prelude.Lists.trim_end lqs.Prelude.Parse.strip_prefix lqs.Prelude.Parse.strip_suffix
    lqs.Prelude.Parse.before_first lqs.Prelude.Parse.after_last lqs.Prelude.Parse.decimal_value
    lqs.Prelude.Parse.digits_u64 lqs.Prelude.Parse.parse_u64 lqs.Prelude.Parse.parse_index
    lqs.Prelude.Parse.map_get lqs.Prelude.Parse.index_insert lqs.Prelude.Parse.index_get
    lqs.Prelude.Print.hex_digit lqs.Prelude.Print.hex_fixed lqs.Prelude.Print.hex_min
    lqs.Prelude.Print.decimal lqs.Prelude.Print.hex_value lqs.Prelude.Print.parse_hex_from
    lqs.Prelude.Print.parse_hex lqs.Prelude.Text.text lqs.Prelude.Text.bytes_eq
    lqs.Prelude.Text.is_ascii_graphic lqs.Prelude.Text.is_ascii_digit
    lqs.Prelude.Text.is_ascii_alphanumeric lqs.Prelude.Text.to_ascii_lowercase
    lqs.Prelude.Text.starts_with lqs.Prelude.Text.ends_with lqs.Prelude.Text.contains_text
    lqs.Prelude.Text.split_once lqs.Prelude.Text.chars lqs.Prelude.Text.option_eq
    lqs.Prelude.Text.bytes_lt lqs.Prelude.Text.map_insert lqs.Prelude.Text.split
    lqs.Prelude.Text.splitn lqs.Prelude.Word.saturating_add lqs.Prelude.Word.saturating_mul
    lqs.Prelude.Word.saturating_add_i64 lqs.Prelude.Word.u32_be_bytes lqs.Queue.Send.resolve_group
    lqs.Queue.Send.resolve_deduplication lqs.Queue.Send.prepare_send lqs.Queue.Types.as_db_value
    lqs.Queue.Types.from_db_value lqs.Queue.Types.scope_as_str lqs.Queue.Types.scope_from_str
    lqs.Queue.Types.limit_as_str lqs.Queue.Types.limit_from_str
    lqs.Queue.Validate.validate_receive_options lqs.Queue.Validate.validate_delivery_options
    lqs.Queue.Validate.validate_fifo lqs.Queue.Validate.valid_identifier
    lqs.Queue.Validate.validate_attempt_id lqs.Queue.Validate.validate_options
    lqs.Queue.Validate.valid_tag_char lqs.Queue.Validate.validate_tag_component
    lqs.Queue.Validate.validate_each lqs.Queue.Validate.validate_tags
    lqs.Queue.Validate.validate_queue_creation lqs.Queue.Validate.resolve_queue_update
    lqs.Security.Authorize.principal_of lqs.Security.Authorize.applies lqs.Security.Authorize.denies
    lqs.Security.Authorize.decide_access lqs.Security.Authorize.authorize
    lqs.Security.Glob.only_stars lqs.Security.Glob.retry_from lqs.Security.Glob.glob_loop
    lqs.Security.Glob.glob lqs.Security.Glob.Wildcard.any_suffix lqs.Security.Glob.Wildcard.one_byte
    lqs.Security.Glob.Wildcard.matches lqs.Security.Json.to_list lqs.Security.Json.of_list
    lqs.Security.Json.keys lqs.Security.Json.get_field lqs.Security.Json.get
    lqs.Security.Json.is_text lqs.Security.Json.set_field lqs.Security.Names.arn_prefix
    lqs.Security.Names.permission_action lqs.Security.Names.actions lqs.Security.Names.account
    lqs.Security.Names.iam_parts lqs.Security.Names.valid_principal lqs.Security.Names.aws_identity
    lqs.Security.Names.identity_account lqs.Security.Names.principal_matches
    lqs.Security.Names.validate_label lqs.Security.Permission.has_sid
    lqs.Security.Permission.grantable_action lqs.Security.Permission.grant
    lqs.Security.Permission.empty_policy lqs.Security.Permission.with_statements
    lqs.Security.Permission.existing_policy lqs.Security.Permission.add_permission
    lqs.Security.Permission.remove_permission lqs.Security.Policy.texts lqs.Security.Policy.strings
    lqs.Security.Policy.as_statements lqs.Security.Policy.statements lqs.Security.Policy.as_object
    lqs.Security.Policy.supported_root lqs.Security.Policy.check_sid
    lqs.Security.Policy.valid_effect lqs.Security.Policy.only_aws lqs.Security.Policy.wildcard_only
    lqs.Security.Policy.principal_value lqs.Security.Policy.known_action
    lqs.Security.Policy.valid_resource lqs.Security.Policy.supported_fields
    lqs.Security.Policy.check_statement lqs.Security.Policy.check_statements
    lqs.Security.Policy.parse_policy lqs.Security.Settings.validate_key
    lqs.Security.Settings.validate_policy lqs.Security.Settings.validate_security
    lqs.Security.Settings.with_key lqs.Security.Settings.with_sse lqs.Security.Settings.updated
    lqs.Store.Manage.last_of_cursor lqs.Store.Manage.last_name lqs.Store.Manage.names_after
    lqs.Store.Manage.next_cursor_of lqs.Store.Manage.list_queues lqs.Store.Manage.queue_metrics
    lqs.Store.Manage.collect_tags lqs.Store.Manage.list_queue_tags lqs.Store.Manage.tag_body
    lqs.Store.Manage.tag_queue lqs.Store.Manage.validate_keys lqs.Store.Manage.remove_tags
    lqs.Store.Manage.untag_body lqs.Store.Manage.untag_queue lqs.Store.Messages.holds
    lqs.Store.Messages.invalidate lqs.Store.Messages.delete_messages
    lqs.Store.Messages.update_messages lqs.Store.Messages.expire_messages
    lqs.Store.Messages.next_sequence lqs.Store.Messages.message_id_of lqs.Store.Messages.insert_row
    lqs.Store.Messages.moved_delay lqs.Store.Messages.moved_row lqs.Store.Messages.move_message
    lqs.Store.Read.ms lqs.Store.Read.find_queue lqs.Store.Read.queue_exists
    lqs.Store.Read.queue_type lqs.Store.Read.read_security lqs.Store.Read.read_redrive_policy
    lqs.Store.Read.read_queue_config lqs.Store.Read.in_flight lqs.Store.Read.count_in_flight
    lqs.Store.Read.in_flight_count lqs.Store.Read.queue_depth
    lqs.Store.Receive.Attempts.visibility_text lqs.Store.Receive.Attempts.fingerprint
    lqs.Store.Receive.Attempts.forget_attempts lqs.Store.Receive.Attempts.is_extra
    lqs.Store.Receive.Attempts.hide_again lqs.Store.Receive.Attempts.check_quota
    lqs.Store.Receive.Attempts.replay_found lqs.Store.Receive.Attempts.replay_attempt
    lqs.Store.Receive.Attempts.add_members lqs.Store.Receive.Attempts.save_attempt
    lqs.Store.Receive.Collect.note_delivery lqs.Store.Receive.Collect.act
    lqs.Store.Receive.Collect.with_candidate lqs.Store.Receive.Collect.round
    lqs.Store.Receive.Collect.continue_with lqs.Store.Receive.Collect.collect
    lqs.Store.Receive.Collect.collect_fuel lqs.Store.Receive.Collect.collect_received
    lqs.Store.Receive.Deliver.receipt_handle_of lqs.Store.Receive.Deliver.delivered
    lqs.Store.Receive.Deliver.sequence_number lqs.Store.Receive.Deliver.fifo_attributes
    lqs.Store.Receive.Deliver.system_attributes lqs.Store.Receive.Deliver.deliver_candidate
    lqs.Store.Receive.Deliver.insert_origin lqs.Store.Receive.Deliver.redrive_candidate
    lqs.Store.Receive.Next.is_receivable lqs.Store.Receive.Next.sql_eq lqs.Store.Receive.Next.blocks
    lqs.Store.Receive.Next.is_eligible lqs.Store.Receive.Next.preferred_first
    lqs.Store.Receive.Next.next_message lqs.Store.Receive.Next.next_receivable
    lqs.Store.Receive.Next.candidate_action lqs.Store.Receive.Page.fresh_page
    lqs.Store.Receive.Page.page_or_fresh lqs.Store.Receive.Page.receive_body
    lqs.Store.Receive.Page.receive_page lqs.Store.Receive.Page.receive_with_options
    lqs.Store.Receive.Page.receive lqs.Store.Redrive.dlq_error lqs.Store.Redrive.put_policy
    lqs.Store.Redrive.write_redrive_policy lqs.Store.Redrive.touch_queue
    lqs.Store.Redrive.set_policy_body lqs.Store.Redrive.set_redrive_policy
    lqs.Store.Redrive.redrive_policy lqs.Store.Redrive.insert_sorted lqs.Store.Redrive.sort_names
    lqs.Store.Redrive.list_dead_letter_source_queues lqs.Store.Redrive.is_movable
    lqs.Store.Redrive.redrive_loop lqs.Store.Redrive.redrive_body
    lqs.Store.Redrive.redrive_dead_letters lqs.Store.Remove.void_attempts
    lqs.Store.Remove.purge_rows lqs.Store.Remove.purge_body lqs.Store.Remove.purge_queue
    lqs.Store.Remove.hands_out_from lqs.Store.Remove.detach lqs.Store.Remove.drop_queue
    lqs.Store.Remove.reserve_name lqs.Store.Remove.delete_queue_body lqs.Store.Remove.delete_queue
    lqs.Store.Send.forget_keys lqs.Store.Send.is_duplicate lqs.Store.Send.is_before
    lqs.Store.Send.first_key lqs.Store.Send.find_duplicate lqs.Store.Send.sent_row
    lqs.Store.Send.remember_key lqs.Store.Send.insert_message lqs.Store.Send.send_unless
    lqs.Store.Send.send_body lqs.Store.Send.send lqs.Store.Settings.put_security
    lqs.Store.Settings.write_security lqs.Store.Settings.put_tag lqs.Store.Settings.write_tags
    lqs.Store.Settings.new_row lqs.Store.Settings.insert_queue lqs.Store.Settings.create_body
    lqs.Store.Settings.create_queue lqs.Store.Settings.with_update lqs.Store.Settings.delay_again
    lqs.Store.Settings.update_body lqs.Store.Settings.set_queue_attributes
    lqs.Store.Settings.queue_security lqs.Store.Settings.authorize_queue
    lqs.Store.Settings.add_permission_body lqs.Store.Settings.add_permission
    lqs.Store.Settings.remove_permission_body lqs.Store.Settings.remove_permission
    lqs.Store.Visibility.has_receipt lqs.Store.Visibility.delete lqs.Store.Visibility.change_rows
    lqs.Store.Visibility.change_visibility
runs = tt
