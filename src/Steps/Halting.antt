-- ===== src/Steps/Halting.antt =====
-- Every db_write and every notify comes to an end.
use ai_agent_workflow_builde.Common.{
  String, Option, none, some, inl, inr, ◌==◌, Bool-cases, get_or_else,
}
use ai_agent_workflow_builde.Common.Text.{trim}
use ai_agent_workflow_builde.Json.{Json, null, bool, number, string, array, object, prop, non_null}
use ai_agent_workflow_builde.Host.{Host}
use ai_agent_workflow_builde.Store.{OutputRow, NotificationRow}
use ai_agent_workflow_builde.Store.Ends.{Halts, and_then-Halts, request-Halts}
use ai_agent_workflow_builde.Steps.{
  write_keyed, notify_on, channel_error, written_of, write_value, execute_db_write, notified_of,
  enqueue, notify_message, execute_notify, is_key, is_channel, payload_of,
}

module _ {N : Type 0} (host : Host N) (run_id : String) where
  written_of-Halts : (o : Option (OutputRow N)) → Halts (written_of host o)
  unfolding written_of
  written_of-Halts none w = λ e. cc
  written_of-Halts (some r) w = λ e. cc

  write_value-Halts :
      (key : String) (value : Option (Json N)) → Halts (write_value host run_id key value)
  unfolding write_value
  write_value-Halts key none w = λ e. cc
  write_value-Halts key (some value) w =
      and_then-Halts _ _ (request-Halts host _ w) (written_of-Halts)

  write_keyed-Halts :
      (cfg : Json N) (key : Option (Json N)) → Halts (write_keyed host cfg run_id key)
  unfolding write_keyed
  write_keyed-Halts cfg none w = λ e. cc
  write_keyed-Halts cfg (some null) w = λ e. cc
  write_keyed-Halts cfg (some (bool b)) w = λ e. cc
  write_keyed-Halts cfg (some (number n)) w = λ e. cc
  write_keyed-Halts cfg (some (array vs)) w = λ e. cc
  write_keyed-Halts cfg (some (object fs)) w = λ e. cc
  write_keyed-Halts cfg (some (string key)) w = elim (Bool-cases (is_key key)) [
    | inl valid ↦ rw valid (write_value-Halts key (prop "value" cfg) w)
    | inr invalid ↦ rw invalid (λ e. cc)
  ]

  notified_of-Halts :
      (channel : Json N) (o : Option (NotificationRow N)) → Halts (notified_of host channel o)
  unfolding notified_of
  notified_of-Halts channel none w = λ e. cc
  notified_of-Halts channel (some r) w = λ e. cc

  module _ (step_run_id : String) where
    enqueue-Halts :
        (channel : String) (payload : Json N)
        → Halts (enqueue host channel payload run_id step_run_id)
    unfolding enqueue
    enqueue-Halts channel payload w =
        and_then-Halts _ _ (request-Halts host _ w) (notified_of-Halts (string channel))

    notify_on-Halts :
        (channel payload : Json N) → Halts (notify_on host channel payload run_id step_run_id)
    unfolding notify_on channel_error
    notify_on-Halts null payload w = λ e. cc
    notify_on-Halts (bool b) payload w = λ e. cc
    notify_on-Halts (number n) payload w = λ e. cc
    notify_on-Halts (array vs) payload w = λ e. cc
    notify_on-Halts (object fs) payload w = λ e. cc
    notify_on-Halts (string channel) payload w = elim (Bool-cases (is_channel host channel)) [
      | inl known ↦ rw known (enqueue-Halts channel payload w)
      | inr unknown ↦ rw unknown (λ e. cc)
    ]

    notify_message-Halts :
        (cfg : Json N) (message : Option (Json N))
        → Halts (notify_message host cfg message run_id step_run_id)
    unfolding notify_message
    notify_message-Halts cfg none w = λ e. cc
    notify_message-Halts cfg (some null) w = λ e. cc
    notify_message-Halts cfg (some (bool b)) w = λ e. cc
    notify_message-Halts cfg (some (number n)) w = λ e. cc
    notify_message-Halts cfg (some (array vs)) w = λ e. cc
    notify_message-Halts cfg (some (object fs)) w = λ e. cc
    notify_message-Halts cfg (some (string message)) w = elim (Bool-cases (trim message == "")) [
      | inl empty ↦ rw empty (λ e. cc)
      | inr text ↦ rw text (
          notify_on-Halts (get_or_else (non_null (prop "channel" cfg)) (string "log"))
            (payload_of host
              (get_or_else (non_null (prop "title" cfg)) (string "Workflow notification")) message
              run_id)
            w)
    ]

  pub execute_db_write-Halts : (cfg : Json N) → Halts (execute_db_write host cfg run_id)
  unfolding execute_db_write
  execute_db_write-Halts cfg = write_keyed-Halts cfg (prop "key" cfg)

  pub execute_notify-Halts :
      (cfg : Json N) (step_run_id : String) → Halts (execute_notify host cfg run_id step_run_id)
  unfolding execute_notify
  execute_notify-Halts cfg step_run_id = notify_message-Halts step_run_id cfg (prop "message" cfg)
