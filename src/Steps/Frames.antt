-- ===== src/Steps/Frames.antt =====
-- db_write and notify write to their own tables only, which is what the engine relies on.
use ai_agent_workflow_builde.Common.{
  String, ◌≡◌, refl, ◌∙◌, Option, none, some, inl, inr, Option-cases, find, Bool-cases, get_or_else,
  ◌==◌,
}
use ai_agent_workflow_builde.Common.Text.{trim}
use ai_agent_workflow_builde.Json.{Json, null, bool, number, string, array, object, prop, non_null}
use ai_agent_workflow_builde.Domain.{Time}
use ai_agent_workflow_builde.Host.{Host}
use ai_agent_workflow_builde.Store.{Db, OutputRow, NotificationRow}
use ai_agent_workflow_builde.Store.Keeps.{Keeps, IsFrame, and_then-Keeps, request-Keeps}
use ai_agent_workflow_builde.Executors.{LeavesEngine}
use ai_agent_workflow_builde.Tables.{is_run}
use ai_agent_workflow_builde.Steps.{
  write_keyed, notify_on, channel_error, write_output, insert_notification, written_of, write_value,
  execute_db_write, notified_of, enqueue, notify_message, execute_notify, is_key, is_channel,
  payload_of,
}

module _ {N : Type 0} where
  abbrev SameEngine : Db N → Db N → Type 0
  SameEngine d d' = d'.engine ≡ d.engine

  SameEngine-frame : IsFrame {N = N} SameEngine
  SameEngine-frame = record { same = λ d. refl; trans = λ a b c p q. q ∙ p }

  write_output-SameEngine :
      (uuid : String) (time : Time) (run_id key : String) (value : Json N) (d : Db N)
      (o : Option (OutputRow N)) (d' : Db N)
      → write_output uuid time run_id key value d ≡ some (o, d')
      → SameEngine d d'
  unfolding write_output
  write_output-SameEngine uuid time run_id key value d o d' h =
      elim (Option-cases (find (is_run run_id) d.engine.runs)) [
        | inl missing ↦ let e = (rw (missing, write_output) at h) in cc
        | inr (run, found) ↦ let e = (rw (found, write_output) at h) in cc
      ]

  insert_notification-SameEngine :
      (uuid : String) (time : Time) (run_id step_run_id channel : String) (payload : Json N)
      (d : Db N) (o : Option (NotificationRow N)) (d' : Db N)
      → insert_notification uuid time run_id step_run_id channel payload d ≡ some (o, d')
      → SameEngine d d'
  unfolding insert_notification
  insert_notification-SameEngine uuid time run_id step_run_id channel payload d o d' h =
      elim (Option-cases (find (is_run run_id) d.engine.runs)) [
        | inl missing ↦ let e = (rw (missing, insert_notification) at h) in cc
        | inr (run, found) ↦ let e = (rw (found, insert_notification) at h) in cc
      ]

module _ {N : Type 0} (host : Host N) (run_id : String) where
  written_of-Keeps : (o : Option (OutputRow N)) → Keeps SameEngine (written_of host o)
  unfolding written_of
  written_of-Keeps none w = refl
  written_of-Keeps (some r) w = refl

  write_value-Keeps :
      (key : String) (value : Option (Json N))
      → Keeps SameEngine (write_value host run_id key value)
  unfolding write_value
  write_value-Keeps key none w = refl
  write_value-Keeps key (some value) w =
      and_then-Keeps SameEngine-frame w.db _ _
        (request-Keeps SameEngine-frame host _
          (λ d o d' e.
            write_output-SameEngine (host.uuid w.tick 0) (host.time w.tick) run_id key value d o d'
              e)
          w)
        (written_of-Keeps)

  write_keyed-Keeps :
      (cfg : Json N) (key : Option (Json N)) → Keeps SameEngine (write_keyed host cfg run_id key)
  unfolding write_keyed
  write_keyed-Keeps cfg none w = refl
  write_keyed-Keeps cfg (some null) w = refl
  write_keyed-Keeps cfg (some (bool b)) w = refl
  write_keyed-Keeps cfg (some (number n)) w = refl
  write_keyed-Keeps cfg (some (array vs)) w = refl
  write_keyed-Keeps cfg (some (object fs)) w = refl
  write_keyed-Keeps cfg (some (string key)) w = elim (Bool-cases (is_key key)) [
    | inl valid ↦ rw valid (write_value-Keeps key (prop "value" cfg) w)
    | inr invalid ↦ rw invalid refl
  ]

  notified_of-Keeps :
      (channel : Json N) (o : Option (NotificationRow N))
      → Keeps SameEngine (notified_of host channel o)
  unfolding notified_of
  notified_of-Keeps channel none w = refl
  notified_of-Keeps channel (some r) w = refl

  module _ (step_run_id : String) where
    enqueue-Keeps :
        (channel : String) (payload : Json N)
        → Keeps SameEngine (enqueue host channel payload run_id step_run_id)
    unfolding enqueue
    enqueue-Keeps channel payload w =
        and_then-Keeps SameEngine-frame w.db _ _
          (request-Keeps SameEngine-frame host _
            (λ d o d' e.
              insert_notification-SameEngine (host.uuid w.tick 0) (host.time w.tick) run_id
                step_run_id channel payload d o d' e)
            w)
          (notified_of-Keeps (string channel))

    notify_on-Keeps :
        (channel payload : Json N)
        → Keeps SameEngine (notify_on host channel payload run_id step_run_id)
    unfolding notify_on channel_error
    notify_on-Keeps null payload w = refl
    notify_on-Keeps (bool b) payload w = refl
    notify_on-Keeps (number n) payload w = refl
    notify_on-Keeps (array vs) payload w = refl
    notify_on-Keeps (object fs) payload w = refl
    notify_on-Keeps (string channel) payload w = elim (Bool-cases (is_channel host channel)) [
      | inl known ↦ rw known (enqueue-Keeps channel payload w)
      | inr unknown ↦ rw unknown refl
    ]

    notify_message-Keeps :
        (cfg : Json N) (message : Option (Json N))
        → Keeps SameEngine (notify_message host cfg message run_id step_run_id)
    unfolding notify_message
    notify_message-Keeps cfg none w = refl
    notify_message-Keeps cfg (some null) w = refl
    notify_message-Keeps cfg (some (bool b)) w = refl
    notify_message-Keeps cfg (some (number n)) w = refl
    notify_message-Keeps cfg (some (array vs)) w = refl
    notify_message-Keeps cfg (some (object fs)) w = refl
    notify_message-Keeps cfg (some (string message)) w = elim (Bool-cases (trim message == "")) [
      | inl empty ↦ rw empty refl
      | inr text ↦ rw text (
          notify_on-Keeps (get_or_else (non_null (prop "channel" cfg)) (string "log"))
            (payload_of host
              (get_or_else (non_null (prop "title" cfg)) (string "Workflow notification")) message
              run_id)
            w)
    ]

-- Whatever their configuration, and however they end, db_write and notify leave the engine's tables
-- (workflows, steps, runs and step runs) as they were.
pub steps-LeavesEngine :
    {N : Type 0} (host : Host N) (cfg : Json N) (run_id step_run_id : String)
    → LeavesEngine (execute_db_write host cfg run_id)
      × LeavesEngine (execute_notify host cfg run_id step_run_id)
unfolding execute_db_write execute_notify
steps-LeavesEngine host cfg run_id step_run_id = (
  write_keyed-Keeps host run_id cfg (prop "key" cfg),
  notify_message-Keeps host run_id step_run_id cfg (prop "message" cfg),
)
