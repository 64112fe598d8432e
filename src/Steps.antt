-- ===== src/Steps.antt =====
-- The steps that write to the database: db_write and notify
-- (packages/engine/src/steps/dbWrite.ts, packages/engine/src/steps/notify.ts).
pub mod Frames
pub mod Halting
pub mod Dispatch
pub mod Http
pub mod Llm
use ai_agent_workflow_builde.Common.{
  ⊤, ℕ, String, Bool, true, false, not, ◌&&◌, ◌||◌, Option, none, some, List, [], ◌∷◌, ◌==◌, leb,
  eqb, if◌then◌else◌, find, any, update_where, get_or_else,
}
use ai_agent_workflow_builde.Common.Text.{trim, size}
use ai_agent_workflow_builde.Json.{
  Json, null, bool, number, string, object, field, end, prop, non_null, or_null,
}
use ai_agent_workflow_builde.Json.Stringify.{stringify}
use ai_agent_workflow_builde.Domain.{Time, StepExecutionResult, WorkflowRunRow, step_error}
use ai_agent_workflow_builde.Host.{Host}
use ai_agent_workflow_builde.Store.{Db, OutputRow, NotificationRow}
use ai_agent_workflow_builde.Store.Program.{Program, pure, throw, now, fresh_ids, request, ◌>>=◌}
use ai_agent_workflow_builde.Tables.{is_run}
use Prim.Native.Char.{Char, code}
use Prim.Native.String

-- The characters that a key may have.
abbrev is_key_char : Char → Bool
is_key_char c =
    let n = code c in
    (leb b'A' n && leb n b'Z')
    || (leb b'a' n && leb n b'z')
    || (leb b'0' n && leb n b'9')
    || eqb n b'_'
    || eqb n b'.'
    || eqb n b'-'

has_key_chars : String → Bool
has_key_chars String.[] = true
has_key_chars (String.◌∷◌ c s) = is_key_char c && has_key_chars s

-- `KEY_PATTERN.test(key)`
unfoldable pub is_key : String → Bool
unfolding has_key_chars
is_key s = leb 1 (size s) && (leb (size s) 120 && has_key_chars s)

module _ {N : Type 0} where
  unfoldable pub is_output : String → String → OutputRow N → Bool
  is_output run_id key o = o.workflow_run_id == run_id && o.key == key

  abbrev new_output : String → Time → WorkflowRunRow N → String → Json N → OutputRow N
  new_output uuid time run key value = record {
    id = uuid;
    org_id = run.org_id;
    workflow_run_id = run.id;
    key = key;
    value = value;
    created_at = time;
  }

  -- The conflict on the unique key sets the value.
  abbrev upsert_output : OutputRow N → List (OutputRow N) → List (OutputRow N)
  upsert_output o [] = o ∷ []
  upsert_output o (p ∷ ps) =
      if p.workflow_run_id == o.workflow_run_id && p.key == o.key
      then record p { value = o.value } ∷ ps
      else p ∷ upsert_output o ps

  -- InsertWorkflowOutput: the organization is that of the run, which the foreign key demands.
  unfoldable pub write_output :
      String → Time → String → String → Json N → Db N → Option (Option (OutputRow N) × Db N)
  unfolding is_output
  write_output uuid time run_id key value d = elim (find (is_run run_id) d.engine.runs) [
    | none ↦ none
    | some run ↦
        let outputs = upsert_output (new_output uuid time run key value) d.outputs in
        some (find (is_output run_id key) outputs, record d { outputs = outputs })
  ]

  -- InsertNotification
  unfoldable pub insert_notification :
      String
      → Time
      → String
      → String
      → String
      → Json N
      → Db N
      → Option (Option (NotificationRow N) × Db N)
  insert_notification uuid time run_id step_run_id channel payload d =
      elim (find (is_run run_id) d.engine.runs) [
        | none ↦ none
        | some run ↦
            let row : NotificationRow N = record {
              id = uuid;
              org_id = run.org_id;
              workflow_run_id = run_id;
              step_run_id = some step_run_id;
              channel = channel;
              payload = payload;
              status = "pending";
              created_at = time;
              sent_at = none;
              error = none;
            } in
            some (some row, record d { notifications = row ∷ d.notifications })
      ]

module _ {N : Type 0} (host : Host N) where
  abbrev result : Json N → StepExecutionResult N
  result output = record { output = output; branch = none }

  abbrev permanent : {A : Type 0} → String → Program N A
  permanent message = throw (step_error message true)

  written_of : Option (OutputRow N) → Program N (StepExecutionResult N)
  written_of none = throw (step_error "db_write produced no row" false)
  written_of (some row) = pure (
      result (
        object (
          field "written" (bool true) (
            field "output_id" (string row.id) (
              field "org_id" (string row.org_id) (
                field "key" (string row.key)
                  (field "created_at" (number (host.of_ℕ row.created_at)) end)))))))

  write_value : String → String → Option (Json N) → Program N (StepExecutionResult N)
  unfolding write_output written_of
  write_value run_id key none = permanent "db_write requires a \"value\""
  write_value run_id key (some value) = do
    time ← now host
    uuid ← fresh_ids host
    row ← request host (write_output (uuid 0) time run_id key value)
    written_of row

  key_message : Option (Json N) → String
  key_message key =
      String.◌++◌ "db_write \"key\" must match /^[A-Za-z0-9_.-]{1,120}$/ (got "
        (String.◌++◌ (elim key [ none ↦ "undefined" | some v ↦ stringify host.show v ]) ")")

  write_keyed : Json N → String → Option (Json N) → Program N (StepExecutionResult N)
  unfolding write_value key_message is_key
  write_keyed cfg run_id (some (string key)) =
      if is_key key
      then write_value run_id key (prop "value" cfg)
      else permanent (key_message (some (string key)))
  write_keyed cfg run_id key = permanent (key_message key)

  -- `executeDbWrite`
  unfoldable pub execute_db_write : Json N → String → Program N (StepExecutionResult N)
  unfolding write_keyed
  execute_db_write cfg run_id = write_keyed cfg run_id (prop "key" cfg)

  notified_of : Json N → Option (NotificationRow N) → Program N (StepExecutionResult N)
  notified_of channel none = throw (step_error "notify produced no notification row" false)
  notified_of channel (some row) = pure (
      result (
        object (
          field "notification_id" (string row.id) (
            field "org_id" (string row.org_id) (
              field "channel" channel (
                field "delivery_status" (string row.status)
                  (field "enqueued_at" (number (host.of_ℕ row.created_at)) end)))))))

  abbrev is_channel : String → Bool
  is_channel c = c == "slack" || (c == "email" || c == "log")

  abbrev payload_of : Json N → String → String → Json N
  payload_of title message run_id = object (
      field "title" title
        (field "message" (string message) (field "workflow_run_id" (string run_id) end)))

  channel_error : Option (Json N) → Program N (StepExecutionResult N)
  channel_error channel = permanent (
      String.◌++◌ "notify \"channel\" must be slack, email, or log (got "
        (String.◌++◌ (host.to_text channel) ")"))

  enqueue : String → Json N → String → String → Program N (StepExecutionResult N)
  unfolding insert_notification notified_of
  enqueue channel payload run_id step_run_id = do
    time ← now host
    uuid ← fresh_ids host
    row ← request host (insert_notification (uuid 0) time run_id step_run_id channel payload)
    notified_of (string channel) row

  notify_on : Json N → Json N → String → String → Program N (StepExecutionResult N)
  unfolding channel_error enqueue
  notify_on (string channel) payload run_id step_run_id =
      if is_channel channel
      then enqueue channel payload run_id step_run_id
      else channel_error (some (string channel))
  notify_on channel payload run_id step_run_id = channel_error (some channel)

  abbrev empty_message : Program N (StepExecutionResult N)
  empty_message = permanent "notify requires a non-empty \"message\""

  notify_message : Json N → Option (Json N) → String → String → Program N (StepExecutionResult N)
  unfolding notify_on trim
  notify_message cfg (some (string message)) run_id step_run_id =
      if trim message == ""
      then empty_message
      else let title = get_or_else (non_null (prop "title" cfg)) (string "Workflow notification") in
        notify_on (get_or_else (non_null (prop "channel" cfg)) (string "log"))
          (payload_of title message run_id) run_id step_run_id
  notify_message cfg message run_id step_run_id = empty_message

  -- `executeNotify`
  unfoldable pub execute_notify : Json N → String → String → Program N (StepExecutionResult N)
  unfolding notify_message
  execute_notify cfg run_id step_run_id = notify_message cfg (prop "message" cfg) run_id step_run_id
