-- ===== src/Routes/Notifications.antt =====
-- The event that delivers a notification (apps/web/app/api/events/notification/route.ts).
use ai_agent_workflow_builde.Common.{
  ⊤, String, Bool, true, false, ◌&&◌, Option, none, some, ◌==◌, if◌then◌else◌, get_or_else,
  update_where,
}
use ai_agent_workflow_builde.Common.Text.{first}
use ai_agent_workflow_builde.Json.{Json, bool, string, object, field, end, prop, prop_of, non_null}
use ai_agent_workflow_builde.Json.Stringify.{stringify}
use ai_agent_workflow_builde.Domain.{Thrown, message_of, other, Time}
use ai_agent_workflow_builde.Env.{notify_mode, slack_webhook_url}
use ai_agent_workflow_builde.Host.{Host}
use ai_agent_workflow_builde.Branching.{is_truthy}
use ai_agent_workflow_builde.Network.{
  Network, FetchRequest, Fetched, responded, timed_out, failed, send,
}
use ai_agent_workflow_builde.Store.{Db, NotificationRow}
use ai_agent_workflow_builde.Store.Program.{
  Result, ok, err, Program, pure, throw, lift, chain, handle, now, request, ◌>>=◌, ◌>>◌,
}
use ai_agent_workflow_builde.Routes.{
  Request, Response, guarded, assert_called_by_hasura, parse_event_payload,
}
use ai_agent_workflow_builde.Steps.Llm.Providers.{is_text, is_ok, property, read_text}
use Prim.Native.String.{◌++◌ as ◌++ₛ◌}

module _ {N : Type 0} where
  abbrev pub is_notification : String → NotificationRow N → Bool
  is_notification id n = n.id == id

  abbrev pub marked : String → Option Time → Option String → NotificationRow N → NotificationRow N
  marked status sent_at error n = record n { status = status; sent_at = sent_at; error = error }

  -- MarkNotification
  unfoldable pub mark_notification :
      String → String → Option Time → Option String → Db N → Option (⊤ × Db N)
  mark_notification id status sent_at error d = some (
    tt,
    record d {
      notifications =
          update_where (is_notification id) (marked status sent_at error) d.notifications;
    },
  )

  -- `row.payload.title`, where `row.payload` may be missing, which throws.
  pub payload_property : String → Option (Json N) → Result (Option (Json N))
  payload_property key none = err (other "Cannot read properties of undefined")
  payload_property key (some v) = property key v

module _ {N : Type 0} (host : Host N) (net : Network N) where
  unfoldable pub slack_text : Json N → Result String
  unfolding payload_property
  slack_text row = chain (payload_property "title" (prop "payload" row)) (λ title. ok (
      "*"
      ++ₛ (host.to_text (some (get_or_else (non_null title) (string "Workflow notification")))
          ++ₛ ("*\n"
              ++ₛ host.to_text (
                  some (
                    get_or_else (non_null (prop_of "message" (prop "payload" row)))
                      (string "")))))))

  unfoldable pub slack_post : String → String → FetchRequest N
  slack_post url text = record {
    method = "POST";
    url = url;
    headers = field "content-type" (string "application/json") end;
    body = some (stringify host.show (object (field "text" (string text) end)));
  }

  -- From the outcome of `fetch` on.
  unfoldable pub slack_answered : Fetched → Program N ⊤
  slack_answered (responded res) =
      if is_ok res.status
      then pure tt
      else (lift (read_text host net res.body) >>= λ text. throw (
          other (
            "Slack returned HTTP "
            ++ₛ (host.show (host.of_ℕ res.status) ++ₛ (": " ++ₛ first 200 text)))))
  slack_answered timed_out = throw (other "This operation was aborted")
  slack_answered (failed reason) = throw (other reason)

  unfoldable pub deliver_to_slack : Json N → Program N ⊤
  unfolding slack_text slack_post slack_answered send
  deliver_to_slack row =
      if slack_webhook_url host == ""
      then throw (other "NOTIFY_MODE=slack but SLACK_WEBHOOK_URL is not set")
      else do
        text ← lift (slack_text row)
        outcome ← send net (slack_post (slack_webhook_url host) text)
        slack_answered outcome

  -- The log line reads the payload.
  unfoldable pub log_notification : Json N → Program N ⊤
  unfolding payload_property
  log_notification row =
      lift (payload_property "workflow_run_id" (prop "payload" row)) >>= λ v. pure tt

  abbrev pub goes_to_slack : Json N → Bool
  goes_to_slack row = notify_mode host == "slack" && is_text "slack" (prop "channel" row)

  unfoldable pub deliver_row : Json N → Program N ⊤
  unfolding deliver_to_slack log_notification
  deliver_row row = if goes_to_slack row then deliver_to_slack row else log_notification row

  abbrev pub id_of : Json N → String
  id_of row = host.to_text (prop "id" row)

  -- The body of the inner `try`, up to its response.
  unfoldable pub deliver_and_mark : Json N → Program N ⊤
  unfolding deliver_row mark_notification
  deliver_and_mark row = do
    deliver_row row
    time ← now host
    request host (mark_notification (id_of row) "sent" (some time) none)

  unfoldable pub delivered_response : Json N → Response N
  delivered_response row = record {
    status = 200;
    body = object (
        field "ok" (bool true) (
          field "notification_id" (string (id_of row))
            (field "delivered_via" (string (notify_mode host)) end)));
  }

  unfoldable pub undelivered_response : Json N → String → Response N
  undelivered_response row message = record {
    status = 502;
    body = object (
        field "ok" (bool false)
          (field "notification_id" (string (id_of row)) (field "error" (string message) end)));
  }

  -- `catch (deliveryError)`
  unfoldable pub mark_failed : Json N → Thrown → Program N (Response N)
  unfolding mark_notification undelivered_response
  mark_failed row e =
      request host (mark_notification (id_of row) "failed" none (some (first 1000 (message_of e))))
      >> pure (undelivered_response row (message_of e))

  unfoldable pub settle_notification : Json N → Program N (Response N)
  unfolding deliver_and_mark mark_failed delivered_response
  settle_notification row =
      handle (deliver_and_mark row) (mark_failed row) (λ u. pure (delivered_response row))

  passed_over : String → Response N
  passed_over reason = record {
    status = 200;
    body = object (field "ok" (bool true) (field "skipped" (string reason) end));
  }

  -- From `event.data.new` on.
  unfoldable pub notify_row : Option (Json N) → Program N (Response N)
  unfolding settle_notification is_truthy passed_over
  notify_row none = pure (passed_over "no row")
  notify_row (some row) =
      if is_truthy host (prop "id" row)
      then if is_text "pending" (prop "status" row)
        then settle_notification row
        else pure (passed_over ("already " ++ₛ host.to_text (prop "status" row)))
      else pure (passed_over "no row")

  unfoldable pub notification_event : Request N → Program N (Response N)
  unfolding notify_row guarded
  notification_event request = guarded (do
    assert_called_by_hasura host request
    change ← parse_event_payload host request.body
    notify_row (prop_of "new" change))
