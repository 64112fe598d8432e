-- ===== src/Routes/Settled.antt =====
-- Every pending notification that is handled ends as sent or as failed.
use ai_agent_workflow_builde.Common.{
  ⊤, String, true, ◌≡◌, ◌⊎◌, refl, sym, ap, ◌∙◌, subst, Option, none, some, inl, inr, List, [], ◌∷◌,
  ◌==◌, Bool-cases, update_where,
}
use ai_agent_workflow_builde.Common.Text.{first}
use ai_agent_workflow_builde.Json.{Json, prop}
use ai_agent_workflow_builde.Domain.{Thrown, message_of, Time}
use ai_agent_workflow_builde.Env.{slack_webhook_url}
use ai_agent_workflow_builde.Host.{Host}
use ai_agent_workflow_builde.Network.{Network, Fetched, responded, timed_out, failed, send}
use ai_agent_workflow_builde.Store.{Db, World, NotificationRow}
use ai_agent_workflow_builde.Store.Keeps.{
  Keeps, IsFrame, and_then-Keeps, request-Keeps, request-eq-ok,
}
use ai_agent_workflow_builde.Store.Program.{
  Result, ok, now, ◌>>=◌, request, and_then-eq-ok, settle-eq-ok,
}
use ai_agent_workflow_builde.Steps.Llm.Providers.{is_ok, read_text}
use ai_agent_workflow_builde.Routes.{Response}
use ai_agent_workflow_builde.Routes.Notifications.{
  slack_answered, slack_text, slack_post, payload_property, is_notification, marked,
  mark_notification, deliver_to_slack, log_notification, goes_to_slack, deliver_row,
  deliver_and_mark, mark_failed, settle_notification, id_of, delivered_response,
  undelivered_response,
}

module _ {N : Type 0} where
  -- The row that has this id, if there is one, with another status.
  abbrev pub mark : String → String → Option Time → Option String → Db N → Db N
  mark id status sent_at error d = record d {
    notifications = update_where (is_notification id) (marked status sent_at error) d.notifications;
  }

  abbrev SameDb : Db N → Db N → Type 0
  SameDb d d' = d' ≡ d

  SameDb-frame : IsFrame {N = N} SameDb
  SameDb-frame = record { same = λ d. refl; trans = λ a b c p q. q ∙ p }

  -- The second mark is what remains.
  update-update :
      (id : String) (f g : NotificationRow N → NotificationRow N)
      → ((n : NotificationRow N) → (g n).id ≡ n.id)
      → ((n : NotificationRow N) → f (g n) ≡ f n)
      → (ns : List (NotificationRow N))
      → update_where (is_notification id) f (update_where (is_notification id) g ns)
        ≡ update_where (is_notification id) f ns
  update-update id f g same over [] = refl
  update-update id f g same over (n ∷ ns) = elim (Bool-cases (n.id == id)) [
    | inl hit ↦
        let there : ((g n).id == id) ≡ true = subst (λ x. (x == id) ≡ true) (sym (same n)) hit in
        rw (hit, there, over n, update-update id f g same over ns) refl
    | inr miss ↦ rw (miss, miss, update-update id f g same over ns) refl
  ]

module _ {N : Type 0} (host : Host N) (net : Network N) (row : Json N) where
  slack_answered-Keeps : (f : Fetched) → Keeps SameDb (slack_answered host net f)
  unfolding slack_answered
  slack_answered-Keeps timed_out w = refl
  slack_answered-Keeps (failed reason) w = refl
  slack_answered-Keeps (responded res) w = elim (Bool-cases (is_ok res.status)) [
    | inl good ↦ rw (good, slack_answered) refl
    | inr bad ↦
        rw (bad, slack_answered)
          (and_then-Keeps SameDb-frame w.db (read_text host net res.body, w) _ refl
            (λ text v. refl))
  ]

  deliver_to_slack-Keeps : Keeps SameDb (deliver_to_slack host net row)
  unfolding deliver_to_slack send
  deliver_to_slack-Keeps w = elim (Bool-cases (slack_webhook_url host == "")) [
    | inl unset ↦ rw (unset, deliver_to_slack) refl
    | inr url ↦
        rw (url, deliver_to_slack)
          (and_then-Keeps SameDb-frame w.db (slack_text host net row, w) _ refl
            (λ text v.
              slack_answered-Keeps
                (net.fetch v.tick (slack_post host net (slack_webhook_url host) text)) _))
  ]

  log_notification-Keeps : Keeps SameDb (log_notification host net row)
  unfolding log_notification
  log_notification-Keeps w =
      and_then-Keeps SameDb-frame w.db (payload_property "workflow_run_id" (prop "payload" row), w)
        _ refl (λ v u. refl)

  deliver_row-Keeps : Keeps SameDb (deliver_row host net row)
  unfolding deliver_row
  deliver_row-Keeps w = elim (Bool-cases (goes_to_slack host net row)) [
    | inl slack ↦ rw (slack, deliver_row) (deliver_to_slack-Keeps w)
    | inr logged ↦ rw (logged, deliver_row) (log_notification-Keeps w)
  ]

  abbrev pub IsSent : Db N → Db N → Type 0
  IsSent d d' = (time : Time) × (d' ≡ mark (id_of host net row) "sent" (some time) none d)

  abbrev pub IsFailed : Db N → Db N → Type 0
  IsFailed d d' =
      (message : String) × (d' ≡ mark (id_of host net row) "failed" none (some message) d)

  -- Databases that a further mark makes equal.
  abbrev Overwritten : Db N → Db N → Type 0
  Overwritten d d' =
      (status : String) (sent_at : Option Time) (error : Option String)
      → mark (id_of host net row) status sent_at error d'
        ≡ mark (id_of host net row) status sent_at error d

  Overwritten-frame : IsFrame Overwritten
  Overwritten-frame = record {
    same = λ d s t e. refl;
    trans = λ a b c p q s t e. q s t e ∙ p s t e;
  }

  mark-Overwritten :
      (status : String) (sent_at : Option Time) (error : Option String) (d d' : Db N) (u : ⊤)
      → mark_notification (id_of host net row) status sent_at error d ≡ some (u, d')
      → Overwritten d d'
  unfolding mark_notification
  mark-Overwritten status sent_at error d d' u h s t e =
      let there : mark (id_of host net row) status sent_at error d ≡ d' = cc in
      subst (λ x. mark (id_of host net row) s t e x ≡ mark (id_of host net row) s t e d) there
        (ap (λ (ns : List (NotificationRow N)). record d { notifications = ns })
          (update-update (id_of host net row) (marked s t e) (marked status sent_at error)
            (λ n. refl) (λ n. refl) d.notifications))

  deliver_and_mark-Overwritten : Keeps Overwritten (deliver_and_mark host net row)
  unfolding deliver_and_mark
  deliver_and_mark-Overwritten w =
      and_then-Keeps Overwritten-frame w.db (deliver_row host net row w) _
        (λ s t e. ap (λ d. mark (id_of host net row) s t e d) (deliver_row-Keeps w))
        (λ u v.
          request-Keeps Overwritten-frame host _
            (λ d a d'. mark-Overwritten "sent" (some (host.time v.tick)) none d d' a) v)

  deliver_and_mark-IsSent :
      (w v : World N) (u : ⊤) → deliver_and_mark host net row w ≡ (ok u, v) → IsSent w.db v.db
  unfolding deliver_and_mark mark_notification
  deliver_and_mark-IsSent w v u h =
      let (done, w1, delivered, rest) =
        and_then-eq-ok (deliver_row host net row w)
          (λ d. now host >>= λ time.
            request host (mark_notification (id_of host net row) "sent" (some time) none))
          h in
      let same : w1.db ≡ w.db =
        subst (λ (p : Result ⊤ × World N). p.1.db ≡ w.db) delivered (deliver_row-Keeps w) in
      let e =
        request-eq-ok host
          (mark_notification (id_of host net row) "sent" (some (host.time w1.tick)) none) w1 rest in
      let stored : v.db ≡ mark (id_of host net row) "sent" (some (host.time w1.tick)) none w1.db =
        cc in
      (
        host.time w1.tick,
        subst (λ d. v.db ≡ mark (id_of host net row) "sent" (some (host.time w1.tick)) none d) same
            stored,
      )

  mark_failed-IsFailed :
      (w v : World N) (e : Thrown) (resp : Response N)
      → mark_failed host net row e w ≡ (ok resp, v)
      → (resp.status ≡ 502)
        × (v.db ≡ mark (id_of host net row) "failed" none (some (first 1000 (message_of e))) w.db)
  unfolding mark_failed mark_notification undelivered_response
  mark_failed-IsFailed w v e resp h =
      let (done, w1, asked, rest) = and_then-eq-ok _ _ h in
      let answer = request-eq-ok host _ w asked in
      let same : undelivered_response host net row (message_of e) ≡ resp = cc in
      let ended : w1 ≡ v = cc in
      let stored : w1.db
          ≡ mark (id_of host net row) "failed" none (some (first 1000 (message_of e))) w.db =
        cc in
      (
        ap (λ (r : Response N). r.status) (sym same),
        ap (λ (x : World N). x.db) (sym ended) ∙ stored,
      )

  -- A pending notification whose handling answers is settled, and nothing else in the database has
  -- changed: with status 200 its row is marked as sent, without an error; with status 502 it is
  -- marked as failed, with the message and no time of sending, also where it had been marked as sent
  -- and only the answer to that was lost. Whether delivery was tried over Slack or logged makes no
  -- difference.
  pub settle_notification-IsSettled :
      (w w' : World N) (resp : Response N)
      → settle_notification host net row w ≡ (ok resp, w')
      → ((resp.status ≡ 200) × IsSent w.db w'.db) ⊎ ((resp.status ≡ 502) × IsFailed w.db w'.db)
  unfolding settle_notification delivered_response
  settle_notification-IsSettled w w' resp h =
      elim (settle-eq-ok (deliver_and_mark host net row w) _ _ h) [
        | inl (u, v, ended, answer) ↦
            let same : delivered_response host net row ≡ resp = cc in
            let world : v ≡ w' = cc in
            inl (
              ap (λ (r : Response N). r.status) (sym same),
              subst (λ (x : World N). IsSent w.db x.db) world (deliver_and_mark-IsSent w v u ended),
            )
        | inr (e, v, thrown, answer) ↦
            let (status, stored) = mark_failed-IsFailed v w' e resp answer in
            let message = first 1000 (message_of e) in
            let over =
              subst (λ (p : Result ⊤ × World N). Overwritten w.db p.1.db) thrown
                (deliver_and_mark-Overwritten w) in
            inr (status, (message, stored ∙ over "failed" none (some message)))
      ]
