-- ===== src/Agent/Sms/Serving/Tally.antt =====
-- agent/routes.py: the counter of sent messages.
use sim_bridge.Prelude.{
  ℕ, Text, text_Comparable, codes, Bool, true, false, List, [], ◌∷◌, ◌++◌, Option, none, some, ◌≡◌,
  refl, sym, ap, ◌∙◌, arith, if◌then◌else◌, Option-cases, inl, inr, take, ◌+◌, append-nil,
  append_assoc,
}
use sim_bridge.Dict.{get}
use sim_bridge.Blacklist.{has_number, Stamp, block, unblock, BlacklistManager, Outcome}
use sim_bridge.Blacklist
use sim_bridge.RateLimit.{allow}
use sim_bridge.Phone.{parse_destination}
use sim_bridge.SmsCorrelation.{SmsRecord}
use sim_bridge.SmsCorrelation.Matching.{match_report}
use sim_bridge.Agent.Http.{Reply}
use sim_bridge.Agent.Sms.{
  Config, SmsApi, Ami, SendResult, sent, refused, disconnected, crashed, Moment,
}
use sim_bridge.Agent.Sms.Sending.{
  SmsRequest, sms_limiter_key, submit_failed, submission_of, after_submission, submit, send_to,
  takes_sms, send_sms, block_number, unblock_number, report_change,
}
use sim_bridge.Agent.Sms.Delivery.{
  DeliveryOutcome, delivered, failed, notify_userbot_delivery, announce_delivery, mark_outcome,
  report_outcome, report_sms_delivered, report_sms_failed, sms_delivery_report, outcome_of,
  outcome_error,
}
use sim_bridge.Agent.Sms.Serving.{Request, serve, serve_all, Fresh, AllFresh}
use sim_bridge.Agent.Sms.Serving
use sim_bridge.Metrics.{sms_sent, sms_failed, sms_delivered}
use sim_bridge.Agent.Sms.{Submission}
use sim_bridge.Agent.Sms.Serving.Records.{is_sent}

-- How many of the submissions AMI took, after those `before`.
abbrev pub count_sent : Ami → (before submissions : List Submission) → ℕ
count_sent ami before [] = 0
count_sent ami before (x ∷ xs) =
    (if is_sent (ami before x) then 1 else 0) + count_sent ami (before ++ x ∷ []) xs

count_sent-append :
    (ami : Ami) (before xs : List Submission) (y : Submission)
    → count_sent ami before (xs ++ y ∷ [])
      ≡ count_sent ami before xs + (if is_sent (ami (before ++ xs) y) then 1 else 0)
count_sent-append ami before [] y = ground (arith, append-nil before)
count_sent-append ami before (x ∷ xs) y =
    ground (arith, count_sent-append ami (before ++ x ∷ []) xs y, append_assoc before (x ∷ []) xs)

module _ (lower : Text → Text) (cfg : Config) (ami : Ami) where
  abbrev pub IsTallied : SmsApi → Type 0
  IsTallied s = ((s.metrics).sms).sent ≡ count_sent ami [] s.submissions

  if-Tallied :
      {A : Type 0} (b : Bool) (x y : SmsApi × Reply A)
      → IsTallied x.0
      → IsTallied y.0
      → IsTallied (if b then x else y).0
  if-Tallied true x y p q = p
  if-Tallied false x y p q = q

  -- What follows a submission counts it if it was taken.
  after_submission-sent :
      (req : SmsRequest) (to j : Text) (m : Moment) (result : SendResult) (s : SmsApi)
      → ((((after_submission lower cfg req to j m result s).0.metrics).sms).sent
          ≡ ((s.metrics).sms).sent + (if is_sent result then 1 else 0))
        × ((after_submission lower cfg req to j m result s).0.submissions ≡ s.submissions)
  unfolding after_submission submit_failed sms_sent sms_failed
  after_submission-sent req to j m sent s = (refl, refl)
  after_submission-sent req to j m (refused error) s = (omega arith, refl)
  after_submission-sent req to j m disconnected s = (omega arith, refl)
  after_submission-sent req to j m (crashed error) s = (omega arith, refl)

  submit-Tallied :
      (req : SmsRequest) (to j : Text) (m : Moment) (s : SmsApi)
      → IsTallied s
      → IsTallied (submit lower cfg ami req to j m s).0
  unfolding submit
  submit-Tallied req to j m s h =
      let x = submission_of req to j in
      let (counted, same) = after_submission-sent req to j m (ami s.submissions x) _ in
      counted
      ∙ ap (λ n. n + (if is_sent (ami s.submissions x) then 1 else 0)) h
      ∙ sym (count_sent-append ami [] s.submissions x)
      ∙ ap (count_sent ami []) (sym same)

  send_sms-Tallied :
      (req : SmsRequest) (j : Text) (m : Moment) (s : SmsApi)
      → IsTallied s
      → IsTallied (send_sms lower cfg ami req j m s).0
  unfolding send_sms send_to
  send_sms-Tallied req j m s h = elim (Option-cases (parse_destination (some req.to))) [
    | inl e ↦ rw (e, send_sms) h
    | inr (dest, e) ↦
        let (blacklist, is_listed) = has_number dest.number s.blacklist in
        let (limiter, allowed) = allow s.sms_limiter (sms_limiter_key req dest.number) m.ticks in
        let counted : SmsApi = record s { blacklist = blacklist; sms_limiter = limiter } in
        rw (e, send_sms)
          (if-Tallied (takes_sms dest) (send_to lower cfg ami req dest.number j m s) _
            (if-Tallied is_listed _ _ h (
              if-Tallied allowed (submit lower cfg ami req dest.number j m counted) _
                (submit-Tallied req dest.number j m counted h) h))
            h)
  ]

  report_change-Tallied :
      (now : ℕ) (action n key : Text) (s : SmsApi) (done : BlacklistManager × Outcome)
      → IsTallied s
      → IsTallied (report_change now action n key s done).0
  report_change-Tallied now action n key s (blacklist, Blacklist.os_error) h = h
  report_change-Tallied now action n key s (blacklist, Blacklist.returned changed) h = h

  notify-Tallied :
      (rec : SmsRecord) (status : DeliveryOutcome) (error : Option Text) (s : SmsApi)
      → IsTallied s
      → IsTallied (notify_userbot_delivery cfg rec status error s)
  unfolding notify_userbot_delivery
  notify-Tallied rec status error s h = elim (Option-cases cfg.userbot_url) [
    | inl e ↦ rw (e, notify_userbot_delivery) h
    | inr (url, e) ↦ rw (e, notify_userbot_delivery) h
  ]

  announced-Tallied :
      (rec : SmsRecord) (status : DeliveryOutcome) (error from_number : Option Text) (now : ℕ)
      (s : SmsApi)
      → IsTallied s
      → IsTallied (announce_delivery cfg rec status error from_number now s)
  unfolding announce_delivery sms_delivered sms_failed
  announced-Tallied rec delivered error from_number now s h = notify-Tallied rec delivered error _ h
  announced-Tallied rec failed error from_number now s h = notify-Tallied rec failed error _ h

  report_outcome-Tallied :
      (j : Text) (status : DeliveryOutcome) (m : Moment) (s : SmsApi)
      → IsTallied s
      → IsTallied (report_outcome cfg j status m s).0
  unfolding report_outcome
  report_outcome-Tallied j status m s h = elim (Option-cases (get j s.store.records)) [
    | inl e ↦ rw (e, report_outcome) h
    | inr (rec, e) ↦
        let error = codes "delivery_failed" in
        let (store, marked) = mark_outcome j status error m s.store in
        rw (e, report_outcome)
          (if-Tallied {A = Text} marked _ _
            (announced-Tallied rec status (outcome_error status error) none m.now
              (record s { store = store }) h)
            h)
  ]

  serve-Tallied : (s : SmsApi) (q : Request) → IsTallied s → IsTallied (serve lower cfg ami s q)
  unfolding serve block_number unblock_number report_sms_delivered report_sms_failed
      sms_delivery_report
  serve-Tallied s (Serving.send req j m) h = send_sms-Tallied req j m s h
  serve-Tallied s (Serving.block n stamp now) h =
      report_change-Tallied now _ n _ s (block n stamp s.blacklist) h
  serve-Tallied s (Serving.unblock n stamp now) h =
      report_change-Tallied now _ n _ s (unblock n stamp s.blacklist) h
  serve-Tallied s (Serving.delivered j m) h = report_outcome-Tallied j delivered m s h
  serve-Tallied s (Serving.failed j m) h = report_outcome-Tallied j failed m s h
  serve-Tallied s (Serving.report req m) h =
      elim (Option-cases (match_report req.modem_id req.text s.store)) [
        | inl e ↦ rw (e, serve, sms_delivery_report) h
        | inr (rec, e) ↦
            let status = outcome_of lower req.text in
            let error = take 200 req.text in
            let store = (mark_outcome rec.sms_id status error m s.store).0 in
            rw (e, serve, sms_delivery_report)
              (announced-Tallied rec status (outcome_error status error) (some req.phone_number)
                m.now (record s { store = store }) h)
      ]

  -- If the metrics count as sent the submissions that AMI took, they still do after any requests
  -- to the message routes.
  pub serve_all-Tallied :
      (s : SmsApi) (qs : List Request) → IsTallied s → IsTallied (serve_all lower cfg ami s qs)
  unfolding serve_all
  serve_all-Tallied s [] h = h
  serve_all-Tallied s (q ∷ qs) h =
      serve_all-Tallied (serve lower cfg ami s q) qs (serve-Tallied s q h)
