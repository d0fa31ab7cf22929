-- ===== src/Agent/Sms/Serving/Sender.antt =====
-- agent/routes.py: the delivery of a message is announced to the user who sent it.
use sim_bridge.Prelude.{
  ℕ, Text, text_Comparable, codes, Bool, true, false, List, [], ◌∷◌, ◌++◌, Option, none, some,
  or_else, ◌≡◌, refl, sym, if◌then◌else◌, Option-cases, inl, inr, take,
}
use sim_bridge.Dict.{get}
use sim_bridge.Blacklist.{has_number, Stamp, block, unblock, BlacklistManager, Outcome}
use sim_bridge.Blacklist
use sim_bridge.RateLimit.{allow}
use sim_bridge.Phone.{Destination, parse_destination}
use sim_bridge.SmsCorrelation.{SmsRecord, new_record, submitted_record, failed_record}
use sim_bridge.SmsCorrelation.Matching.{match_report}
use sim_bridge.Agent.Http.{Reply, returned, is_returned, strip_slashes}
use sim_bridge.Agent.Sms.{
  Config, SmsApi, Ami, SendResult, sent, refused, disconnected, crashed, Moment,
}
use sim_bridge.Agent.Sms.Sending.{
  SmsRequest, sms_limiter_key, message_of, submit_failed, submission_of, after_submission, submit,
  send_to, takes_sms, send_sms, block_number, unblock_number, report_change,
}
use sim_bridge.Agent.Sms.Delivery.{
  DeliveryOutcome, delivered, failed, notify_userbot_delivery, announce_delivery, mark_outcome,
  report_outcome, report_sms_delivered, report_sms_failed, sms_delivery_report, SmsReportRequest,
  outcome_of, outcome_error,
}
use sim_bridge.Agent.Sms.Serving.{Request, serve, serve_all, Fresh, AllFresh}
use sim_bridge.Agent.Sms.Serving
use sim_bridge.Agent.Sms.Serving.Records.{Carries, send_sms-Submitted}
use sim_bridge.Agent.Sms.Serving.Identity.{
  mark_outcome-marks, mark-Carries, store_record-Carries, mark_outcome-Carries, announce-store,
  submitted_record-Keeps, failed_record-Keeps,
}

-- For one message.
module _ (lower : Text → Text) (cfg : Config) (ami : Ami) (id number : Text) (user : ℕ) where
  abbrev Still : SmsApi → Type 0
  Still s = Carries s.store id number user

  if-Still :
      {A : Type 0} (b : Bool) (x y : SmsApi × Reply A)
      → Still x.0
      → Still y.0
      → Still (if b then x else y).0
  if-Still true x y p q = p
  if-Still false x y p q = q

  submit_failed-Still :
      (j error : Text) (m : Moment) (s : SmsApi) → Still s → Still (submit_failed j error m s)
  unfolding submit_failed
  submit_failed-Still j error m s =
      mark-Carries (failed_record error true) j id number user m.marked_written s.store
        (failed_record-Keeps error true)

  after_submission-Still :
      (req : SmsRequest) (to j : Text) (m : Moment) (result : SendResult) (s : SmsApi)
      → Still s
      → Still (after_submission lower cfg req to j m result s).0
  unfolding after_submission
  after_submission-Still req to j m sent s =
      mark-Carries (submitted_record m.iso) j id number user m.marked_written s.store
        (submitted_record-Keeps m.iso)
  after_submission-Still req to j m (refused error) s = submit_failed-Still j error m s
  after_submission-Still req to j m disconnected s = submit_failed-Still j _ m s
  after_submission-Still req to j m (crashed error) s = submit_failed-Still j error m s

  submit-Still :
      (req : SmsRequest) (to j : Text) (m : Moment) (s : SmsApi)
      → get j s.store.records ≡ none
      → Still s
      → Still (submit lower cfg ami req to j m s).0
  unfolding submit new_record
  submit-Still req to j m s fresh h =
      after_submission-Still req to j m (ami s.submissions (submission_of req to j)) _ (
        store_record-Carries (new_record (message_of cfg req to j m)) m.created_written s.store id
          number user fresh h)

  send_to-Still :
      (req : SmsRequest) (to j : Text) (m : Moment) (s : SmsApi)
      → get j s.store.records ≡ none
      → Still s
      → Still (send_to lower cfg ami req to j m s).0
  unfolding send_to
  send_to-Still req to j m s fresh h =
      let (blacklist, is_listed) = has_number to s.blacklist in
      let (limiter, allowed) = allow s.sms_limiter (sms_limiter_key req to) m.ticks in
      let counted : SmsApi = record s { blacklist = blacklist; sms_limiter = limiter } in
      if-Still is_listed _ _ h (
        if-Still allowed (submit lower cfg ami req to j m counted) _
          (submit-Still req to j m counted fresh h) h)

  send_sms-Still :
      (req : SmsRequest) (j : Text) (m : Moment) (s : SmsApi)
      → get j s.store.records ≡ none
      → Still s
      → Still (send_sms lower cfg ami req j m s).0
  unfolding send_sms
  send_sms-Still req j m s fresh h = elim (Option-cases (parse_destination (some req.to))) [
    | inl e ↦ rw (e, send_sms) h
    | inr (dest, e) ↦
        rw (e, send_sms)
          (if-Still (takes_sms dest) (send_to lower cfg ami req dest.number j m s) _
            (send_to-Still req dest.number j m s fresh h) h)
  ]

  report_change-Still :
      (now : ℕ) (action n key : Text) (s : SmsApi) (done : BlacklistManager × Outcome)
      → Still s
      → Still (report_change now action n key s done).0
  report_change-Still now action n key s (blacklist, Blacklist.os_error) h = h
  report_change-Still now action n key s (blacklist, Blacklist.returned changed) h = h

  announced-Still :
      (rec : SmsRecord) (status : DeliveryOutcome) (error from_number : Option Text) (now : ℕ)
      (s : SmsApi)
      → Still s
      → Still (announce_delivery cfg rec status error from_number now s)
  announced-Still rec status error from_number now s h =
      rw (announce-store cfg rec status error from_number now s) h

  report_outcome-Still :
      (j : Text) (status : DeliveryOutcome) (m : Moment) (s : SmsApi)
      → Still s
      → Still (report_outcome cfg j status m s).0
  unfolding report_outcome
  report_outcome-Still j status m s h = elim (Option-cases (get j s.store.records)) [
    | inl e ↦ rw (e, report_outcome) h
    | inr (rec, e) ↦
        let error = codes "delivery_failed" in
        let (store, marked) = mark_outcome j status error m s.store in
        let resolved = mark_outcome-Carries j status error m s.store id number user h in
        rw (e, report_outcome)
          (if-Still {A = Text} marked _ _
            (announced-Still rec status (outcome_error status error) none m.now
              (record s { store = store }) resolved)
            resolved)
  ]

  sms_delivery_report-Still :
      (req : SmsReportRequest) (m : Moment) (s : SmsApi)
      → Still s
      → Still (sms_delivery_report lower cfg req m s).0
  unfolding sms_delivery_report
  sms_delivery_report-Still req m s h =
      elim (Option-cases (match_report req.modem_id req.text s.store)) [
        | inl e ↦ rw (e, sms_delivery_report) h
        | inr (rec, e) ↦
            let status = outcome_of lower req.text in
            let error = take 200 req.text in
            let (store, _) = mark_outcome rec.sms_id status error m s.store in
            rw (e, sms_delivery_report)
              (announced-Still rec status (outcome_error status error) (some req.phone_number) m.now
                (record s { store = store })
                (mark_outcome-Carries rec.sms_id status error m s.store id number user h))
      ]

  serve-Still :
      (s : SmsApi) (q : Request)
      → Fresh lower cfg ami s q
      → Still s
      → Still (serve lower cfg ami s q)
  unfolding serve block_number unblock_number report_sms_delivered report_sms_failed
  serve-Still s (Serving.send req j m) f h = send_sms-Still req j m s f h
  serve-Still s (Serving.block n stamp now) f h =
      report_change-Still now _ n _ s (block n stamp s.blacklist) h
  serve-Still s (Serving.unblock n stamp now) f h =
      report_change-Still now _ n _ s (unblock n stamp s.blacklist) h
  serve-Still s (Serving.delivered j m) f h = report_outcome-Still j delivered m s h
  serve-Still s (Serving.failed j m) f h = report_outcome-Still j failed m s h
  serve-Still s (Serving.report req m) f h = sms_delivery_report-Still req m s h

  serve_all-Still :
      (s : SmsApi) (qs : List Request)
      → AllFresh lower cfg ami s qs
      → Still s
      → Still (serve_all lower cfg ami s qs)
  unfolding serve_all
  serve_all-Still s [] f h = h
  serve_all-Still s (q ∷ qs) f h =
      serve_all-Still (serve lower cfg ami s q) qs f.1 (serve-Still s q f.0 h)

  -- The report of a message whose record is there.
  delivered_announced :
      (m : Moment) (url : Text) (s : SmsApi)
      → cfg.userbot_url ≡ some url
      → Still s
      → ((report_sms_delivered cfg id m s).1 ≡ returned id)
        × ((report_sms_delivered cfg id m s).0.notices
            ≡ s.notices
              ++ record {
                url = strip_slashes url ++ codes "/events/delivery";
                sms_id = id;
                phone_number = number;
                telegram_user_id = user;
                status = codes "delivered";
                error = none;
              }
                ∷ [])
  unfolding report_sms_delivered report_outcome announce_delivery notify_userbot_delivery
  delivered_announced m url s e c =
      let marked =
        mark_outcome-marks id delivered (codes "delivery_failed") m s.store c.rec c.found in
      rw (c.found, report_outcome, marked, e, c.own_id, c.to_number, c.from_user) (refl, refl)

module _ (lower : Text → Text) (cfg : Config) (ami : Ami) where
  -- If the userbot is configured and send_sms answered a request to a number that parses, then
  -- after any further requests to the message routes that draw fresh identifiers, the delivery
  -- report for the message is answered and posts one notice of its delivery, with its number, to
  -- the user who sent it.
  pub sent_then_delivered :
      (req : SmsRequest) (id url : Text) (sent_at reported_at : Moment) (s : SmsApi)
      (qs : List Request) (dest : Destination)
      → cfg.userbot_url ≡ some url
      → parse_destination (some req.to) ≡ some dest
      → is_returned (send_sms lower cfg ami req id sent_at s).1 ≡ true
      → AllFresh lower cfg ami (send_sms lower cfg ami req id sent_at s).0 qs
      → let after = serve_all lower cfg ami (send_sms lower cfg ami req id sent_at s).0 qs in
        ((report_sms_delivered cfg id reported_at after).1 ≡ returned id)
        × ((report_sms_delivered cfg id reported_at after).0.notices
            ≡ after.notices
              ++ record {
                url = strip_slashes url ++ codes "/events/delivery";
                sms_id = id;
                phone_number = dest.number;
                telegram_user_id = or_else req.telegram_user_id 0;
                status = codes "delivered";
                error = none;
              }
                ∷ [])
  sent_then_delivered req id url sent_at reported_at s qs dest e parsed done f =
      elim (send_sms-Submitted lower cfg ami req id sent_at s) [
        | inr (refused_one, _, _) ↦ cc (done, refused_one)
        | inl (d, (p, _, _, _, v)) ↦
            let same : d ≡ dest = cc (p, parsed) in
            let user = or_else req.telegram_user_id 0 in
            let kept : Carries (send_sms lower cfg ami req id sent_at s).0.store id dest.number
                user =
              rw (sym same) v.kept in
            delivered_announced lower cfg ami id dest.number user reported_at url
              (serve_all lower cfg ami (send_sms lower cfg ami req id sent_at s).0 qs) e
              (serve_all-Still lower cfg ami id dest.number user
                (send_sms lower cfg ami req id sent_at s).0 qs f kept)
      ]
