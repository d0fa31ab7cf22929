-- ===== src/Agent/Sms/Serving/Records.antt =====
-- agent/routes.py, `send_sms`: what is submitted and what is recorded.
use sim_bridge.Prelude.{
  ℕ, Text, text_Comparable, Bool, true, false, [], ◌∷◌, ◌++◌, some, or_else, ◌≡◌, refl, ◌⊎◌,
  Bool-cases, Option-cases, inl, inr,
}
use sim_bridge.Dict.{get}
use sim_bridge.Dict.Laws.{get-put_self}
use sim_bridge.Blacklist.{has_number}
use sim_bridge.RateLimit.{allow}
use sim_bridge.Phone.{Destination, parse_destination}
use sim_bridge.SmsCorrelation.{
  SmsRecord, SmsCorrelationStore, Status, new_record, store_record, mark, submitted_record,
  failed_record,
}
use sim_bridge.Agent.Errors.{message, modem_unavailable}
use sim_bridge.Agent.Http.{Reply, is_returned}
use sim_bridge.Agent.Sms.{
  Config, SmsApi, Ami, SendResult, sent, refused, disconnected, crashed, Moment,
}
use sim_bridge.Agent.Sms.Sending.{
  SmsRequest, SmsResponse, sms_limiter_key, message_of, submit_failed, submission_of,
  after_submission, submit, send_to, takes_sms, send_sms,
}

-- The record that the store has of a message, by what matters to its reports.
pub record Carries (s : SmsCorrelationStore) (sms_id number : Text) (user : ℕ) : Type 0 where
  pub rec : SmsRecord
  pub found : get sms_id s.records ≡ some rec
  pub own_id : rec.sms_id ≡ sms_id
  pub to_number : rec.phone_number ≡ number
  pub from_user : rec.telegram_user_id ≡ user

abbrev pub is_sent : SendResult → Bool
is_sent sent = true
is_sent _ = false

-- The status that a message has after its submission.
abbrev pub status_of : SendResult → Status
status_of sent = Status.submitted
status_of _ = Status.failed

-- One message has been submitted, recorded for its sender with the status that the submission ended
-- with, and answered accordingly.
pub record Submitted (result : SendResult) (s : SmsApi) (req : SmsRequest) (number sms_id : Text)
    (done : SmsApi × Reply SmsResponse) : Type 0 where
  pub once : (done.0).submissions ≡ s.submissions ++ submission_of req number sms_id ∷ []
  pub kept : Carries (done.0).store sms_id number (or_else req.telegram_user_id 0)
  pub status : (kept.rec).submit_status ≡ status_of result
  pub answered : is_returned done.1 ≡ is_sent result

abbrev pub Untouched : SmsApi → SmsApi × Reply SmsResponse → Type 0
Untouched s (t, reply) =
    (is_returned reply ≡ false) × (t.submissions ≡ s.submissions) × (t.store ≡ s.store)

pub get-mark :
    (change : SmsRecord → SmsRecord) (id : Text) (rec : SmsRecord) (v : Bool)
    (s : SmsCorrelationStore)
    → get id s.records ≡ some rec
    → get id (mark change id v s).0.records ≡ some (change rec)
unfolding mark
get-mark change id rec v s h = rw (h, mark) (get-put_self id (change rec) s.records)

get-store_record :
    (rec : SmsRecord) (w : Bool) (s : SmsCorrelationStore)
    → get rec.sms_id (store_record w rec s).records ≡ some rec
unfolding store_record
get-store_record rec w s = get-put_self rec.sms_id rec s.records

abbrev carried :
    (s : SmsCorrelationStore) (sms_id number : Text) (user : ℕ) (rec : SmsRecord)
    → get sms_id s.records ≡ some rec
    → rec.sms_id ≡ sms_id
    → rec.phone_number ≡ number
    → rec.telegram_user_id ≡ user
    → Carries s sms_id number user
carried s sms_id number user rec h i j k = record {
  rec = rec;
  found = h;
  own_id = i;
  to_number = j;
  from_user = k;
}

-- A submission that failed is marked.
failed_lem :
    (sms_id error : Text) (m : Moment) (t : SmsApi) (rec : SmsRecord)
    → get sms_id t.store.records ≡ some rec
    → get sms_id (submit_failed sms_id error m t).store.records
      ≡ some (failed_record error true rec)
unfolding submit_failed
failed_lem sms_id error m t rec g =
    get-mark (failed_record error true) sms_id rec m.marked_written t.store g

module _ (lower : Text → Text) where
  -- `t` is the state in which the submission is made.
  after_submission-Submitted :
      (cfg : Config) (req : SmsRequest) (number sms_id : Text) (m : Moment) (s t : SmsApi)
      (result : SendResult)
      → t.submissions ≡ s.submissions ++ submission_of req number sms_id ∷ []
      → get sms_id t.store.records ≡ some (new_record (message_of cfg req number sms_id m))
      → Submitted result s req number sms_id
          (after_submission lower cfg req number sms_id m result t)
  unfolding after_submission submit_failed submitted_record failed_record new_record
  after_submission-Submitted cfg req number sms_id m s t sent h g =
      let rec = new_record (message_of cfg req number sms_id m) in
      let k = get-mark (submitted_record m.iso) sms_id rec m.marked_written t.store g in
      record {
        once = h;
        kept = carried _ sms_id number _ _ k refl refl refl;
        status = refl;
        answered = refl;
      }
  after_submission-Submitted cfg req number sms_id m s t (refused error) h g =
      let k = failed_lem sms_id error m t _ g in
      record {
        once = h;
        kept = carried _ sms_id number _ _ k refl refl refl;
        status = refl;
        answered = refl;
      }
  after_submission-Submitted cfg req number sms_id m s t disconnected h g =
      let k = failed_lem sms_id (message modem_unavailable) m t _ g in
      record {
        once = h;
        kept = carried _ sms_id number _ _ k refl refl refl;
        status = refl;
        answered = refl;
      }
  after_submission-Submitted cfg req number sms_id m s t (crashed error) h g =
      let k = failed_lem sms_id error m t _ g in
      record {
        once = h;
        kept = carried _ sms_id number _ _ k refl refl refl;
        status = refl;
        answered = refl;
      }

  submit-Submitted :
      (cfg : Config) (ami : Ami) (req : SmsRequest) (number sms_id : Text) (m : Moment) (s : SmsApi)
      → Submitted
          (ami s.submissions (submission_of req number sms_id))
          s
          req
          number
          sms_id
          (submit lower cfg ami req number sms_id m s)
  unfolding submit new_record
  submit-Submitted cfg ami req number sms_id m s =
      let rec = new_record (message_of cfg req number sms_id m) in
      after_submission-Submitted cfg req number sms_id m s _
        (ami s.submissions (submission_of req number sms_id)) refl
        (get-store_record rec m.created_written s.store)

  send_to-Submitted :
      (cfg : Config) (ami : Ami) (req : SmsRequest) (number sms_id : Text) (m : Moment) (s : SmsApi)
      → (((has_number number s.blacklist).1 ≡ false)
          × ((allow s.sms_limiter (sms_limiter_key req number) m.ticks).1 ≡ true)
          × Submitted
              (ami s.submissions (submission_of req number sms_id))
              s
              req
              number
              sms_id
              (send_to lower cfg ami req number sms_id m s))
        ⊎ Untouched s (send_to lower cfg ami req number sms_id m s)
  unfolding send_to
  send_to-Submitted cfg ami req number sms_id m s =
      let (blacklist, is_listed) = has_number number s.blacklist in
      let (limiter, allowed) = allow s.sms_limiter (sms_limiter_key req number) m.ticks in
      let counted : SmsApi = record s { blacklist = blacklist; sms_limiter = limiter } in
      elim (Bool-cases is_listed) [
        | inl e ↦ rw (e, send_to) (inr (refl, refl, refl))
        | inr e ↦ elim (Bool-cases allowed) [
          | inr f ↦ rw (e, f, send_to) (inr (refl, refl, refl))
          | inl f ↦
              let v = submit-Submitted cfg ami req number sms_id m counted in
              rw (e, f, send_to)
                (inl (
                  refl,
                  refl,
                  record { once = v.once; kept = v.kept; status = v.status; answered = v.answered },
                ))
        ]
      ]

  -- Either the number parses and may get messages, is not blacklisted, and the limiter allows the
  -- request, and then send_sms makes one submission with the identifier of the message as its
  -- payload, stores a record of it for the user with the submit status SUBMITTED if AMI took it
  -- and FAILED if not, and answers with a message exactly if AMI took it; or it answers with an
  -- error, submits nothing and leaves the store as it was.
  pub send_sms-Submitted :
      (cfg : Config) (ami : Ami) (req : SmsRequest) (sms_id : Text) (m : Moment) (s : SmsApi)
      → ((dest : Destination) × ((parse_destination (some req.to) ≡ some dest)
            × (takes_sms dest ≡ true)
            × ((has_number dest.number s.blacklist).1 ≡ false)
            × ((allow s.sms_limiter (sms_limiter_key req dest.number) m.ticks).1 ≡ true)
            × Submitted
                (ami s.submissions (submission_of req dest.number sms_id))
                s
                req
                dest.number
                sms_id
                (send_sms lower cfg ami req sms_id m s)))
        ⊎ Untouched s (send_sms lower cfg ami req sms_id m s)
  unfolding send_sms
  send_sms-Submitted cfg ami req sms_id m s =
      elim (Option-cases (parse_destination (some req.to))) [
        | inl e ↦ rw (e, send_sms) (inr (refl, refl, refl))
        | inr (dest, e) ↦ elim (Bool-cases (takes_sms dest)) [
          | inr f ↦ rw (e, f, send_sms) (inr (refl, refl, refl))
          | inl f ↦ elim (send_to-Submitted cfg ami req dest.number sms_id m s) [
            | inr untouched ↦ rw (e, f, send_sms) (inr untouched)
            | inl (free, may, done) ↦ inl (dest, (e, f, free, may, rw (e, f, send_sms) done))
          ]
        ]
      ]
