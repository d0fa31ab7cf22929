-- ===== src/Agent/Sms/Serving/Identity.antt =====
-- agent/routes.py over core/sms_correlation.py: what the routes keep of the record of a message.
use sim_bridge.Prelude.{
  ℕ, Text, text_Comparable, text_eq, text_eq_iff, Bool, true, false, Option, none, some, ◌≡◌, ◌≢◌,
  refl, sym, ap, ◌∙◌, arith, Bool-cases, Option-cases, inl, inr,
}
use sim_bridge.Dict.{get}
use sim_bridge.Dict.Laws.{get-put_self, get-put_ne}
use sim_bridge.SmsCorrelation.{
  SmsRecord, SmsCorrelationStore, store_record, mark, submitted_record, failed_record,
  delivered_record,
}
use sim_bridge.Agent.Sms.{Config, SmsApi, Moment}
use sim_bridge.Agent.Sms.Delivery.{
  DeliveryOutcome, delivered, failed, notify_userbot_delivery, announce_delivery, mark_outcome,
}
use sim_bridge.Agent.Sms.Serving.Records.{Carries}

-- A change of a record that keeps what its reports are sent by.
pub record Keeps (change : SmsRecord → SmsRecord) : Type 0 where
  pub same_id : (rec : SmsRecord) → (change rec).sms_id ≡ rec.sms_id
  pub same_number : (rec : SmsRecord) → (change rec).phone_number ≡ rec.phone_number
  pub same_user : (rec : SmsRecord) → (change rec).telegram_user_id ≡ rec.telegram_user_id

pub mark-Carries :
    (change : SmsRecord → SmsRecord) (j id number : Text) (user : ℕ) (v : Bool)
    (s : SmsCorrelationStore)
    → Keeps change
    → Carries s id number user
    → Carries (mark change j v s).0 id number user
unfolding mark
mark-Carries change j id number user v s k c = elim (Option-cases (get j s.records)) [
  | inl e ↦ rw (e, mark) c
  | inr (rec, e) ↦ elim (Bool-cases (text_eq j id)) [
    | inl same ↦
        let here : j ≡ id = (text_eq_iff j id).0 same in
        let found : some rec ≡ some c.rec = sym e ∙ ap (λ i. get i s.records) here ∙ c.found in
        let is_rec : rec ≡ c.rec = cc found in
        rw (e, mark)
          (record {
            rec = change rec;
            found = rw here (get-put_self id (change rec) s.records);
            own_id = k.same_id rec ∙ ap (λ r. r.sms_id) is_rec ∙ c.own_id;
            to_number = k.same_number rec ∙ ap (λ r. r.phone_number) is_rec ∙ c.to_number;
            from_user = k.same_user rec ∙ ap (λ r. r.telegram_user_id) is_rec ∙ c.from_user;
          })
    | inr other ↦
        rw (e, mark)
          (record {
            rec = c.rec;
            found =
                get-put_ne j id (change rec) s.records (λ h. ground (arith, text_eq_iff j id))
                ∙ c.found;
            own_id = c.own_id;
            to_number = c.to_number;
            from_user = c.from_user;
          })
  ]
]

pub store_record-Carries :
    (rec : SmsRecord) (w : Bool) (s : SmsCorrelationStore) (id number : Text) (user : ℕ)
    → get rec.sms_id s.records ≡ none
    → Carries s id number user
    → Carries (store_record w rec s) id number user
unfolding store_record
store_record-Carries rec w s id number user fresh c =
    let other : rec.sms_id ≢ id = λ h. cc (fresh, c.found, ap (λ i. get i s.records) h) in
    record {
      rec = c.rec;
      found = get-put_ne rec.sms_id id rec s.records other ∙ c.found;
      own_id = c.own_id;
      to_number = c.to_number;
      from_user = c.from_user;
    }

pub submitted_record-Keeps : (now : Text) → Keeps (submitted_record now)
unfolding submitted_record
submitted_record-Keeps now = record {
  same_id = λ r. refl;
  same_number = λ r. refl;
  same_user = λ r. refl;
}

delivered_record-Keeps : (now : Text) → Keeps (delivered_record now)
unfolding delivered_record
delivered_record-Keeps now = record {
  same_id = λ r. refl;
  same_number = λ r. refl;
  same_user = λ r. refl;
}

pub failed_record-Keeps : (error : Text) (at_submit : Bool) → Keeps (failed_record error at_submit)
unfolding failed_record
failed_record-Keeps error true = record {
  same_id = λ r. refl;
  same_number = λ r. refl;
  same_user = λ r. refl;
}
failed_record-Keeps error false = record {
  same_id = λ r. refl;
  same_number = λ r. refl;
  same_user = λ r. refl;
}

pub mark_outcome-Carries :
    (j : Text) (status : DeliveryOutcome) (error : Text) (m : Moment) (s : SmsCorrelationStore)
    (id number : Text) (user : ℕ)
    → Carries s id number user
    → Carries (mark_outcome j status error m s).0 id number user
unfolding mark_outcome
mark_outcome-Carries j delivered error m s id number user =
    mark-Carries (delivered_record m.iso) j id number user m.marked_written s
      (delivered_record-Keeps m.iso)
mark_outcome-Carries j failed error m s id number user =
    mark-Carries (failed_record error false) j id number user m.marked_written s
      (failed_record-Keeps error false)

-- A record that is there is marked.
pub mark_outcome-marks :
    (id : Text) (status : DeliveryOutcome) (error : Text) (m : Moment) (s : SmsCorrelationStore)
    (rec : SmsRecord)
    → get id s.records ≡ some rec
    → (mark_outcome id status error m s).1 ≡ true
unfolding mark_outcome mark
mark_outcome-marks id delivered error m s rec h = rw (h, mark) refl
mark_outcome-marks id failed error m s rec h = rw (h, mark) refl

-- The announcement leaves the store.
notify-store :
    (cfg : Config) (rec : SmsRecord) (status : DeliveryOutcome) (error : Option Text) (s : SmsApi)
    → (notify_userbot_delivery cfg rec status error s).store ≡ s.store
unfolding notify_userbot_delivery
notify-store cfg rec status error s = elim (Option-cases cfg.userbot_url) [
  | inl e ↦ rw (e, notify_userbot_delivery) refl
  | inr (url, e) ↦ rw (e, notify_userbot_delivery) refl
]

pub announce-store :
    (cfg : Config) (rec : SmsRecord) (status : DeliveryOutcome) (error from_number : Option Text)
    (now : ℕ) (s : SmsApi)
    → (announce_delivery cfg rec status error from_number now s).store ≡ s.store
unfolding announce_delivery
announce-store cfg rec delivered error from_number now s = notify-store cfg rec delivered error _
announce-store cfg rec failed error from_number now s = notify-store cfg rec failed error _
