-- ===== src/SmsCorrelation/Resolved.antt =====
-- core/sms_correlation.py: a message whose delivery is settled is not matched to another report.
use sim_bridge.Prelude.{
  Text, text_Comparable, text_eq_iff, Bool, false, List, [], ◌∷◌, Option, some, All, Member, ◌≡◌,
  ◌≢◌, refl, sym, subst, Bool-cases, arith, inl, inr, ◌==◌,
}
use sim_bridge.Dict.{Dict, get, put, values}
use sim_bridge.Dict.Laws.{get-put}
use sim_bridge.Dict.Counts.{Unique}
use sim_bridge.SmsCorrelation.{
  SmsRecord, SmsCorrelationStore, Line, new_store, new_record, store_record, persist, mark,
  submitted_record, delivered_record, failed_record,
}
use sim_bridge.SmsCorrelation.Matching.{is_pending, is_candidate, match_report}
use sim_bridge.SmsCorrelation.Reports.{match_report-IsOpen}
use sim_bridge.SmsCorrelation.Restart.{
  Step, creates, submits, delivers, fails, step, steps, Keyed, new_store-WellKept, steps-WellKept,
  mark-cases, failed_record-id,
}

-- The message is there and its delivery status is no longer "pending".
abbrev pub IsResolved : Text → SmsCorrelationStore → Type 0
IsResolved id s =
    (rec : SmsRecord) × (get id s.records ≡ some rec) × (is_pending rec.delivery_status ≡ false)

-- `uuid4` does not draw an identifier that is in use.
abbrev pub NotDrawnBy : Text → Step → Type 0
NotDrawnBy id (creates m) = m.sms_id ≢ id
NotDrawnBy id (submits other now) = Unit
NotDrawnBy id (delivers other now) = Unit
NotDrawnBy id (fails other error f) = Unit

abbrev pub NotDrawn : Text → List (Bool × Step) → Type 0
NotDrawn id ps = All (λ p. NotDrawnBy id p.1) ps

-- A change that does not make a settled delivery pending again.
abbrev KeepsSettled : (SmsRecord → SmsRecord) → Type 0
KeepsSettled change =
    (rec : SmsRecord)
    → is_pending rec.delivery_status ≡ false
    → is_pending (change rec).delivery_status ≡ false

put-IsResolved :
    (other id : Text) (new r : SmsRecord) (log : Option (List Line)) (s : SmsCorrelationStore)
    → get id s.records ≡ some r
    → is_pending r.delivery_status ≡ false
    → (get other s.records ≡ some r → is_pending new.delivery_status ≡ false)
    → IsResolved id (record { records = put other new s.records; log = log })
put-IsResolved other id new r log s e settled kept = elim (Bool-cases (other == id)) [
  | inl same ↦
      (new, ground (arith, get-put other id new s.records), ground (arith, text_eq_iff other id))
  | inr differs ↦ (r, ground (arith, get-put other id new s.records), settled)
]

mark-IsResolved :
    (change : SmsRecord → SmsRecord)
    (same_id : (rec : SmsRecord) → (change rec).sms_id ≡ rec.sms_id) (other id : Text)
    (written : Bool) (s : SmsCorrelationStore)
    → KeepsSettled change
    → IsResolved id s
    → IsResolved id (mark change other written s).0
mark-IsResolved change same_id other id written s keeps h =
    elim (mark-cases change same_id other written s) [
      | inl (_, same) ↦ subst (IsResolved id) (sym same) h
      | inr (rec, found, now) ↦
          let (r, e, settled) = h in
          subst (IsResolved id) (sym now) (
            put-IsResolved other id (change rec) r (persist written (change rec) s.log) s e settled
              (λ k. ground (arith, keeps rec)))
    ]

step-IsResolved :
    (id : Text) (written : Bool) (p : Step) (s : SmsCorrelationStore)
    → NotDrawnBy id p
    → IsResolved id s
    → IsResolved id (step written p s)
unfolding step store_record submitted_record delivered_record new_record
step-IsResolved id written (creates m) s n (r, e, settled) = (
  r,
  ground (arith, get-put m.sms_id id (new_record m) s.records, text_eq_iff m.sms_id id),
  settled,
)
step-IsResolved id written (submits other now) s n h =
    mark-IsResolved (submitted_record now) (λ rec. refl) other id written s (λ rec k. k) h
step-IsResolved id written (delivers other now) s n h =
    mark-IsResolved (delivered_record now) (λ rec. refl) other id written s (λ rec k. refl) h
step-IsResolved id written (fails other error f) s n h =
    mark-IsResolved (failed_record error f) (failed_record-id error f) other id written s
      (λ rec k. unfold failed_record in ground arith) h

steps-IsResolved :
    (id : Text) (ps : List (Bool × Step)) (s : SmsCorrelationStore)
    → NotDrawn id ps
    → IsResolved id s
    → IsResolved id (steps ps s)
unfolding steps
steps-IsResolved id [] s n h = h
steps-IsResolved id ((written, p) ∷ ps) s n h =
    steps-IsResolved id ps (step written p s) n.1 (step-IsResolved id written p s n.0 h)

-- In a dictionary whose keys differ and whose records stand under their identifiers, a record that is
-- among the values is the one that its identifier finds.
get-Member :
    (rec : SmsRecord) (d : Dict Text SmsRecord)
    → Keyed d
    → Unique d
    → Member rec (values d)
    → get rec.sms_id d ≡ some rec
unfolding get Keyed
get-Member rec [] k u m = absurd m
get-Member rec ((j, r) ∷ d) k u m =
    ground (arith, get-Member rec d k.1 u.1, text_eq_iff j rec.sms_id, text_eq_iff j r.sms_id)

module _ (log : Option (List Line)) (before later : List (Bool × Step))
    (id modem_id report_text : Text) (rec : SmsRecord)
    (resolved : IsResolved id (steps before (new_store log))) (not_drawn : NotDrawn id later)
    (matched : match_report modem_id report_text (steps later (steps before (new_store log)))
      ≡ some rec) where
  abbrev now : SmsCorrelationStore
  now = steps later (steps before (new_store log))

  -- Once the delivery of a message is settled, as delivered or as failed, no later report is
  -- matched to it, whatever operations follow that do not create a message with its identifier
  -- anew.
  pub resolved_stays : rec.sms_id ≢ id
  unfolding is_candidate
  resolved_stays same =
      let w =
        steps-WellKept later (steps before (new_store log))
          (steps-WellKept before (new_store log) (new_store-WellKept log)) in
      let found = match_report-IsOpen modem_id report_text now rec matched in
      let kept = get-Member rec now.records w.keyed w.unique found.0 in
      let (r, e, settled) =
        steps-IsResolved id later (steps before (new_store log)) not_drawn resolved in
      ground (arith, kept, found.1)
