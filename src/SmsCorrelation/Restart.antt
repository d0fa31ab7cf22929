-- ===== src/SmsCorrelation/Restart.antt =====
-- core/sms_correlation.py over any sequence of operations: the log file against the memory, and what
-- becomes of a message that is resolved.
use sim_bridge.Prelude.{
  Text, text_Comparable, text_eq_iff, Bool, true, false, List, [], ◌∷◌, ◌++◌, Option, none, some,
  All, ◌≡◌, ◌⊎◌, refl, sym, arith, inl, inr, Option-cases, subst, ◌∙◌,
}
use sim_bridge.Dict.{Dict, get, put}
use sim_bridge.Dict.Counts.{Unique, put-Unique}
use sim_bridge.SmsCorrelation.{
  SmsRecord, SmsCorrelationStore, Line, entry, blank, unparseable, load_from, load, new_store,
  persist, Message, new_record, store_record, create, mark, mark_submitted, mark_delivered,
  mark_failed, submitted_record, delivered_record, failed_record,
}

-- The operations that change the store, each with the time or the text it is called with.
pub data Step : Type 0 where
  creates : Message → Step
  submits : Text → Text → Step
  delivers : Text → Text → Step
  fails : Text → Text → Bool → Step

-- `written` says whether the step's append to the log succeeds.
unfoldable pub step : Bool → Step → SmsCorrelationStore → SmsCorrelationStore
step written (creates m) s = (create m written s).0
step written (submits id now) s = (mark_submitted id now written s).0
step written (delivers id now) s = (mark_delivered id now written s).0
step written (fails id error submit_failed) s = (mark_failed id error submit_failed written s).0

unfoldable pub steps : List (Bool × Step) → SmsCorrelationStore → SmsCorrelationStore
steps [] s = s
steps ((written, p) ∷ ps) s = steps ps (step written p s)

-- Every record stands under its identifier.
unfoldable pub Keyed : Dict Text SmsRecord → Type 0
Keyed d = All (λ e. (e.1).sms_id ≡ e.0) d

put-Keyed :
    (k : Text) (rec : SmsRecord) (d : Dict Text SmsRecord)
    → rec.sms_id ≡ k
    → Keyed d
    → Keyed (put k rec d)
unfolding put Keyed
put-Keyed k rec [] e h = (e, tt)
put-Keyed k rec ((j, r) ∷ d) e h = ground (arith, put-Keyed k rec d e h.1, text_eq_iff j k)

pub get-Keyed :
    (k : Text) (rec : SmsRecord) (d : Dict Text SmsRecord)
    → Keyed d
    → get k d ≡ some rec
    → rec.sms_id ≡ k
unfolding get Keyed
get-Keyed k rec [] h e = ground arith
get-Keyed k rec ((j, r) ∷ d) h e = ground (arith, get-Keyed k rec d h.1, text_eq_iff j k)

load_from-append :
    (d : Dict Text SmsRecord) (lines : List Line) (rec : SmsRecord)
    → load_from d (lines ++ entry rec ∷ []) ≡ put rec.sms_id rec (load_from d lines)
unfolding load_from
load_from-append d [] rec = refl
load_from-append d (entry r ∷ lines) rec = load_from-append (put r.sms_id r d) lines rec
load_from-append d (blank ∷ lines) rec = load_from-append d lines rec
load_from-append d (unparseable ∷ lines) rec = load_from-append d lines rec

-- What every operation keeps of the memory.
pub record WellKept (s : SmsCorrelationStore) : Type 0 where
  pub keyed : Keyed s.records
  pub unique : Unique s.records

load_from-Keyed :
    (d : Dict Text SmsRecord) (lines : List Line)
    → Keyed d × Unique d
    → Keyed (load_from d lines) × Unique (load_from d lines)
unfolding load_from
load_from-Keyed d [] h = h
load_from-Keyed d (entry r ∷ lines) h =
    load_from-Keyed (put r.sms_id r d) lines
      (put-Keyed r.sms_id r d refl h.0, put-Unique r.sms_id r d h.1)
load_from-Keyed d (blank ∷ lines) h = load_from-Keyed d lines h
load_from-Keyed d (unparseable ∷ lines) h = load_from-Keyed d lines h

pub new_store-WellKept : (log : Option (List Line)) → WellKept (new_store log)
unfolding new_store Keyed
new_store-WellKept none = record { keyed = tt; unique = tt }
new_store-WellKept (some lines) =
    let h = load_from-Keyed [] lines (tt, tt) in record { keyed = h.0; unique = h.1 }

put-WellKept :
    (k : Text) (rec : SmsRecord) (log : Option (List Line)) (s : SmsCorrelationStore)
    → rec.sms_id ≡ k
    → WellKept s
    → WellKept (record { records = put k rec s.records; log = log })
put-WellKept k rec log s e h = record {
  keyed = put-Keyed k rec s.records e h.keyed;
  unique = put-Unique k rec s.records h.unique;
}

pub failed_record-id :
    (error : Text) (submit_failed : Bool) (rec : SmsRecord)
    → (failed_record error submit_failed rec).sms_id ≡ rec.sms_id
unfolding failed_record
failed_record-id error true rec = refl
failed_record-id error false rec = refl

-- A change of a record that keeps its identifier.
module _ (change : SmsRecord → SmsRecord)
    (same_id : (rec : SmsRecord) → (change rec).sms_id ≡ rec.sms_id) where
  pub mark-cases :
      (id : Text) (written : Bool) (s : SmsCorrelationStore)
      → ((get id s.records ≡ none) × ((mark change id written s).0 ≡ s))
        ⊎ ((rec : SmsRecord) × (get id s.records ≡ some rec)
            × ((mark change id written s).0 ≡ record {
              records = put id (change rec) s.records;
              log = persist written (change rec) s.log;
            }))
  unfolding mark
  mark-cases id written s = elim (Option-cases (get id s.records)) [
    | inl e ↦ inl (e, ground arith)
    | inr (rec, e) ↦ inr (rec, e, ground arith)
  ]

  mark-WellKept :
      (id : Text) (written : Bool) (s : SmsCorrelationStore)
      → WellKept s
      → WellKept (mark change id written s).0
  mark-WellKept id written s h = elim (mark-cases id written s) [
    | inl (e, same) ↦ subst WellKept (sym same) h
    | inr (rec, e, now) ↦ subst WellKept (sym now) (
        put-WellKept id (change rec) (persist written (change rec) s.log) s
          (same_id rec ∙ get-Keyed id rec s.records h.keyed e) h)
  ]

pub step-WellKept :
    (written : Bool) (p : Step) (s : SmsCorrelationStore) → WellKept s → WellKept (step written p s)
unfolding step store_record submitted_record delivered_record
step-WellKept written (creates m) s h =
    put-WellKept (new_record m).sms_id (new_record m) (persist written (new_record m) s.log) s refl
      h
step-WellKept written (submits id now) s h =
    mark-WellKept (submitted_record now) (λ rec. refl) id written s h
step-WellKept written (delivers id now) s h =
    mark-WellKept (delivered_record now) (λ rec. refl) id written s h
step-WellKept written (fails id error f) s h =
    mark-WellKept (failed_record error f) (failed_record-id error f) id written s h

pub steps-WellKept :
    (ps : List (Bool × Step)) (s : SmsCorrelationStore) → WellKept s → WellKept (steps ps s)
unfolding steps
steps-WellKept [] s h = h
steps-WellKept ((written, p) ∷ ps) s h =
    steps-WellKept ps (step written p s) (step-WellKept written p s h)

-- The log has all that the memory has.
Mirrored : SmsCorrelationStore → Type 0
Mirrored s = (lines : List Line) × (s.log ≡ some lines) × (load lines ≡ s.records)

put-Mirrored :
    (k : Text) (rec : SmsRecord) (s : SmsCorrelationStore)
    → rec.sms_id ≡ k
    → Mirrored s
    → Mirrored (record { records = put k rec s.records; log = persist true rec s.log })
unfolding Mirrored persist
put-Mirrored k rec s e (lines, l, h) =
    (lines ++ entry rec ∷ [], ground arith, ground (arith, load_from-append [] lines rec))

mark-Mirrored :
    (change : SmsRecord → SmsRecord)
    (same_id : (rec : SmsRecord) → (change rec).sms_id ≡ rec.sms_id) (id : Text)
    (s : SmsCorrelationStore)
    → WellKept s
    → Mirrored s
    → Mirrored (mark change id true s).0
mark-Mirrored change same_id id s w h = elim (mark-cases change same_id id true s) [
  | inl (e, same) ↦ subst Mirrored (sym same) h
  | inr (rec, e, now) ↦
      subst Mirrored (sym now)
        (put-Mirrored id (change rec) s (same_id rec ∙ get-Keyed id rec s.records w.keyed e) h)
]

step-Mirrored :
    (p : Step) (s : SmsCorrelationStore) → WellKept s → Mirrored s → Mirrored (step true p s)
unfolding step store_record submitted_record delivered_record
step-Mirrored (creates m) s w h = put-Mirrored (new_record m).sms_id (new_record m) s refl h
step-Mirrored (submits id now) s w h = mark-Mirrored (submitted_record now) (λ rec. refl) id s w h
step-Mirrored (delivers id now) s w h = mark-Mirrored (delivered_record now) (λ rec. refl) id s w h
step-Mirrored (fails id error f) s w h =
    mark-Mirrored (failed_record error f) (failed_record-id error f) id s w h

abbrev pub all_written : List Step → List (Bool × Step)
all_written [] = []
all_written (p ∷ ps) = (true, p) ∷ all_written ps

steps-Mirrored :
    (ps : List Step) (s : SmsCorrelationStore)
    → WellKept s
    → Mirrored s
    → Mirrored (steps (all_written ps) s)
unfolding steps
steps-Mirrored [] s w h = h
steps-Mirrored (p ∷ ps) s w h =
    steps-Mirrored ps (step true p s) (step-WellKept true p s w) (step-Mirrored p s w h)

reload : (s : SmsCorrelationStore) → Mirrored s → new_store s.log ≡ s
unfolding Mirrored new_store
reload s (lines, l, h) = ground arith

-- A store with a log file that is constructed anew after any operations whose appends succeeded
-- is the store as it was: the same records in the same order.
pub restart_restores :
    (lines : List Line) (ps : List Step)
    → new_store (steps (all_written ps) (new_store (some lines))).log
      ≡ steps (all_written ps) (new_store (some lines))
restart_restores lines ps = reload (steps (all_written ps) (new_store (some lines))) (
    steps-Mirrored ps (new_store (some lines)) (new_store-WellKept (some lines))
      (unfold Mirrored new_store in (lines, refl, refl)))
