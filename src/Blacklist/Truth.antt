-- ===== src/Blacklist/Truth.antt =====
-- core/blacklist.py against its promise that the file is the single source of truth, over any sequence
-- of calls and of edits of the file by hand.
use sim_bridge.Prelude.{
  nat_eq, Text, text_Comparable, Bool, true, false, List, [], ◌∷◌, Option, none, some, contains,
  add, discard, All, All-add, All-discard, if◌then◌else◌, ◌≡◌, ◌≢◌, refl, arith, inl, inr,
  Option-cases, ◌∙◌, sym, ap, subst,
}
use sim_bridge.Phone.{normalize_e164}
use sim_bridge.Phone.Normal.{IsE164, normalize_e164-IsE164}
use sim_bridge.Blacklist.{
  File, BlacklistManager, Stamp, returned, stat_mtime, load, reload, maybe_reload, has_number,
  write, block_number, block, unblock_number, unblock,
}
use sim_bridge.Blacklist.Loading.{load_lines-E164, load-file_lines}

-- The number, in its normal form, is on the list in the file.
abbrev pub in_file : Text → Option File → Bool
in_file n file = contains n (load file)

-- What the memory knows: normal forms only and, unless the modification time shows a change, exactly
-- the numbers of the file.
pub record Synced (s : BlacklistManager) : Type 0 where
  pub normal : All IsE164 s.numbers
  pub same : stat_mtime s.file ≡ s.mtime → (n : Text) → contains n s.numbers ≡ in_file n s.file

load-E164 : (file : Option File) → All IsE164 (load file)
load-E164 none = tt
load-E164 (some f) = load_lines-E164 f.lines [] tt

pub reload-Synced : (s : BlacklistManager) → Synced (reload s)
reload-Synced s = record { normal = load-E164 s.file; same = λ e n. refl }

pub maybe_reload-Synced : (s : BlacklistManager) → Synced s → Synced (maybe_reload s)
unfolding maybe_reload
maybe_reload-Synced s h =
    elim (nat_eq (stat_mtime s.file) s.mtime) as (λ b. Synced (if b then s else reload s)) [
      | true ↦ h
      | false ↦ reload-Synced s
    ]

pub maybe_reload-file :
    (s : BlacklistManager)
    → ((maybe_reload s).file ≡ s.file) × (stat_mtime (maybe_reload s).file ≡ (maybe_reload s).mtime)
unfolding maybe_reload
maybe_reload-file s = ground arith

-- After `_maybe_reload` the memory has the numbers of the file.
pub maybe_reload-same :
    (s : BlacklistManager) (n : Text)
    → Synced s
    → contains n (maybe_reload s).numbers ≡ in_file n s.file
maybe_reload-same s n h =
    (maybe_reload-Synced s h).same (maybe_reload-file s).1 n
    ∙ ap (in_file n) (maybe_reload-file s).0

-- A set of numbers, written.
pub write-lem :
    (t : Stamp) (s : BlacklistManager)
    → All IsE164 s.numbers
    → Synced (write (some t) s).0
      × ((n : Text) → in_file n (write (some t) s).0.file ≡ contains n s.numbers)
unfolding write
write-lem t s a = (
  record { normal = a; same = λ e n. sym (load-file_lines n t.text s.numbers a) },
  λ n. load-file_lines n t.text s.numbers a,
)

pub add-E164 :
    (n : Text) (s : BlacklistManager) → IsE164 n → Synced s → All IsE164 (add n s.numbers)
add-E164 n s e h = All-add IsE164 n s.numbers e h.normal

pub discard-E164 : (n : Text) (s : BlacklistManager) → Synced s → All IsE164 (discard n s.numbers)
discard-E164 n s h = All-discard IsE164 n s.numbers h.normal

block_number-Synced :
    (n : Text) (t : Stamp) (s : BlacklistManager)
    → IsE164 n
    → Synced s
    → Synced (block_number n (some t) s).0
unfolding block_number
block_number-Synced n t s e h =
    elim (contains n s.numbers)
      as (λ b.
        Synced
          (if b
            then (s, returned false)
            else write (some t) (record s { numbers = add n s.numbers })).0) [
              | true ↦ h
              | false ↦ (write-lem t (record s { numbers = add n s.numbers }) (add-E164 n s e h)).0
            ]

unblock_number-Synced :
    (n : Text) (t : Stamp) (s : BlacklistManager)
    → Synced s
    → Synced (unblock_number n (some t) s).0
unfolding unblock_number
unblock_number-Synced n t s h =
    elim (contains n s.numbers)
      as (λ b.
        Synced
          (if b
            then write (some t) (record s { numbers = discard n s.numbers })
            else (s, returned false)).0) [
              | true ↦
                  (write-lem t (record s { numbers = discard n s.numbers }) (discard-E164 n s h)).0
              | false ↦ h
            ]

-- A call that finds its writes succeed, or an edit that leaves this at the path.
pub data Event : Type 0 where
  asks : Text → Event
  blocks : Text → Stamp → Event
  unblocks : Text → Stamp → Event
  edits : Option File → Event

unfoldable pub step : Event → BlacklistManager → BlacklistManager
step (asks number) s = (has_number number s).0
step (blocks number t) s = (block number (some t) s).0
step (unblocks number t) s = (unblock number (some t) s).0
step (edits f) s = record s { file = f }

unfoldable pub run : List Event → BlacklistManager → BlacklistManager
run [] s = s
run (e ∷ es) s = run es (step e s)

-- An edit by hand changes the modification time.
abbrev pub Shows : Event → BlacklistManager → Type 0
Shows (asks number) s = Unit
Shows (blocks number t) s = Unit
Shows (unblocks number t) s = Unit
Shows (edits f) s = stat_mtime f ≢ s.mtime

unfoldable pub EditsShow : List Event → BlacklistManager → Type 0
EditsShow [] s = Unit
EditsShow (e ∷ es) s = Shows e s × EditsShow es (step e s)

-- A number without a normal form is refused, one with a normal form is looked up in the fresh memory.
module _ (number : Text) (stamp : Option Stamp) (s : BlacklistManager) where
  malformed :
      normalize_e164 number ≡ none
      → (block number stamp s ≡ (s, returned false))
        × (unblock number stamp s ≡ (s, returned false))
  unfolding block unblock
  malformed e = ground arith

  pub well_formed :
      (n : Text)
      → normalize_e164 number ≡ some n
      → (block number stamp s ≡ block_number n stamp (maybe_reload s))
        × (unblock number stamp s ≡ unblock_number n stamp (maybe_reload s))
  unfolding block unblock
  well_formed n e = ground arith

step-Synced : (e : Event) (s : BlacklistManager) → Shows e s → Synced s → Synced (step e s)
unfolding step has_number
step-Synced (asks number) s o h = maybe_reload-Synced s h
step-Synced (blocks number t) s o h = elim (Option-cases (normalize_e164 number)) [
  | inl e ↦ subst (λ r. Synced r.0) (sym (malformed number (some t) s e).0) h
  | inr (n, e) ↦
      subst (λ r. Synced r.0) (sym (well_formed number (some t) s n e).0)
        (block_number-Synced n t (maybe_reload s) (normalize_e164-IsE164 number n e)
          (maybe_reload-Synced s h))
]
step-Synced (unblocks number t) s o h = elim (Option-cases (normalize_e164 number)) [
  | inl e ↦ subst (λ r. Synced r.0) (sym (malformed number (some t) s e).1) h
  | inr (n, e) ↦
      subst (λ r. Synced r.0) (sym (well_formed number (some t) s n e).1)
        (unblock_number-Synced n t (maybe_reload s) (maybe_reload-Synced s h))
]
step-Synced (edits f) s o h = record { normal = h.normal; same = λ e n. absurd (o e) }

pub run-Synced :
    (es : List Event) (s : BlacklistManager) → EditsShow es s → Synced s → Synced (run es s)
unfolding run EditsShow
run-Synced [] s o h = h
run-Synced (e ∷ es) s o h = run-Synced es (step e s) o.1 (step-Synced e s o.0 h)
