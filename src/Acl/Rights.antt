-- ===== src/Acl/Rights.antt =====
-- core/acl.py against the file: a right is one that the user's last line grants, and the default is
-- to deny.
use sim_bridge.Prelude.{
  nat_eq, Text, text_Comparable, Bool, true, false, ◌&&◌, List, [], ◌∷◌, Option, none, some,
  contains, if◌then◌else◌, ◌≡◌, ◌≢◌, ◌↔◌, ◌⊎◌, ◌++◌, All, contains_iff, refl, ◌∙◌, ap, sym, arith,
  inl, inr, Bool-cases,
}
use sim_bridge.Dict.{Dict, get}
use sim_bridge.Dict.Laws.{get-put}
use sim_bridge.Acl.Lines.{UserId, user_Comparable}
use sim_bridge.Acl.Rules.{
  IsRight, RuleOf, NoRule, OnLastLine, rights_by, rights_after, line-cases, RuleOf-rights_after,
  NoRule-rights_after, contains-known_rights,
}
use sim_bridge.Acl.{
  File, AclManager, all_rights, known_rights, parse_line, load_lines, put_rule, reload, reload_file,
  holders, new_manager, rights_of, check, get_user_rights, users_with_right,
}

-- The rights on the last line that sets a rule for the user, and otherwise these.
unfoldable pub last_line : UserId → List Text → List Text → List Text
last_line uid before [] = before
last_line uid before (raw ∷ lines) = last_line uid (rights_after uid before raw) lines

last_line-none :
    (uid : UserId) (rights : List Text) (lines : List Text)
    → All (NoRule uid) lines
    → last_line uid rights lines ≡ rights
unfolding last_line
last_line-none uid rights [] n = refl
last_line-none uid rights (raw ∷ lines) n =
    last_line-none uid (rights_after uid rights raw) lines n.1
    ∙ NoRule-rights_after uid rights raw n.0

last_line-RuleOf :
    (uid : UserId) (rights before : List Text) (raw : Text) (after ws : List Text)
    → RuleOf uid raw ws
    → All (NoRule uid) after
    → last_line uid rights (before ++ raw ∷ after) ≡ known_rights ws
unfolding last_line
last_line-RuleOf uid rights [] raw after ws r n =
    last_line-none uid (rights_after uid rights raw) after n
    ∙ RuleOf-rights_after uid rights raw ws r
last_line-RuleOf uid rights (first ∷ before) raw after ws r n =
    last_line-RuleOf uid (rights_after uid rights first) before raw after ws r n

-- No line is a rule of the user, or one of them is the last.
last_line-cases :
    (uid : UserId) (lines : List Text)
    → All (NoRule uid) lines
      ⊎ ((before : List Text) × (raw : Text) × (after : List Text) × (ws : List Text) × (lines
            ≡ before ++ raw ∷ after)
          × RuleOf uid raw ws
          × All (NoRule uid) after)
last_line-cases uid [] = inl tt
last_line-cases uid (raw ∷ lines) = elim (last_line-cases uid lines) [
  | inr (before, last, after, ws, e, r, n) ↦
      inr (raw ∷ before, last, after, ws, ap (λ ls. raw ∷ ls) e, r, n)
  | inl n ↦ elim (line-cases uid raw) [
    | inl (ws, r) ↦ inr ([], raw, lines, ws, refl, r, n)
    | inr (m, kept) ↦ inl (m, n)
  ]
]

-- What the last line grants is what stands on it, of the four rights.
last_line-OnLastLine :
    (uid : UserId) (right : Text) (lines : List Text)
    → contains right (last_line uid [] lines) ≡ true
    → IsRight right × OnLastLine uid right lines
unfolding contains
last_line-OnLastLine uid right lines h = elim (last_line-cases uid lines) [
  | inl n ↦ absurd (ground (arith, h, ap (contains right) (last_line-none uid [] lines n)))
  | inr (before, raw, after, ws, e, r, n) ↦
      let same = ap (last_line uid []) e ∙ last_line-RuleOf uid [] before raw after ws r n in
      let (m, known) = (contains-known_rights right ws).0 (sym (ap (contains right) same) ∙ h) in
      ((contains_iff right all_rights).0 known, (before, raw, after, ws, e, r, m, n))
]

OnLastLine-last_line :
    (uid : UserId) (right : Text) (lines : List Text)
    → IsRight right
    → OnLastLine uid right lines
    → contains right (last_line uid [] lines) ≡ true
OnLastLine-last_line uid right lines known (before, raw, after, ws, e, r, m, n) =
    ap (contains right) (ap (last_line uid []) e ∙ last_line-RuleOf uid [] before raw after ws r n)
    ∙ (contains-known_rights right ws).1 (m, (contains_iff right all_rights).1 known)

put_rule-rights :
    (uid : UserId) (rule : Option (UserId × List Text)) (rules : Dict UserId (List Text))
    → rights_of uid (put_rule rule rules) ≡ rights_by uid (rights_of uid rules) rule
put_rule-rights uid none rules = refl
put_rule-rights uid (some (other, rights)) rules = ground (arith, get-put other uid rights rules)

load_lines-last :
    (uid : UserId) (lines : List Text) (rules : Dict UserId (List Text))
    → rights_of uid (load_lines lines rules) ≡ last_line uid (rights_of uid rules) lines
unfolding load_lines last_line
load_lines-last uid [] rules = refl
load_lines-last uid (raw ∷ lines) rules =
    load_lines-last uid lines (put_rule (parse_line raw) rules)
    ∙ ap (λ rights. last_line uid rights lines) (put_rule-rights uid (parse_line raw) rules)

-- The modification time shows whether the memory has the rights of the file.
Reflects : AclManager → Type 0
Reflects s =
    (f : File)
    → s.file ≡ some f
    → f.modified ≡ s.mtime
    → (uid : UserId) → rights_of uid s.rules ≡ last_line uid [] f.lines

module _ (s : AclManager) where
  reload-file : (reload s).file ≡ s.file
  unfolding reload
  reload-file = elim (s.file) as (λ o. (reload_file o s).file ≡ s.file) [
    | none ↦ refl
    | some f ↦ ground arith
  ]

  reload-mtime : (f : File) → s.file ≡ some f → f.modified ≡ (reload s).mtime
  unfolding reload
  reload-mtime f e = ground (arith, ap (λ o. reload_file o s) e)

  reload-Reflects : Reflects s → Reflects (reload s)
  unfolding Reflects
  reload-Reflects h f e t uid =
      let there : s.file ≡ some f = sym reload-file ∙ e in
      elim (Bool-cases (nat_eq f.modified s.mtime)) [
        | inl same ↦
            unfold reload in
            ground (arith, ap (λ o. reload_file o s) there, h f there (ground arith) uid)
        | inr changed ↦
            unfold reload get in
            ground (arith, ap (λ o. reload_file o s) there, load_lines-last uid f.lines [])
      ]

-- A call that reads the rights, or an edit that leaves this at the path.
pub data Event : Type 0 where
  checks : UserId → Text → Event
  reads : UserId → Event
  lists : Text → Event
  edits : Option File → Event

unfoldable pub step : Event → AclManager → AclManager
step (checks uid right) s = (check uid right s).0
step (reads uid) s = (get_user_rights uid s).0
step (lists right) s = (users_with_right right s).0
step (edits file) s = record s { file = file }

unfoldable pub run : List Event → AclManager → AclManager
run [] s = s
run (e ∷ es) s = run es (step e s)

-- A file that comes to the path by hand has another modification time than the last that was read.
abbrev pub Shows : Event → AclManager → Type 0
Shows (checks uid right) s = Unit
Shows (reads uid) s = Unit
Shows (lists right) s = Unit
Shows (edits none) s = Unit
Shows (edits (some f)) s = f.modified ≢ s.mtime

unfoldable pub EditsShow : List Event → AclManager → Type 0
EditsShow [] s = Unit
EditsShow (e ∷ es) s = Shows e s × EditsShow es (step e s)

check-state :
    (uid : UserId) (right : Text) (s : AclManager) → Reflects s → Reflects (check uid right s).0
unfolding check
check-state uid right s h =
    elim (contains right all_rights)
      as (λ b.
        Reflects
          (if◌then◌else◌ {A = AclManager × Bool} b
            (reload s, contains right (rights_of uid (reload s).rules)) (s, false)).0) [
              | true ↦ reload-Reflects s h
              | false ↦ h
            ]

list-state : (right : Text) (s : AclManager) → Reflects s → Reflects (users_with_right right s).0
unfolding users_with_right
list-state right s h =
    elim (contains right all_rights)
      as (λ b.
        Reflects
          (if◌then◌else◌ {A = AclManager × List UserId} b (reload s, holders right (reload s).rules)
            (s, [])).0) [ true ↦ reload-Reflects s h | false ↦ h ]

step-Reflects : (e : Event) (s : AclManager) → Shows e s → Reflects s → Reflects (step e s)
unfolding step
step-Reflects (checks uid right) s o h = check-state uid right s h
step-Reflects (reads uid) s o h = reload-Reflects s h
step-Reflects (lists right) s o h = list-state right s h
step-Reflects (edits none) s o h = unfold Reflects in λ f e t uid. ground arith
step-Reflects (edits (some g)) s o h = unfold Reflects in λ f e t uid. ground arith

run-Reflects :
    (es : List Event) (s : AclManager) → EditsShow es s → Reflects s → Reflects (run es s)
unfolding run EditsShow
run-Reflects [] s o h = h
run-Reflects (e ∷ es) s o h = run-Reflects es (step e s) o.1 (step-Reflects e s o.0 h)

-- No file yet.
abbrev pub start : AclManager
start = new_manager none

module _ (events : List Event) (shown : EditsShow events start) (f : File)
    (at_path : (run events start).file ≡ some f) where
  -- After any reads and any edits in which each new file has another modification time than the
  -- last one read, check of the file at the path grants a right exactly when it is one of the
  -- four rights and stands on the last line that is a rule of the user: no comment, of two words
  -- or more by the spaces between them, the first of them the number of the user and the right
  -- among the others.
  pub check_exact :
      (uid : UserId) (right : Text)
      → ((check uid right (run events start)).1 ≡ true)
        ↔ (IsRight right × OnLastLine uid right f.lines)
  unfolding check
  check_exact uid right =
      let s = run events start in
      let r : Reflects (reload s) = reload-Reflects s (
        run-Reflects events start shown (unfold Reflects reload get in λ g e t id. ground arith)) in
      let here = reload-file s ∙ at_path in
      let same : rights_of uid (reload s).rules ≡ last_line uid [] f.lines =
        unfold Reflects in r f here (reload-mtime s f at_path) uid in
      let whole : (check uid right s).1
          ≡ (contains right all_rights && contains right (last_line uid [] f.lines)) =
        ground (arith, same) in
      (
        λ h. last_line-OnLastLine uid right f.lines (ground (arith, sym whole ∙ h)),
        λ (known, on).
            whole
            ∙ ground (
              arith,
              (contains_iff right all_rights).1 known,
              OnLastLine-last_line uid right f.lines known on,
            ),
      )
