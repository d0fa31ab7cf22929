-- ===== src/Acl.antt =====
-- core/acl.py: the rights of the users, read again when the file's modification time differs.
pub mod Lines
pub mod Words
pub mod Rules
pub mod Rights
use sim_bridge.Prelude.{
  ℕ, suc, zero, ◌+◌, ◌-◌, ◌*◌, nat_eq, leb, Text, codes, text_eq, text_Comparable, Comparable,
  is_empty, starts_with, strip, is_space, is_decimal, Bool, true, false, not, ◌&&◌, ◌||◌, List, [],
  ◌∷◌, Option, none, some, keep_if, contains, add, length, if◌then◌else◌, ◌↔◌, ◌≡◌, arith,
  nat_Comparable, or_else, ◌==◌,
}
use sim_bridge.Dict.{Dict, get, put}
use sim_bridge.Acl.Lines.{words, parse_int, UserId, user_Comparable}

pub record File : Type 0 where
  pub lines : List Text
  pub modified : ℕ

pub record AclManager : Type 0 where
  pub rules : Dict UserId (List Text)
  pub mtime : ℕ
  -- What stands at the manager's path.
  pub file : Option File

-- `_RIGHTS`
abbrev pub all_rights : List Text
all_rights = codes "in_sms" ∷ codes "in_call" ∷ codes "out_sms" ∷ codes "out_call" ∷ []

-- `set(parts[1:]) & _RIGHTS`
unfoldable pub known_rights : List Text → List Text
known_rights parts = keep_if (λ right. contains right all_rights) parts

-- The rule that the parts of a line set: none unless there are two, the first of them a number.
abbrev pub rule_of : List Text → Option (UserId × List Text)
rule_of [] = none
rule_of (id ∷ []) = none
rule_of (id ∷ right ∷ rights) = elim (parse_int id) [
  | none ↦ none
  | some uid ↦ some (uid, known_rights (right ∷ rights))
]

unfoldable pub parse_line : Text → Option (UserId × List Text)
parse_line raw =
    let line = strip raw in
    if is_empty line || starts_with line (codes "#") then none else rule_of (words line)

abbrev pub put_rule :
    Option (UserId × List Text) → Dict UserId (List Text) → Dict UserId (List Text)
put_rule none rules = rules
put_rule (some (uid, rights)) rules = put uid rights rules

unfoldable pub load_lines : List Text → Dict UserId (List Text) → Dict UserId (List Text)
load_lines [] rules = rules
load_lines (raw ∷ lines) rules = load_lines lines (put_rule (parse_line raw) rules)

abbrev pub reload_file : Option File → AclManager → AclManager
reload_file none s = s
reload_file (some f) s =
    if nat_eq f.modified s.mtime
    then s
    else record s { rules = load_lines f.lines []; mtime = f.modified }

unfoldable pub reload : AclManager → AclManager
reload s = reload_file s.file s

abbrev pub new_manager : Option File → AclManager
new_manager file = reload (record { rules = []; mtime = 0; file = file })

abbrev pub rights_of : UserId → Dict UserId (List Text) → List Text
rights_of uid rules = or_else (get uid rules) []

unfoldable pub check : UserId → Text → AclManager → AclManager × Bool
check uid right s =
    if contains right all_rights
    then (reload s, contains right (rights_of uid (reload s).rules))
    else (s, false)

abbrev pub get_user_rights : UserId → AclManager → AclManager × List Text
get_user_rights uid s = (reload s, rights_of uid (reload s).rules)

abbrev pub holders : Text → Dict UserId (List Text) → List UserId
holders right [] = []
holders right ((uid, rights) ∷ rules) =
    let rest = holders right rules in if contains right rights then uid ∷ rest else rest

unfoldable pub users_with_right : Text → AclManager → AclManager × List UserId
users_with_right right s =
    if contains right all_rights then (reload s, holders right (reload s).rules) else (s, [])

abbrev pub user_count : AclManager → ℕ
user_count s = length s.rules
