-- ===== src/Blacklist.antt =====
-- core/blacklist.py: the numbers in memory beside the file that the dialplan reads.
-- The file is its lines and its modification time; a missing one has the time 0, as in `_stat_mtime`.
pub mod Loading
pub mod Truth
pub mod Contract
use sim_bridge.Prelude.{
  ℕ, nat_eq, Text, codes, text_Comparable, text_le, is_empty, starts_with, strip, Bool, true, false,
  ◌||◌, List, [], ◌∷◌, ◌++◌, Option, none, some, contains, add, discard, sort_by, length,
  if◌then◌else◌,
}
use sim_bridge.Phone.{normalize_e164}

pub record File : Type 0 where
  pub lines : List Text
  pub modified : ℕ

pub record BlacklistManager : Type 0 where
  pub numbers : List Text
  pub mtime : ℕ
  -- What stands at the manager's path.
  pub file : Option File

abbrev pub stat_mtime : Option File → ℕ
stat_mtime none = 0
stat_mtime (some f) = f.modified

abbrev pub add_number : Option Text → List Text → List Text
add_number none numbers = numbers
add_number (some n) numbers = add n numbers

unfoldable pub load_line : Text → List Text → List Text
load_line line numbers =
    let stripped = strip line in
    if is_empty stripped || starts_with stripped (codes "#")
    then numbers
    else add_number (normalize_e164 stripped) numbers

unfoldable pub load_lines : List Text → List Text → List Text
load_lines [] numbers = numbers
load_lines (line ∷ lines) numbers = load_lines lines (load_line line numbers)

-- `_load` into an empty set
abbrev pub load : Option File → List Text
load none = []
load (some f) = load_lines f.lines []

abbrev pub reload : BlacklistManager → BlacklistManager
reload s = record { numbers = load s.file; mtime = stat_mtime s.file; file = s.file }

abbrev pub new_manager : Option File → BlacklistManager
new_manager file = reload (record { numbers = []; mtime = 0; file = file })

unfoldable pub maybe_reload : BlacklistManager → BlacklistManager
maybe_reload s = if nat_eq (stat_mtime s.file) s.mtime then s else reload s

unfoldable pub has_number : Text → BlacklistManager → BlacklistManager × Bool
has_number number s = (
  maybe_reload s,
  elim (normalize_e164 number) [ none ↦ false | some n ↦ contains n (maybe_reload s).numbers ],
)

-- The time text of the second line and the modification time that the written file gets.
pub record Stamp : Type 0 where
  pub text : Text
  pub modified : ℕ

unfoldable pub file_lines : Text → List Text → List Text
file_lines text numbers =
    codes "# SimBridge blacklist — auto-generated"
    ∷ (codes "# Last updated: " ++ text)
    ∷ sort_by text_le numbers

-- What an operation that writes ends with: its result, or the `OSError` of `_write`.
pub data Outcome : Type 0 where
  returned : Bool → Outcome
  os_error : Outcome

-- `_write`. Without a stamp the writing fails, and the file stays as it was.
unfoldable pub write : Option Stamp → BlacklistManager → BlacklistManager × Outcome
write none s = (s, os_error)
write (some t) s =
    let f : File = record { lines = file_lines t.text s.numbers; modified = t.modified } in
    (record s { mtime = t.modified; file = some f }, returned true)

unfoldable pub block_number : Text → Option Stamp → BlacklistManager → BlacklistManager × Outcome
block_number n stamp s =
    if contains n s.numbers
    then (s, returned false)
    else write stamp (record s { numbers = add n s.numbers })

unfoldable pub block : Text → Option Stamp → BlacklistManager → BlacklistManager × Outcome
block number stamp s = elim (normalize_e164 number) [
  | none ↦ (s, returned false)
  | some n ↦ block_number n stamp (maybe_reload s)
]

unfoldable pub unblock_number : Text → Option Stamp → BlacklistManager → BlacklistManager × Outcome
unblock_number n stamp s =
    if contains n s.numbers
    then write stamp (record s { numbers = discard n s.numbers })
    else (s, returned false)

unfoldable pub unblock : Text → Option Stamp → BlacklistManager → BlacklistManager × Outcome
unblock number stamp s = elim (normalize_e164 number) [
  | none ↦ (s, returned false)
  | some n ↦ unblock_number n stamp (maybe_reload s)
]

-- `list`
abbrev pub list_numbers : BlacklistManager → BlacklistManager × List Text
list_numbers s = (maybe_reload s, sort_by text_le (maybe_reload s).numbers)

abbrev pub count : BlacklistManager → BlacklistManager × ℕ
count s = (maybe_reload s, length (maybe_reload s).numbers)
