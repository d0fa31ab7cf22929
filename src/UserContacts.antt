-- ===== src/UserContacts.antt =====
-- core/user_contacts.py: the phone book of each Telegram user. `str.casefold`, a table of Unicode, is a
-- parameter. The JSON file is what `json.load` makes of it, with its modification time; an item of a
-- list is a dict with a text for the name and one for the number, or one that `_reload` drops.
pub mod Book
pub mod Duplicates
pub mod Books
pub mod Lookup
pub mod Search
use sim_bridge.Prelude.{
  ℕ, nat_eq, leb, Text, codes, text_Comparable, is_empty, is_set, starts_with, has_substring, strip,
  Bool, true, false, not, ◌&&◌, ◌||◌, List, [], ◌∷◌, ◌++◌, Option, none, some, is_some, or_else,
  keep_if, map, length, if◌then◌else◌, ◌==◌, ◌-◌,
}
use sim_bridge.Dict.{Dict, get, put, remove, map_values}
use sim_bridge.Phone.{normalize_e164, Destination, parse_destination}

pub record Entry : Type 0 where
  pub name : Text
  pub number : Text

pub data Item : Type 0 where
  person : Entry → Item
  other : Item

-- The root of the file: no object, or its members, each a list or something else.
pub data Content : Type 0 where
  corrupt : Content
  object : List (Text × Option (List Item)) → Content

pub record File : Type 0 where
  pub content : Content
  pub modified : ℕ

pub record UserContactsStore : Type 0 where
  pub data_of : Dict Text (List Entry)
  pub mtime : ℕ
  -- What stands at the store's path.
  pub file : Option File

-- The items with a name and a number.
abbrev pub usable : List Item → List Entry
usable [] = []
usable (other ∷ items) = usable items
usable (person e ∷ items) =
    let rest = usable items in
    if not (is_empty e.name) && not (is_empty e.number) then e ∷ rest else rest

abbrev pub put_entries : Text → List Entry → Dict Text (List Entry) → Dict Text (List Entry)
put_entries user [] d = d
put_entries user (e ∷ es) d = put user (e ∷ es) d

unfoldable pub clean_members :
    List (Text × Option (List Item)) → Dict Text (List Entry) → Dict Text (List Entry)
clean_members [] d = d
clean_members ((user, none) ∷ ms) d = clean_members ms d
clean_members ((user, some items) ∷ ms) d = clean_members ms (put_entries user (usable items) d)

abbrev pub load_content : Content → ℕ → UserContactsStore → UserContactsStore
load_content corrupt modified s = s
load_content (object ms) modified s = record s { data_of = clean_members ms []; mtime = modified }

abbrev pub reload_file : Option File → UserContactsStore → UserContactsStore
reload_file none s = s
reload_file (some f) s = if leb f.modified s.mtime then s else load_content f.content f.modified s

unfoldable pub reload : UserContactsStore → UserContactsStore
reload s = reload_file s.file s

abbrev pub new_store : Option File → UserContactsStore
new_store file = reload (record { data_of = []; mtime = 0; file = file })

-- `get`, after its `_reload`
abbrev pub entries_of : Text → UserContactsStore → List Entry
entries_of user s = or_else (get user s.data_of) []

abbrev pub first_of : (Entry → Bool) → List Entry → Option Entry
first_of p [] = none
first_of p (e ∷ es) = if p e then some e else first_of p es

-- `e["number"] == number or (norm and e["number"] == norm)`
abbrev pub has_number : Text → Entry → Bool
has_number number e =
    e.number == number || elim (normalize_e164 number) [ none ↦ false | some n ↦ e.number == n ]

abbrev name_of : Option Entry → Option Text
name_of none = none
name_of (some e) = some e.name

unfoldable pub resolve_number : Text → Text → UserContactsStore → Option Text
resolve_number user number s =
    if is_empty number
    then none
    else name_of (first_of (has_number number) (entries_of user (reload s)))

abbrev pub stripped : Entry → Entry
stripped e = record { name = strip e.name; number = strip e.number }

-- The entries that `replace_for` stores.
unfoldable pub tidy : List Entry → List Entry
tidy [] = []
tidy (e ∷ es) =
    let rest = tidy es in
    if not (is_empty (strip e.name)) && not (is_empty (strip e.number))
    then stripped e ∷ rest
    else rest

abbrev pub set_entries : Text → List Entry → Dict Text (List Entry) → Dict Text (List Entry)
set_entries user [] d = remove user d
set_entries user (e ∷ es) d = put user (e ∷ es) d

-- `json.dump` of the snapshot
abbrev pub snapshot : Dict Text (List Entry) → List (Text × Option (List Item))
snapshot d = map_values (λ es. some (map person es)) d

-- `replace_for`: with the modification time of the written file, or without one if the write raises.
unfoldable pub replace_for : Text → List Entry → Option ℕ → UserContactsStore → UserContactsStore
replace_for user entries none s = record s { data_of = set_entries user (tidy entries) s.data_of }
replace_for user entries (some stamp) s =
    let d = set_entries user (tidy entries) s.data_of in
    record {
      data_of = d;
      mtime = stamp;
      file = some (record { content = object (snapshot d); modified = stamp });
    }
