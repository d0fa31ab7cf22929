-- ===== src/Contacts.antt =====
-- core/contacts.py: the names of numbers, from the CSV cache, other providers and the built-in service
-- numbers.
pub mod Stale
use sim_bridge.Prelude.{
  ℕ, nat_eq, leb, Text, codes, text_Comparable, is_empty, is_set, starts_with, strip, Bool, true,
  false, not, ◌&&◌, ◌||◌, List, [], ◌∷◌, ◌++◌, Option, none, some, is_some, or_else, if◌then◌else◌,
}
use sim_bridge.Dict.{Dict, get, put}
use sim_bridge.Phone.{normalize_e164}

-- `_SERVICE_NUMBERS`
abbrev pub service_numbers : Dict Text Text
service_numbers =
    (codes "+74957877777", codes "SberBank")
    ∷ (codes "+74957777777", codes "SberBank Info")
    ∷ (codes "900", codes "Городской справочный")
    ∷ (codes "112", codes "Единая служба спасения")
    ∷ (codes "101", codes "Полиция")
    ∷ (codes "102", codes "Пожарные")
    ∷ (codes "103", codes "Скорая")
    ∷ (codes "104", codes "Газ служба")
    ∷ []

-- `ServiceNumberProvider.lookup`
unfoldable pub service_lookup : Text → Option Text
service_lookup number =
    if is_set (get number service_numbers)
    then get number service_numbers
    else (elim (normalize_e164 number) [ none ↦ none | some norm ↦ get norm service_numbers ])

pub record File : Type 0 where
  pub lines : List Text
  pub modified : ℕ

pub record CsvContactProvider : Type 0 where
  pub cache : Dict Text Text
  pub mtime : ℕ
  -- What stands at the provider's path.
  pub file : Option File

-- `s.split(",", 1)`, where there is a comma
unfoldable pub split_comma : Text → Option (Text × Text)
split_comma [] = none
split_comma (c ∷ s) =
    let rest = split_comma s in
    if nat_eq c 44
    then some ([], s)
    else (elim rest [ none ↦ none | some (a, b) ↦ some (c ∷ a, b) ])

-- The key and the name that the two parts of a line set.
abbrev pub contact_of : Text × Text → Option (Text × Text)
contact_of (number, name) =
    if is_empty (strip name)
    then none
    else some (or_else (normalize_e164 (strip number)) (strip number), strip name)

unfoldable pub parse_line : Text → Option (Text × Text)
parse_line line =
    if is_empty (strip line) || starts_with (strip line) (codes "#")
    then none
    else (elim (split_comma (strip line)) [ none ↦ none | some parts ↦ contact_of parts ])

abbrev pub put_contact : Option (Text × Text) → Dict Text Text → Dict Text Text
put_contact none cache = cache
put_contact (some (key, name)) cache = put key name cache

unfoldable pub load_lines : List Text → Dict Text Text → Dict Text Text
load_lines [] cache = cache
load_lines (line ∷ lines) cache = load_lines lines (put_contact (parse_line line) cache)

abbrev pub reload_file : Option File → CsvContactProvider → CsvContactProvider
reload_file none p = p
reload_file (some f) p =
    if leb f.modified p.mtime
    then p
    else record p { cache = load_lines f.lines []; mtime = f.modified }

-- `_reload`
unfoldable pub reload_if_newer : CsvContactProvider → CsvContactProvider
reload_if_newer p = reload_file p.file p

abbrev pub new_provider : Option File → CsvContactProvider
new_provider file = reload_if_newer (record { cache = []; mtime = 0; file = file })

unfoldable pub reload : CsvContactProvider → CsvContactProvider
reload p = reload_if_newer (record p { mtime = 0 })

-- The key of a number in the cache: its normal form, or itself.
unfoldable pub key_of : Text → Text
key_of number = if is_empty number then number else or_else (normalize_e164 number) number

unfoldable pub csv_lookup : Text → CsvContactProvider → Option Text
csv_lookup number p = get (key_of number) p.cache

-- `ContactResolver.resolve` over what the providers answer, in their order.
unfoldable pub first_set : List (Option Text) → Option Text
first_set [] = none
first_set (name ∷ names) = if is_set name then name else first_set names

-- The answers of the extra providers are given.
unfoldable pub resolve : Text → List (Option Text) → CsvContactProvider → Option Text
resolve number extra p = first_set (csv_lookup number p ∷ (extra ++ service_lookup number ∷ []))
