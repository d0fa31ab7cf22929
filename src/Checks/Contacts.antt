-- ===== src/Checks/Contacts.antt =====
-- core/contacts.py and core/user_contacts.py on small inputs.
use sim_bridge.Prelude.{
  starts_with, ◌+◌, leb, Text, codes, text_eq, text_Comparable, is_decimal, is_space, left_strip,
  right_strip, contains, ◌&&◌, List, [], ◌∷◌, none, some, if◌then◌else◌, ◌≡◌, refl, map,
}
use sim_bridge.Dict.{get, put, remove}
use sim_bridge.Phone.{destination_of, led_by, digits_to_end, digit_run, after_digits}
use sim_bridge.Contacts.{
  CsvContactProvider, new_provider, csv_lookup, resolve, first_set, service_lookup, key_of,
  parse_line, load_lines, split_comma, reload_if_newer,
}
use sim_bridge.Contacts
use sim_bridge.Contacts.Stale.{last_name, last_read, read_now, csv_lookup-last_read}
use sim_bridge.Contacts.Stale
use sim_bridge.Phone.{normalize_e164, normalized}
use sim_bridge.UserContacts.{
  Entry, UserContactsStore, reload, new_store, entries_of, replace_for, tidy,
}
use sim_bridge.UserContacts.{resolve_number}
use sim_bridge.UserContacts.Lookup.{add_unique-resolves}
use sim_bridge.UserContacts.Book.{ok, canonical, add_entry, add_unique}
use sim_bridge.UserContacts.Duplicates.{Distinct}
use sim_bridge.UserContacts.Books.{Event, adds, run, step, run-Distinct}

-- `casefold` of ASCII texts
abbrev lower : Text → Text
lower s = map (λ c. if leb 65 c && leb c 90 then c + 32 else c) s

abbrev user : Text
user = codes "77"

-- The second number is the first in another form, the third name the first in capitals.
abbrev additions : List Event
additions =
    adds user (codes "Ivan Petrov") (codes "+79261234555") (some 5)
    ∷ adds user (codes "Other") (codes "89261234555") (some 6)
    ∷ adds user (codes "IVAN PETROV") (codes "100") none
    ∷ adds user (codes "Ivan") (codes "1234") none
    ∷ []

abbrev book : UserContactsStore
book = run lower additions (new_store none)

abbrev ivan_petrov : Entry
ivan_petrov = record { name = codes "Ivan_Petrov"; number = codes "+79261234555" }

abbrev ivan : Entry
ivan = record { name = codes "Ivan"; number = codes "1234" }

run-Distinct_example :
    Distinct lower (entries_of user (reload (run lower additions (new_store none))))
run-Distinct_example = run-Distinct lower additions user

abbrev old_cache : Contacts.File
old_cache = record { lines = codes "# names" ∷ codes "8 926 123-45-55,Ivan" ∷ []; modified = 4 }

abbrev new_cache : Contacts.File
new_cache = record { lines = codes "+79261234555,Petr" ∷ []; modified = 9 }

abbrev edited : CsvContactProvider
edited = Stale.run (Stale.edits (some new_cache) ∷ []) (new_provider (some old_cache))

-- The edit is not seen, and the other lookups of the chain are not asked.
old_name : resolve (codes "+79261234555") [] edited ≡ some (codes "Ivan")
unfolding resolve first_set csv_lookup key_of Stale.run Stale.step reload_if_newer load_lines
    parse_line split_comma normalize_e164 normalized led_by digits_to_end digit_run after_digits
    left_strip right_strip starts_with is_decimal is_space contains get put text_eq
old_name = refl

bank_added :
    (add_unique lower user
      (codes "My Bank")
      (codes " 900 ")
      (some 9)
      (run lower additions (new_store none))).1
    ≡ ok (codes "900")
unfolding run step add_unique add_entry replace_for tidy reload canonical get put remove text_eq
    destination_of led_by digits_to_end digit_run after_digits left_strip right_strip is_decimal
    is_space contains
bank_added = refl

add_unique-resolves_example :
    resolve_number user
      (codes "900")
      (add_unique lower user
        (codes "My Bank")
        (codes " 900 ")
        (some 9)
        (run lower additions (new_store none))).0
    ≡ some (codes "My_Bank")
unfolding left_strip right_strip is_space contains
add_unique-resolves_example =
    add_unique-resolves lower additions user (codes "My Bank") (codes " 900 ") (codes "900")
      (some 9) bank_added
