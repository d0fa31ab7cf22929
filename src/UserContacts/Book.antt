-- ===== src/UserContacts/Book.antt =====
-- core/user_contacts.py: the operations on one phone book, with `casefold` for `str.casefold` and the
-- modification time of the file that is written, if the write succeeds.
use sim_bridge.Prelude.{
  ℕ, nat_eq, Text, text_Comparable, is_empty, starts_with, has_substring, strip, Bool, not, List,
  [], ◌∷◌, ◌++◌, Option, none, some, keep_if, length, if◌then◌else◌, ◌==◌, ◌-◌,
}
use sim_bridge.Phone.{parse_destination}
use sim_bridge.UserContacts.{
  Entry, UserContactsStore, reload, entries_of, first_of, has_number, replace_for,
}

-- `e_dest.number if e_dest else e["number"]`
unfoldable pub canonical : Text → Text
canonical number = elim (parse_destination (some number)) [ none ↦ number | some d ↦ d.number ]

-- `str(name or "").strip().replace(" ", "_")`
abbrev pub underscore : Text → Text
underscore [] = []
underscore (c ∷ s) = let rest = underscore s in (if nat_eq c 32 then 95 else c) ∷ rest

pub data Added : Type 0 where
  ok : Text → Added
  number_exists : Text → Added
  name_exists : Text → Added
  no_name : Added
  bad_number : Added
  -- The exception of `replace_for` leaves the call.
  os_error : Added

-- `(True, "ok", norm)`, unless the write has raised.
abbrev wrote : Option ℕ → Text → Added
wrote none norm = os_error
wrote (some stamp) norm = ok norm

-- `if removed: self.replace_for(…)`, with the count of removed entries, if nothing raised.
abbrev stored_count : Option ℕ → ℕ → Option ℕ
stored_count none n = none
stored_count (some stamp) n = some n

unfoldable pub keep_entries :
    Text → (Entry → Bool) → Option ℕ → UserContactsStore → UserContactsStore × Option ℕ
keep_entries user keep stamp s =
    let entries = entries_of user s in
    let removed = length entries - length (keep_if keep entries) in
    if nat_eq removed 0
    then (s, some 0)
    else (replace_for user (keep_if keep entries) stamp s, stored_count stamp removed)

unfoldable pub delete_by_number :
    Text → Text → Option ℕ → UserContactsStore → UserContactsStore × Option ℕ
delete_by_number user number stamp s =
    if is_empty number
    then (s, some 0)
    else keep_entries user (λ e. not (has_number number e)) stamp (reload s)

module _ (casefold : Text → Text) where
  abbrev pub same_name : Text → Entry → Bool
  same_name name e = casefold e.name == casefold name

  abbrev pub same_number : Text → Entry → Bool
  same_number norm e = canonical e.number == norm

  -- `add_unique` on the entries, once name and number are in their stored form.
  unfoldable pub add_entry :
      Text → Text → Text → Option ℕ → UserContactsStore → UserContactsStore × Added
  add_entry user name norm stamp s = elim (first_of (same_number norm) (entries_of user s)) [
    | some e ↦ (s, number_exists e.name)
    | none ↦ elim (first_of (same_name name) (entries_of user s)) [
      | some e ↦ (s, name_exists e.number)
      | none ↦ (
        replace_for user (entries_of user s ++ record { name = name; number = norm } ∷ []) stamp s,
        wrote stamp norm,
      )
    ]
  ]

  unfoldable pub add_unique :
      Text → Text → Text → Option ℕ → UserContactsStore → UserContactsStore × Added
  add_unique user name number stamp s =
      if is_empty (underscore (strip name))
      then (s, no_name)
      else (elim (parse_destination (some (strip number))) [
        | none ↦ (s, bad_number)
        | some d ↦ add_entry user (underscore (strip name)) d.number stamp (reload s)
      ])

  unfoldable pub delete_by_name :
      Text → Text → Option ℕ → UserContactsStore → UserContactsStore × Option ℕ
  delete_by_name user name stamp s =
      if is_empty (casefold (strip name))
      then (s, some 0)
      else keep_entries user (λ e. not (casefold e.name == casefold (strip name))) stamp (reload s)

  -- `exact`, else `prefix`, else the entries whose name has the query in it.
  abbrev pub or_list : List Entry → List Entry → List Entry
  or_list [] ys = ys
  or_list (x ∷ xs) ys = x ∷ xs

  abbrev pub tiers : Text → List Entry → List Entry
  tiers q entries = or_list (keep_if (λ e. casefold e.name == q) entries) (
      or_list (keep_if (λ e. starts_with (casefold e.name) q) entries)
        (keep_if (λ e. has_substring (casefold e.name) q) entries))

  unfoldable pub find_by_name : Text → Text → UserContactsStore → List Entry
  find_by_name user query s =
      let q = casefold (strip query) in
      if is_empty q then [] else tiers q (entries_of user (reload s))
