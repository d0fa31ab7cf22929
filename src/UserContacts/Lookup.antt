-- ===== src/UserContacts/Lookup.antt =====
-- core/user_contacts.py: a number that was added is found again.
use sim_bridge.Prelude.{
  ℕ, Text, text_Comparable, text_eq_iff, is_empty, strip, Bool, true, false, List, [], ◌∷◌, ◌++◌,
  Option, none, some, ◌==◌, ◌≡◌, sym, ◌∙◌, ap, subst, arith, All, All-append, inl, inr,
  Option-cases,
}
use sim_bridge.Phone.{Destination, parse_destination}
use sim_bridge.Phone.Normal.{short_number}
use sim_bridge.Phone.Strict.{parse_destination_again, parse_destination-normal}
use sim_bridge.UserContacts.{
  Entry, UserContactsStore, reload, new_store, entries_of, first_of, has_number, resolve_number,
  replace_for,
}
use sim_bridge.UserContacts.Book.{underscore, ok, same_number, add_entry, add_unique}
use sim_bridge.UserContacts.Duplicates.{
  IsTidy, reload-current, Kept, replace_for-entries, none_first,
}
use sim_bridge.UserContacts.Books.{Event, run, run-Kept, start-Kept, add_unique-Kept, new-IsTidy}

-- For the number of a destination the second form of `has_number` adds nothing.
has_number-destination :
    (raw : Option Text) (d : Destination) (e : Entry)
    → parse_destination raw ≡ some d
    → has_number d.number e ≡ (e.number == d.number)
has_number-destination raw d e p = elim (parse_destination-normal raw d p) [
  | inl (flag, normal) ↦ ground (arith, normal)
  | inr (same, short) ↦ ground (arith, short_number d.number)
]

first_of-append :
    (p : Entry → Bool) (es : List Entry) (new : Entry)
    → All (λ e. p e ≡ false) es
    → p new ≡ true
    → first_of p (es ++ new ∷ []) ≡ some new
first_of-append p [] new h k = ground arith
first_of-append p (e ∷ es) new h k = ground (arith, first_of-append p es new h.1 k)

-- No entry of a tidy book has the number, if none has it as its canonical form.
module _ (casefold : Text → Text) where
  not_there :
      (raw : Option Text) (d : Destination) (es : List Entry)
      → parse_destination raw ≡ some d
      → All IsTidy es
      → All (λ e. same_number casefold d.number e ≡ false) es
      → All (λ e. has_number d.number e ≡ false) es
  unfolding IsTidy
  not_there raw d [] p t h = tt
  not_there raw d (e ∷ es) p t h =
      (ground (arith, has_number-destination raw d e p, t.0, h.0), not_there raw d es p t.1 h.1)

  -- What `add_entry` has done when it says ok.
  add_entry-ok :
      (user name norm n : Text) (stamp : Option ℕ) (s : UserContactsStore)
      → (add_entry casefold user name norm stamp s).1 ≡ ok n
      → (n ≡ norm)
        × (first_of (same_number casefold norm) (entries_of user s) ≡ none)
        × ((add_entry casefold user name norm stamp s).0
            ≡ replace_for user
                (entries_of user s ++ record { name = name; number = norm } ∷ [])
                stamp
                s)
  unfolding add_entry
  add_entry-ok user name norm n stamp s e = ground arith

  add_unique-ok :
      (user name number n : Text) (stamp : Option ℕ) (s : UserContactsStore)
      → (add_unique casefold user name number stamp s).1 ≡ ok n
      → (d : Destination) × (parse_destination (some (strip number)) ≡ some d)
        × (is_empty (underscore (strip name)) ≡ false)
        × (add_unique casefold user name number stamp s
            ≡ add_entry casefold user (underscore (strip name)) d.number stamp (reload s))
  unfolding add_unique
  add_unique-ok user name number n stamp s e =
      elim (Option-cases (parse_destination (some (strip number)))) [
        | inl bad ↦ absurd (ground arith)
        | inr (d, good) ↦ (d, good, ground arith, ground arith)
      ]

  -- A number is resolved to the name of the one entry that has it.
  found_in :
      (user n : Text) (s : UserContactsStore) (old : List Entry) (new : Entry)
      → reload s ≡ s
      → entries_of user s ≡ old ++ new ∷ []
      → is_empty n ≡ false
      → All (λ e. has_number n e ≡ false) old
      → has_number n new ≡ true
      → resolve_number user n s ≡ some new.name
  unfolding resolve_number
  found_in user n s old new same entries h others own = ground (
    arith,
    same,
    ap (first_of (has_number n)) entries,
    first_of-append (has_number n) old new others own,
  )

  -- From a store without a file, after any additions and deletions, a number that add_unique says
  -- it added is resolved to the name it was added under, with underscores for its spaces.
  pub add_unique-resolves :
      (es : List Event) (user name number n : Text) (stamp : Option ℕ)
      → (add_unique casefold user name number stamp (run casefold es (new_store none))).1 ≡ ok n
      → resolve_number user n
          (add_unique casefold user name number stamp (run casefold es (new_store none))).0
        ≡ some (underscore (strip name))
  add_unique-resolves es user name number n stamp e =
      let s : UserContactsStore = run casefold es (new_store none) in
      let k : Kept casefold s = run-Kept casefold es (new_store none) (start-Kept casefold) in
      let (d, good, named, is_entry) = add_unique-ok user name number n stamp s e in
      let here = reload-current s k.current in
      let after : UserContactsStore = (add_unique casefold user name number stamp s).0 in
      let kept_after = add_unique-Kept casefold user name number stamp s k in
      let added =
        add_entry-ok user (underscore (strip name)) d.number n stamp s
          (ground (arith, is_entry, here)) in
      let old : List Entry = entries_of user s in
      let new : Entry = record { name = underscore (strip name); number = d.number } in
      let raw : Option Text = some (strip number) in
      let is_after : after ≡ replace_for user (old ++ new ∷ []) stamp s =
        ap (λ r. r.0) is_entry
        ∙ ap (λ t. (add_entry casefold user (underscore (strip name)) d.number stamp t).0) here
        ∙ added.2 in
      let tidy_after =
        All-append IsTidy old (new ∷ []) (k.is_tidy user) (new-IsTidy name raw d named good, tt) in
      let entries : entries_of user after ≡ old ++ new ∷ [] =
        ap (entries_of user) is_after
        ∙ (replace_for-entries user user (old ++ new ∷ []) stamp s tidy_after
            ∙ ground (arith, text_eq_iff user user)) in
      subst (λ m. resolve_number user m after ≡ some (underscore (strip name))) (sym added.0)
        (found_in user d.number after old new (reload-current after kept_after.current) entries
          (parse_destination_again raw d good).2
          (not_there raw d old good (k.is_tidy user)
            (none_first casefold (same_number casefold d.number) old added.1))
          (ground (arith, has_number-destination raw d new good, text_eq_iff d.number d.number)))
