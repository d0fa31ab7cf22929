-- ===== src/UserContacts/Books.antt =====
-- core/user_contacts.py: the phone books after any sequence of additions and deletions.
use sim_bridge.Prelude.{
  ℕ, suc, ◌≤◌, nat_eq, Text, is_empty, contains, strip, left_strip, right_strip, is_space, Bool,
  true, false, not, List, [], ◌∷◌, Option, none, some, keep_if, length, if◌then◌else◌, ◌==◌, ◌-◌,
  ◌≡◌, refl, sym, ◌∙◌, ap, subst, arith, inl, inr, Bool-cases, Option-cases, text_Comparable,
}
use sim_bridge.Dict.{get}
use sim_bridge.Phone.{Destination, parse_destination}
use sim_bridge.Phone.Strict.{right_strip_twice, parse_destination_again}
use sim_bridge.UserContacts.{Entry, UserContactsStore, reload, new_store, entries_of, has_number}
use sim_bridge.UserContacts.Book.{
  canonical, underscore, keep_entries, delete_by_number, add_unique, delete_by_name,
}
use sim_bridge.UserContacts.Duplicates.{
  IsTidy, reload-current, Distinct, Distinct-keep_if, All-keep_if, Kept, replace_for-Kept,
  add_entry-Kept,
}

left_strip_twice : (s : Text) → left_strip (left_strip s) ≡ left_strip s
unfolding left_strip
left_strip_twice [] = refl
left_strip_twice (c ∷ s) = ground (arith, left_strip_twice s)

space_is_space : is_space 32 ≡ true
unfolding is_space contains
space_is_space = refl

underscore_not_space : is_space 95 ≡ false
unfolding is_space contains
underscore_not_space = refl

length-left_strip : (s : Text) → length (left_strip s) ≤ length s
unfolding left_strip
length-left_strip [] = omega arith
length-left_strip (c ∷ s) = ground (arith, length-left_strip s)

-- A text without leading spaces starts with no space.
first_not_space : (c : ℕ) (s : Text) → left_strip (c ∷ s) ≡ c ∷ s → is_space c ≡ false
unfolding left_strip
first_not_space c s h = elim (Bool-cases (is_space c)) [
  | inl blank ↦
      let same : left_strip s ≡ c ∷ s = ground (arith) in
      let long : length (left_strip s) ≡ suc (length s) = ap length same in
      ground (arith, length-left_strip s)
  | inr dark ↦ dark
]

-- Replacing the spaces of a stripped text leaves nothing to strip.
underscore-left : (s : Text) → left_strip s ≡ s → left_strip (underscore s) ≡ underscore s
underscore-left [] h = unfold left_strip in refl
underscore-left (c ∷ s) h =
    unfold left_strip in ground (arith, underscore_not_space, first_not_space c s h)

empty-underscore : (s : Text) → is_empty (underscore s) ≡ is_empty s
empty-underscore [] = refl
empty-underscore (c ∷ s) = refl

underscore-right : (s : Text) → right_strip s ≡ s → right_strip (underscore s) ≡ underscore s
unfolding right_strip
underscore-right [] h = refl
underscore-right (c ∷ s) h =
    ground (arith, underscore_not_space, underscore-right s (ground arith), empty-underscore s)

left_strip-right_strip : (s : Text) → left_strip s ≡ s → left_strip (right_strip s) ≡ right_strip s
left_strip-right_strip [] h = unfold left_strip right_strip in refl
left_strip-right_strip (c ∷ s) h =
    unfold left_strip right_strip in ground (arith, first_not_space c s h)

pub strip-underscore : (s : Text) → strip (underscore (strip s)) ≡ underscore (strip s)
strip-underscore s =
    ap right_strip
      (underscore-left (strip s) (left_strip-right_strip (left_strip s) (left_strip_twice s)))
    ∙ underscore-right (strip s) (right_strip_twice (left_strip s))

-- The entry that `add_unique` makes.
pub new-IsTidy :
    (name : Text) (raw : Option Text) (d : Destination)
    → is_empty (underscore (strip name)) ≡ false
    → parse_destination raw ≡ some d
    → IsTidy (record { name = underscore (strip name); number = d.number })
unfolding IsTidy canonical
new-IsTidy name raw d named good =
    let again = parse_destination_again raw d good in
    (ground (arith, again, strip-underscore name), named, again.2, ground (arith, again))

module _ (casefold : Text → Text) where
  pub add_unique-Kept :
      (user name number : Text) (stamp : Option ℕ) (s : UserContactsStore)
      → Kept casefold s
      → Kept casefold (add_unique casefold user name number stamp s).0
  unfolding add_unique
  add_unique-Kept user name number stamp s k =
      elim (Bool-cases (is_empty (underscore (strip name)))) [
        | inl nameless ↦ subst (Kept casefold) (ground (arith, nameless)) k
        | inr named ↦ elim (Option-cases (parse_destination (some (strip number)))) [
          | inl bad ↦ subst (Kept casefold) (ground (arith, named, bad)) k
          | inr (d, good) ↦
              let again = parse_destination_again (some (strip number)) d good in
              let same = reload-current s k.current in
              subst (Kept casefold) (ground (arith, named, good, same)) (
                add_entry-Kept casefold user (underscore (strip name)) d.number stamp s
                  (unfold canonical in ground (arith, again))
                  (new-IsTidy name (some (strip number)) d named good) k)
        ]
      ]

  keep_entries-Kept :
      (user : Text) (keep : Entry → Bool) (stamp : Option ℕ) (s : UserContactsStore)
      → Kept casefold s
      → Kept casefold (keep_entries user keep stamp s).0
  unfolding keep_entries
  keep_entries-Kept user keep stamp s k =
      let es = entries_of user s in
      elim (Bool-cases (nat_eq (length es - length (keep_if keep es)) 0)) [
        | inl all ↦ subst (Kept casefold) (ground (arith, all)) k
        | inr fewer ↦ subst (Kept casefold) (ground (arith, fewer)) (
            replace_for-Kept casefold user (keep_if keep es) stamp s k
              (Distinct-keep_if casefold keep es (k.distinct user))
              (All-keep_if casefold IsTidy keep es (k.is_tidy user)))
      ]

-- A write operation on the phone book of a user, with the modification time of the file it writes, or
-- without one if its write raises.
pub data Event : Type 0 where
  adds : Text → Text → Text → Option ℕ → Event
  deletes_number : Text → Text → Option ℕ → Event
  deletes_name : Text → Text → Option ℕ → Event

module _ (casefold : Text → Text) where
  unfoldable pub step : Event → UserContactsStore → UserContactsStore
  step (adds user name number stamp) s = (add_unique casefold user name number stamp s).0
  step (deletes_number user number stamp) s = (delete_by_number user number stamp s).0
  step (deletes_name user name stamp) s = (delete_by_name casefold user name stamp s).0

  unfoldable pub run : List Event → UserContactsStore → UserContactsStore
  run [] s = s
  run (e ∷ es) s = run es (step e s)

  -- The shape of both deletions.
  Kept-keep_entries :
      (nothing : Bool) (keep : Entry → Bool) (user : Text) (stamp : Option ℕ)
      (s : UserContactsStore)
      → Kept casefold s
      → Kept casefold
          (if◌then◌else◌ {A = UserContactsStore × Option ℕ} nothing
            (s, some 0)
            (keep_entries user keep stamp (reload s))).0
  Kept-keep_entries true keep user stamp s k = k
  Kept-keep_entries false keep user stamp s k =
      keep_entries-Kept casefold user keep stamp (reload s)
        (subst (Kept casefold) (sym (reload-current s k.current)) k)

  step-Kept : (e : Event) (s : UserContactsStore) → Kept casefold s → Kept casefold (step e s)
  unfolding step delete_by_number delete_by_name
  step-Kept (adds user name number stamp) s k = add_unique-Kept casefold user name number stamp s k
  step-Kept (deletes_number user number stamp) s k =
      Kept-keep_entries (is_empty number) (λ e. not (has_number number e)) user stamp s k
  step-Kept (deletes_name user name stamp) s k =
      Kept-keep_entries (is_empty (casefold (strip name)))
        (λ e. not (casefold e.name == casefold (strip name))) user stamp s k

  pub run-Kept :
      (es : List Event) (s : UserContactsStore) → Kept casefold s → Kept casefold (run es s)
  unfolding run
  run-Kept [] s k = k
  run-Kept (e ∷ es) s k = run-Kept es (step e s) (step-Kept e s k)

  pub start-Kept : Kept casefold (new_store none)
  unfolding reload get
  start-Kept = record { current = refl; distinct = λ user. tt; is_tidy = λ user. tt }

  -- From a store without a file, after any additions and deletions, whether their writes succeed
  -- or not, no two entries of one phone book have the same number in its canonical form, or names
  -- that differ by case only.
  pub run-Distinct :
      (es : List Event) (user : Text)
      → Distinct casefold (entries_of user (reload (run es (new_store none))))
  run-Distinct es user =
      let k = run-Kept es (new_store none) start-Kept in
      subst (λ s. Distinct casefold (entries_of user s))
        (sym (reload-current (run es (new_store none)) k.current)) (k.distinct user)
