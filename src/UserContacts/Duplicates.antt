-- ===== src/UserContacts/Duplicates.antt =====
-- core/user_contacts.py: a phone book has each number and each name once.
use sim_bridge.Prelude.{
  ℕ, leb, Text, text_Comparable, is_empty, Bool, true, false, ◌||◌, List, [], ◌∷◌, ◌++◌, Option,
  none, some, or_else, keep_if, if◌then◌else◌, ◌==◌, ◌≡◌, refl, sym, subst, arith, All, All-append,
  inl, inr, Option-cases,
}
use sim_bridge.Dict.{Dict, get}
use sim_bridge.Dict.Laws.{get-put, get-remove}
use sim_bridge.UserContacts.{
  Entry, File, UserContactsStore, reload, entries_of, first_of, tidy, stripped, set_entries,
  replace_for,
}
use sim_bridge.UserContacts.Book.{canonical, same_name, same_number, add_entry}

-- An entry as `add_unique` stores it: nothing to strip, nothing empty, and a canonical number.
unfoldable pub IsTidy : Entry → Type 0
IsTidy e =
    (stripped e ≡ e)
    × (is_empty e.name ≡ false)
    × (is_empty e.number ≡ false)
    × (canonical e.number ≡ e.number)

tidy-All : (es : List Entry) → All IsTidy es → tidy es ≡ es
unfolding tidy IsTidy
tidy-All [] h = refl
tidy-All (e ∷ es) h = ground (arith, tidy-All es h.1)

get-set_entries :
    (user other : Text) (es : List Entry) (d : Dict Text (List Entry))
    → or_else (get other (set_entries user es d)) []
      ≡ (if user == other then es else or_else (get other d) [])
get-set_entries user other [] d = ground (arith, get-remove user other d)
get-set_entries user other (e ∷ es) d = ground (arith, get-put user other (e ∷ es) d)

-- The file that is there is not newer than what was read or written last.
abbrev pub is_current : Option File → ℕ → Bool
is_current none mtime = true
is_current (some f) mtime = leb f.modified mtime

pub reload-current : (s : UserContactsStore) → is_current s.file s.mtime ≡ true → reload s ≡ s
unfolding reload
reload-current s h = ground arith

module _ (user : Text) (es : List Entry) (stamp : Option ℕ) (s : UserContactsStore) where
  replace_for-current :
      is_current s.file s.mtime ≡ true
      → is_current (replace_for user es stamp s).file (replace_for user es stamp s).mtime ≡ true
  unfolding replace_for
  replace_for-current h = ground arith

pub replace_for-entries :
    (user other : Text) (es : List Entry) (stamp : Option ℕ) (s : UserContactsStore)
    → All IsTidy es
    → entries_of other (replace_for user es stamp s)
      ≡ (if user == other then es else entries_of other s)
unfolding replace_for
replace_for-entries user other es none s t =
    ground (arith, tidy-All es t, get-set_entries user other (tidy es) s.data_of)
replace_for-entries user other es (some stamp) s t =
    ground (arith, tidy-All es t, get-set_entries user other (tidy es) s.data_of)

module _ (casefold : Text → Text) where
  -- The two have a name or a number in common.
  abbrev pub clash : Entry → Entry → Bool
  clash e f = same_number casefold (canonical f.number) e || same_name casefold f.name e

  abbrev pub Distinct : List Entry → Type 0
  Distinct [] = Unit
  Distinct (e ∷ es) = All (λ f. clash e f ≡ false) es × Distinct es

  Distinct-snoc :
      (es : List Entry) (new : Entry)
      → Distinct es
      → All (λ e. clash e new ≡ false) es
      → Distinct (es ++ new ∷ [])
  Distinct-snoc [] new h k = (tt, tt)
  Distinct-snoc (e ∷ es) new h k = (
    All-append (λ f. clash e f ≡ false) es (new ∷ []) h.0 (k.0, tt),
    Distinct-snoc es new h.1 k.1,
  )

  pub All-keep_if :
      (P : Entry → Type 0) (p : Entry → Bool) (es : List Entry) → All P es → All P (keep_if p es)
  All-keep_if P p [] h = tt
  All-keep_if P p (e ∷ es) h = ground (arith, All-keep_if P p es h.1)

  pub Distinct-keep_if :
      (p : Entry → Bool) (es : List Entry) → Distinct es → Distinct (keep_if p es)
  Distinct-keep_if p [] h = tt
  Distinct-keep_if p (e ∷ es) h =
      ground (arith, All-keep_if (λ f. clash e f ≡ false) p es h.0, Distinct-keep_if p es h.1)

  choose :
      (P : List Entry → Type 0) (b : Bool) {es fs : List Entry}
      → P es
      → P fs
      → P (if b then es else fs)
  choose P true p q = p
  choose P false p q = q

  pub none_first :
      (p : Entry → Bool) (es : List Entry) → first_of p es ≡ none → All (λ e. p e ≡ false) es
  none_first p [] h = tt
  none_first p (e ∷ es) h = ground (arith, none_first p es)

  -- What `add_unique` has looked for is no clash.
  no_clash :
      (name norm : Text) (es : List Entry)
      → canonical norm ≡ norm
      → first_of (same_number casefold norm) es ≡ none
      → first_of (same_name casefold name) es ≡ none
      → All (λ e. clash e (record { name = name; number = norm }) ≡ false) es
  no_clash name norm [] c h k = tt
  no_clash name norm (e ∷ es) c h k =
      (ground (arith, c), no_clash name norm es c (ground arith) (ground arith))

  -- What every operation keeps: the file is not newer than the memory, and every book is without
  -- duplicates and has entries of the stored form only.
  pub record Kept (s : UserContactsStore) : Type 0 where
    pub current : is_current s.file s.mtime ≡ true
    pub distinct : (user : Text) → Distinct (entries_of user s)
    pub is_tidy : (user : Text) → All IsTidy (entries_of user s)

  pub replace_for-Kept :
      (user : Text) (es : List Entry) (stamp : Option ℕ) (s : UserContactsStore)
      → Kept s
      → Distinct es
      → All IsTidy es
      → Kept (replace_for user es stamp s)
  replace_for-Kept user es stamp s k d t = record {
    current = replace_for-current user es stamp s k.current;
    distinct = λ u.
        subst Distinct (sym (replace_for-entries user u es stamp s t))
          (choose Distinct (user == u) d (k.distinct u));
    is_tidy = λ u.
        subst (All IsTidy) (sym (replace_for-entries user u es stamp s t))
          (choose (All IsTidy) (user == u) t (k.is_tidy u));
  }

  pub add_entry-Kept :
      (user name norm : Text) (stamp : Option ℕ) (s : UserContactsStore)
      → canonical norm ≡ norm
      → IsTidy (record { name = name; number = norm })
      → Kept s
      → Kept (add_entry casefold user name norm stamp s).0
  unfolding add_entry
  add_entry-Kept user name norm stamp s c t k =
      elim (Option-cases (first_of (same_number casefold norm) (entries_of user s))) [
        | inr (e, found) ↦ subst Kept (ground (arith, found)) k
        | inl no_number ↦
            elim (Option-cases (first_of (same_name casefold name) (entries_of user s))) [
              | inr (e, found) ↦ subst Kept (ground (arith, no_number, found)) k
              | inl no_person ↦
                  let new : Entry = record { name = name; number = norm } in
                  subst Kept (ground (arith, no_number, no_person)) (
                    replace_for-Kept user (entries_of user s ++ new ∷ []) stamp s k
                      (Distinct-snoc (entries_of user s) new (k.distinct user)
                        (no_clash name norm (entries_of user s) c no_number no_person))
                      (All-append IsTidy (entries_of user s) (new ∷ []) (k.is_tidy user) (t, tt)))
            ]
      ]
