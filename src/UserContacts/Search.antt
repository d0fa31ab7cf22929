-- ===== src/UserContacts/Search.antt =====
-- core/user_contacts.py: `find_by_name` returns the entries of the best match there is.
use sim_bridge.Prelude.{
  ℕ, ◌<◌, Text, text_Comparable, starts_with, has_substring, Bool, true, false, List, Member,
  if◌then◌else◌, ◌==◌, ◌≡◌, ◌⊎◌,
}
use sim_bridge.UserContacts.{Entry}
use sim_bridge.UserContacts.Book.{tiers}

module _ (casefold : Text → Text) (q : Text) where
  -- How well a name matches: equal, a prefix, a part, or not at all.
  abbrev pub level : Entry → ℕ
  level e =
      if casefold e.name == q
      then 0
      else if starts_with (casefold e.name) q
      then 1
      else if has_substring (casefold e.name) q
      then 2
      else 3

-- A member of the first list that is not empty.
module _ (casefold : Text → Text) where
  -- The entries that pass a test are those of one level, and the others are of worse levels.
  Splits : Text → List Entry → (Entry → Bool) → ℕ → Type 0
  Splits q es p l =
      (x : Entry)
      → Member x es
      → ((p x ≡ true) × (level casefold q x ≡ l)) ⊎ ((p x ≡ false) × (l < level casefold q x))

  module _ (q : Text) (es : List Entry) (e f : Entry) where
    abbrev pub IsBest : Type 0
    IsBest =
        Member e es
        × (level casefold q e < 3)
        × (((level casefold q f ≡ level casefold q e) × Member f (tiers casefold q es))
            ⊎ (level casefold q e < level casefold q f))
