-- ===== src/Blacklist/Loading.antt =====
-- core/blacklist.py: what `_load` reads of the lines, and of those that `_write` has written.
use sim_bridge.Prelude.{
  Text, codes, text_Comparable, text_le, is_empty, starts_with, strip, left_strip, right_strip,
  Bool, false, ◌||◌, List, [], ◌∷◌, ◌++◌, Option, none, some, contains, contains-add, any_of,
  sort_by, Member, Member-sort_by, All, if◌then◌else◌, ◌==◌, ◌≡◌, ◌↔◌, refl, arith, inl, inr,
  is_space, Bool-cases, Option-cases, All-add, contains_iff, subst,
}
use sim_bridge.Phone.{normalize_e164}
use sim_bridge.Phone.Normal.{IsE164, strip_plus, IsE164-normal, normalize_e164-IsE164}
use sim_bridge.Blacklist.{add_number, load_line, load_lines, file_lines}

abbrev is_it : Text → Option Text → Bool
is_it n none = false
is_it n (some m) = m == n

-- The line puts the number on the list.
unfoldable pub names : Text → Text → Bool
names n line =
    let stripped = strip line in
    if is_empty stripped || starts_with stripped (codes "#")
    then false
    else is_it n (normalize_e164 stripped)

contains-load_line :
    (n line : Text) (numbers : List Text)
    → contains n (load_line line numbers) ≡ (names n line || contains n numbers)
unfolding load_line names
contains-load_line n line numbers =
    elim (normalize_e164 (strip line))
      as (λ o.
        contains n (
          if is_empty (strip line) || starts_with (strip line) (codes "#")
          then numbers
          else add_number o numbers)
        ≡ ((if is_empty (strip line) || starts_with (strip line) (codes "#")
              then false
              else is_it n o)
            || contains n numbers)) [
              | none ↦ ground arith
              | some m ↦ ground (arith, contains-add m n numbers)
            ]

-- _load finds exactly the numbers that some line names.
pub contains-load_lines :
    (n : Text) (lines numbers : List Text)
    → contains n (load_lines lines numbers) ≡ (any_of (names n) lines || contains n numbers)
unfolding load_lines
contains-load_lines n [] numbers = refl
contains-load_lines n (line ∷ lines) numbers =
    ground (
      arith,
      contains-load_lines n lines (load_line line numbers),
      contains-load_line n line numbers,
    )

load_line-E164 :
    (line : Text) (numbers : List Text) → All IsE164 numbers → All IsE164 (load_line line numbers)
unfolding load_line
load_line-E164 line numbers a = elim (Option-cases (normalize_e164 (strip line))) [
  | inl e ↦ ground arith
  | inr (n, e) ↦ ground (arith, All-add IsE164 n numbers (normalize_e164-IsE164 (strip line) n e) a)
]

-- Every number that `_load` collects is in its normal form.
pub load_lines-E164 :
    (lines numbers : List Text) → All IsE164 numbers → All IsE164 (load_lines lines numbers)
unfolding load_lines
load_lines-E164 [] numbers a = a
load_lines-E164 (line ∷ lines) numbers a =
    load_lines-E164 lines (load_line line numbers) (load_line-E164 line numbers a)

names-E164 : (n m : Text) → IsE164 m → names n m ≡ (m == n)
unfolding names IsE164 starts_with
names-E164 n m (ds, e, d, l, h) = ground (arith, strip_plus ds d, IsE164-normal m (ds, e, d, l, h))

any_names :
    (n : Text) (numbers : List Text)
    → ((m : Text) → Member m numbers → IsE164 m)
    → any_of (names n) numbers ≡ contains n numbers
unfolding contains
any_names n [] a = refl
any_names n (m ∷ numbers) a =
    ground (arith, names-E164 n m (a m (inl refl)), any_names n numbers (λ k h. a k (inr h)))

All-Member : (numbers : List Text) (m : Text) → All IsE164 numbers → Member m numbers → IsE164 m
All-Member [] m a h = absurd h
All-Member (k ∷ numbers) m a (inl e) = subst IsE164 e a.0
All-Member (k ∷ numbers) m a (inr h) = All-Member numbers m a.1 h

same_members :
    (n : Text) (xs ys : List Text) → (Member n xs ↔ Member n ys) → contains n xs ≡ contains n ys
same_members n xs ys h = ground (
  arith,
  contains_iff n xs,
  contains_iff n ys,
  Bool-cases (contains n xs),
  Bool-cases (contains n ys),
)

hash_not_space : is_space 35 ≡ false
unfolding is_space contains
hash_not_space = refl

-- A comment names no number.
comment : (n text : Text) → names n (35 ∷ text) ≡ false
unfolding names left_strip right_strip starts_with
comment n text = ground (arith, hash_not_space)

-- Loading what _write has written gives the numbers that were written.
pub load-file_lines :
    (n text : Text) (numbers : List Text)
    → All IsE164 numbers
    → contains n (load_lines (file_lines text numbers) []) ≡ contains n numbers
unfolding file_lines contains
load-file_lines n text numbers a = ground (
  arith,
  contains-load_lines n (file_lines text numbers) [],
  comment n (codes " SimBridge blacklist — auto-generated"),
  comment n (codes " Last updated: " ++ text),
  any_names n (sort_by text_le numbers)
      (λ m h. All-Member numbers m a ((Member-sort_by text_le m numbers).0 h)),
  same_members n (sort_by text_le numbers) numbers (Member-sort_by text_le n numbers),
)
