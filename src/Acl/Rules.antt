-- ===== src/Acl/Rules.antt =====
-- core/acl.py: which line of the file sets a rule, and which line is a user's last.
use sim_bridge.Prelude.{
  Text, codes, text_Comparable, is_empty, starts_with, strip, true, false, ◌||◌, List, [], ◌∷◌,
  ◌++◌, Option, none, some, keep_if, contains, contains_iff, Member, Member-keep_if, All, ◌==◌,
  if◌then◌else◌, ◌≡◌, ◌≢◌, ◌↔◌, ◌⊎◌, inl, inr, refl, sym, ap, ◌∙◌, arith, Bool-cases, Option-cases,
}
use mathlib.Core.List.{cons≢nil}
use sim_bridge.Acl.Lines.{
  UserId, user_eq, user_eq_iff, user_Comparable, words, split_words, parse_int,
}
use sim_bridge.Acl.Words.{Splits, words-Splits, Splits-words}
use sim_bridge.Acl.{parse_line, known_rights, rule_of, all_rights}

abbrev pub IsRight : Text → Type 0
IsRight right =
    Member right (codes "in_sms" ∷ codes "in_call" ∷ codes "out_sms" ∷ codes "out_call" ∷ [])

-- The line is no comment, its first word is the user's number, and these are the words after it.
abbrev pub RuleOf : UserId → (raw : Text) → (ws : List Text) → Type 0
RuleOf uid raw ws =
    (id : Text) × Splits (strip raw) (id ∷ ws)
    × (ws ≢ [])
    × (starts_with (strip raw) (codes "#") ≡ false)
    × (parse_int id ≡ some uid)

abbrev pub NoRule : UserId → Text → Type 0
NoRule uid raw = (ws : List Text) → ¬ RuleOf uid raw ws

-- The right stands on the last line that is a rule of the user.
abbrev pub OnLastLine : UserId → (right : Text) → (lines : List Text) → Type 0
OnLastLine uid right lines =
    (before : List Text) × (raw : Text) × (after : List Text) × (ws : List Text) × (lines
      ≡ before ++ raw ∷ after)
    × RuleOf uid raw ws
    × Member right ws
    × All (NoRule uid) after

nonempty_if-words : (line : Text) → words line ≢ [] → is_empty line ≡ false
unfolding words split_words
nonempty_if-words [] n = absurd (n refl)
nonempty_if-words (c ∷ line) n = refl

rule_of-some :
    (id : Text) (ws : List Text) (uid : UserId)
    → ws ≢ []
    → parse_int id ≡ some uid
    → rule_of (id ∷ ws) ≡ some (uid, known_rights ws)
rule_of-some id [] uid n h = absurd (n refl)
rule_of-some id (right ∷ rights) uid n h = rw (h, rule_of) refl

RuleOf-parse_line :
    (uid : UserId) (raw : Text) (ws : List Text)
    → RuleOf uid raw ws
    → parse_line raw ≡ some (uid, known_rights ws)
unfolding parse_line
RuleOf-parse_line uid raw ws (id, sp, n, comment, h) =
    let split = Splits-words sp in
    let full = nonempty_if-words (strip raw) (λ e. cons≢nil (sym split ∙ e)) in
    rw (full, comment, split) (rule_of-some id ws uid n h)

rule_of-RuleOf :
    (uid : UserId) (raw : Text) (rights ws : List Text)
    → Splits (strip raw) ws
    → starts_with (strip raw) (codes "#") ≡ false
    → rule_of ws ≡ some (uid, rights)
    → (vs : List Text) × RuleOf uid raw vs
rule_of-RuleOf uid raw rights [] sp c h = absurd (ground (arith, h))
rule_of-RuleOf uid raw rights (id ∷ []) sp c h = absurd (ground (arith, h))
rule_of-RuleOf uid raw rights (id ∷ right ∷ ws) sp c h =
    (right ∷ ws, (id, sp, cons≢nil, c, ground (arith, h)))

parse_line-RuleOf :
    (uid : UserId) (raw : Text) (rights : List Text)
    → parse_line raw ≡ some (uid, rights)
    → (ws : List Text) × RuleOf uid raw ws
unfolding parse_line
parse_line-RuleOf uid raw rights h =
    let line = strip raw in
    elim (Bool-cases (is_empty line || starts_with line (codes "#"))) [
      | inl e ↦ absurd (ground (arith, e, h))
      | inr e ↦
          rule_of-RuleOf uid raw rights (words line) (words-Splits line) (ground (arith, e))
            (ground (arith, e, h))
    ]

abbrev pub rights_by : UserId → List Text → Option (UserId × List Text) → List Text
rights_by uid rights none = rights
rights_by uid rights (some (other, found)) = if other == uid then found else rights

-- The rights of the user after a line.
abbrev pub rights_after : UserId → List Text → (raw : Text) → List Text
rights_after uid rights raw = rights_by uid rights (parse_line raw)

-- A line sets the rights of its user, and those of no other.
pub line-cases :
    (uid : UserId) (raw : Text)
    → ((ws : List Text) × RuleOf uid raw ws)
      ⊎ (NoRule uid raw × ((rights : List Text) → rights_after uid rights raw ≡ rights))
line-cases uid raw = elim (Option-cases (parse_line raw)) [
  | inl e ↦ inr (
    λ ws r. ground (arith, e, RuleOf-parse_line uid raw ws r),
    λ rights. rw (e, rights_after) refl,
  )
  | inr ((other, found), e) ↦ elim (Bool-cases (user_eq other uid)) [
    | inl f ↦ inl (
        parse_line-RuleOf uid raw found
          (e ∙ ap (λ u. some (u, found)) ((user_eq_iff other uid).0 f)))
    | inr f ↦ inr (
      λ ws r. ground (arith, e, f, RuleOf-parse_line uid raw ws r, user_eq_iff other uid),
      λ rights. rw (e, f, rights_after) refl,
    )
  ]
]

pub RuleOf-rights_after :
    (uid : UserId) (rights : List Text) (raw : Text) (ws : List Text)
    → RuleOf uid raw ws
    → rights_after uid rights raw ≡ known_rights ws
RuleOf-rights_after uid rights raw ws r =
    ap (λ rule. rights_by uid rights rule) (RuleOf-parse_line uid raw ws r)
    ∙ ground (arith, user_eq_iff uid uid)

-- Without a rule of the user the rights stay.
pub NoRule-rights_after :
    (uid : UserId) (rights : List Text) (raw : Text)
    → NoRule uid raw
    → rights_after uid rights raw ≡ rights
NoRule-rights_after uid rights raw n = elim (line-cases uid raw) [
  | inl (ws, r) ↦ absurd (n ws r)
  | inr (m, kept) ↦ kept rights
]

pub contains-known_rights :
    (right : Text) (ws : List Text)
    → (contains right (known_rights ws) ≡ true)
      ↔ (Member right ws × (contains right all_rights ≡ true))
unfolding known_rights
contains-known_rights right ws =
    let kept = Member-keep_if (λ r. contains r all_rights) right ws in
    let listed = contains_iff right (keep_if (λ r. contains r all_rights) ws) in
    (λ h. kept.0 (listed.0 h), λ m. listed.1 (kept.1 m))
