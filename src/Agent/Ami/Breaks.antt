-- ===== src/Agent/Ami/Breaks.antt =====
-- agent/ami_client.py, `send_sms`: what the substitution of the line breaks makes of a text.
use sim_bridge.Prelude.{
  ℕ, Text, nat_eq, Bool, true, false, ◌||◌, [], ◌∷◌, ◌++◌, ◌≡◌, ◌≢◌, ◌⊎◌, inl, inr, sym, subst,
  arith, append_assoc, if◌then◌else◌, All, All-append,
}
use mathlib.Core.List.{cons≢nil}
use sim_bridge.Agent.Ami.Actions.{flatten}

-- The carriage return and the line feed.
abbrev pub IsBreak : ℕ → Type 0
IsBreak c = (c ≡ 13) ⊎ (c ≡ 10)

-- A text does not start with a line break.
abbrev pub StartsInLine : Text → Type 0
StartsInLine [] = Unit
StartsInLine (c ∷ s) = ¬ IsBreak c

-- The second text is the first, with one blank for each longest run of line breaks.
pub data Unbroken : Text → Text → Type 0 where
  nothing : Unbroken [] []
  character : (c : ℕ) {s t : Text} → (¬ IsBreak c) → Unbroken s t → Unbroken (c ∷ s) (c ∷ t)
  breaks :
      (run : Text) {s t : Text}
      → run ≢ []
      → All IsBreak run
      → StartsInLine s
      → Unbroken s t
      → Unbroken (run ++ s) (32 ∷ t)

is_break : ℕ → Bool
is_break c = nat_eq c 13 || nat_eq c 10

is_break_lem : (c : ℕ) → ((is_break c ≡ true) × IsBreak c) ⊎ ((is_break c ≡ false) × (¬ IsBreak c))
unfolding is_break
is_break_lem c = ground arith

-- A run that was begun, and the rest of the text.
abbrev AfterBreaks : Text → Type 0
AfterBreaks text =
    (run : Text) → run ≢ [] → All IsBreak run → Unbroken (run ++ text) (32 ∷ flatten true text)

flatten-break :
    (in_run : Bool) (c : ℕ) (s : Text)
    → is_break c ≡ true
    → flatten in_run (c ∷ s) ≡ (if in_run then flatten true s else 32 ∷ flatten true s)
unfolding flatten is_break
flatten-break in_run c s h = ground (arith, h)

flatten-character :
    (in_run : Bool) (c : ℕ) (s : Text)
    → is_break c ≡ false
    → flatten in_run (c ∷ s) ≡ c ∷ flatten false s
unfolding flatten is_break
flatten-character in_run c s h = ground (arith, h)

longer_run : (run : Text) (c : ℕ) → run ++ c ∷ [] ≢ []
longer_run [] c = cons≢nil
longer_run (d ∷ run) c = cons≢nil

flatten-both : (text : Text) → Unbroken text (flatten false text) × AfterBreaks text
unfolding flatten
flatten-both [] = (nothing, λ run n b. breaks run n b tt nothing)
flatten-both (c ∷ text) =
    let (plain, after) = flatten-both text in
    elim (is_break_lem c) [
      | inl (e, b) ↦ (
        subst (Unbroken (c ∷ text)) (sym (flatten-break false c text e))
            (after (c ∷ []) cons≢nil (b, tt)),
        λ run n a.
            subst (λ t. Unbroken (run ++ c ∷ text) (32 ∷ t)) (sym (flatten-break true c text e))
              (subst (λ s. Unbroken s (32 ∷ flatten true text)) (append_assoc run (c ∷ []) text)
                (after (run ++ c ∷ []) (longer_run run c)
                  (All-append IsBreak run (c ∷ []) a (b, tt)))),
      )
      | inr (e, b) ↦ (
        subst (Unbroken (c ∷ text)) (sym (flatten-character false c text e)) (character c b plain),
        λ run n a.
            subst (λ t. Unbroken (run ++ c ∷ text) (32 ∷ t)) (sym (flatten-character true c text e))
              (breaks run n a b (character c b plain)),
      )
    ]

pub flatten-Unbroken : (text : Text) → Unbroken text (flatten false text)
flatten-Unbroken text = (flatten-both text).0
