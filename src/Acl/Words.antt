-- ===== src/Acl/Words.antt =====
-- core/acl.py: the words of a line, as `str.split` finds them, by what they are.
use sim_bridge.Prelude.{
  ℕ, Text, is_space, true, false, List, [], ◌∷◌, ◌++◌, All, ◌≡◌, ◌≢◌, refl, sym, subst, ap, ◌∙◌,
  arith, Bool-cases, inl, inr,
}
use mathlib.Core.List.{cons≢nil}
use sim_bridge.Acl.Lines.{split_words, words, push}

-- The text after a word.
abbrev pub StartsBlank : Text → Type 0
StartsBlank [] = Unit
StartsBlank (c ∷ s) = is_space c ≡ true

-- The words of a text: the longest pieces without a space.
pub data Splits : Text → List Text → Type 0 where
  blank : (s : Text) → All (λ c. is_space c ≡ true) s → Splits s []
  word :
      (before w : Text) {rest : Text} {ws : List Text}
      → All (λ c. is_space c ≡ true) before
      → w ≢ []
      → All (λ c. is_space c ≡ false) w
      → StartsBlank rest
      → Splits rest ws
      → Splits (before ++ (w ++ rest)) (w ∷ ws)

add_blank :
    {s : Text} {ws : List Text} (c : ℕ) → is_space c ≡ true → Splits s ws → Splits (c ∷ s) ws
add_blank c h (blank s a) = blank (c ∷ s) (h, a)
add_blank c h (word before w a n i b sp) = word (c ∷ before) w (h, a) n i b sp

-- A word and the words after it.
record Begun (s w : Text) (ws : List Text) : Type 0 where
  rest : Text
  whole : s ≡ w ++ rest
  ink : All (λ c. is_space c ≡ false) w
  ends : StartsBlank rest
  others : Splits rest ws

Begun-Splits : (s w : Text) (ws : List Text) → Begun s w ws → Splits s (push w ws)
Begun-Splits s [] ws b = subst (λ t. Splits t ws) (sym b.whole) b.others
Begun-Splits s (c ∷ w) ws b =
    subst (λ t. Splits t ((c ∷ w) ∷ ws)) (sym b.whole)
      (word [] (c ∷ w) tt cons≢nil b.ink b.ends b.others)

split_words-blank : (c : ℕ) (s : Text) → is_space c ≡ true → split_words (c ∷ s) ≡ ([], words s)
unfolding split_words words
split_words-blank c s h = ground (arith, h)

split_words-ink :
    (c : ℕ) (s : Text)
    → is_space c ≡ false
    → split_words (c ∷ s) ≡ (c ∷ (split_words s).0, (split_words s).1)
unfolding split_words
split_words-ink c s h = ground (arith, h)

split_words-Begun : (s : Text) → Begun s (split_words s).0 (split_words s).1
unfolding split_words words
split_words-Begun [] = record { rest = []; whole = refl; ink = tt; ends = tt; others = blank [] tt }
split_words-Begun (c ∷ s) =
    let b = split_words-Begun s in
    elim (Bool-cases (is_space c)) [
      | inl e ↦
          subst (λ p. Begun (c ∷ s) p.0 p.1) (sym (split_words-blank c s e))
            (record {
              rest = c ∷ s;
              whole = refl;
              ink = tt;
              ends = e;
              others = add_blank c e (Begun-Splits s (split_words s).0 (split_words s).1 b);
            })
      | inr e ↦
          subst (λ p. Begun (c ∷ s) p.0 p.1) (sym (split_words-ink c s e))
            (record {
              rest = b.rest;
              whole = ap (λ t. c ∷ t) b.whole;
              ink = (e, b.ink);
              ends = b.ends;
              others = b.others;
            })
    ]

pub words-Splits : (s : Text) → Splits s (words s)
unfolding words
words-Splits s = Begun-Splits s (split_words s).0 (split_words s).1 (split_words-Begun s)

words-before :
    (before s : Text) → All (λ c. is_space c ≡ true) before → words (before ++ s) ≡ words s
unfolding words
words-before [] s a = refl
words-before (c ∷ before) s a =
    ap (λ p. push p.0 p.1) (split_words-blank c (before ++ s) a.0) ∙ words-before before s a.1

words-blank : (s : Text) → All (λ c. is_space c ≡ true) s → words s ≡ []
unfolding words split_words
words-blank [] a = refl
words-blank (c ∷ s) a = ap (λ p. push p.0 p.1) (split_words-blank c s a.0) ∙ words-blank s a.1

split_words-word :
    (w rest : Text)
    → All (λ c. is_space c ≡ false) w
    → StartsBlank rest
    → split_words (w ++ rest) ≡ (w, words rest)
unfolding words split_words
split_words-word [] [] a b = refl
split_words-word [] (c ∷ s) a b =
    split_words-blank c s b ∙ ap (λ ws. ([], ws)) (sym (words-before (c ∷ []) s (b, tt)))
split_words-word (c ∷ w) rest a b =
    split_words-ink c (w ++ rest) a.0 ∙ ap (λ p. (c ∷ p.0, p.1)) (split_words-word w rest a.1 b)

push-nonempty : (w : Text) (ws : List Text) → w ≢ [] → push w ws ≡ w ∷ ws
push-nonempty [] ws n = absurd (n refl)
push-nonempty (c ∷ w) ws n = refl

pub Splits-words : {s : Text} {ws : List Text} → Splits s ws → words s ≡ ws
unfolding words
Splits-words (blank s a) = words-blank s a
Splits-words (word before w {rest} {ws} a n i b sp) =
    words-before before (w ++ rest) a
    ∙ ap (λ p. push p.0 p.1) (split_words-word w rest i b)
    ∙ push-nonempty w (words rest) n
    ∙ ap (λ vs. w ∷ vs) (Splits-words sp)
