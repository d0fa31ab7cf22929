-- ===== src/Agent/Ami/Framing.antt =====
-- agent/ami_client.py, `_send_action` and `_read_response`: what is written is read as the same fields.
use sim_bridge.Prelude.{
  Text, nat_eq, strip, true, false, List, [], ◌∷◌, ◌++◌, none, some, ◌≡◌, refl, sym, ap, ◌∙◌, arith,
  any_of, All, contains, text_Comparable, nat_Comparable, text_eq, text_eq_iff, append-nil,
  append_assoc,
}
use mathlib.Core.Option
use sim_bridge.Dict.Laws.{get-put}
use sim_bridge.Dict.{get, put, keys, values}
use sim_bridge.Dict.Counts.{Unique}
use sim_bridge.Agent.Ami.{
  Fields, has_newline, header_line, render, written, send_action, Arrival, line, message,
  ends_message, read_headers,
}
use sim_bridge.Agent.Ami.Stripped.{add_header-header_line}

-- The lines of a text that arrives, as `readline` gives them, after the line that was begun. Where the
-- text ends there is silence.
pub arrivals : (begun : Text) → Text → List Arrival
arrivals begun [] = []
arrivals begun (c ∷ s) = elim (nat_eq c 10) [
  | true ↦ line (begun ++ c ∷ []) ∷ arrivals [] s
  | false ↦ arrivals (begun ++ c ∷ []) s
]

-- A key without a newline, a colon, or blanks around it.
pub record IsKey (k : Text) : Type 0 where
  pub one_line : has_newline k ≡ false
  pub no_colon : contains 58 k ≡ false
  pub stripped : strip k ≡ k

arrivals-append :
    (begun s more : Text)
    → has_newline s ≡ false
    → arrivals begun (s ++ more) ≡ arrivals (begun ++ s) more
unfolding arrivals
arrivals-append begun [] more h = ap (λ t. arrivals t more) (sym (append-nil begun))
arrivals-append begun (c ∷ s) more h =
    let apart : nat_eq c 10 ≡ false = ground (arith, h) in
    rw (apart, arrivals)
      (arrivals-append (begun ++ c ∷ []) s more (ground (arith, h))
        ∙ ap (λ t. arrivals t more) (append_assoc begun (c ∷ []) s))

header_line_pieces :
    (k v : Text) → ((((k ++ 58 ∷ []) ++ 32 ∷ []) ++ v) ++ 13 ∷ []) ++ 10 ∷ [] ≡ header_line (k, v)
header_line_pieces k v = simp append_assoc refl

arrivals-header_line :
    (k v more : Text)
    → has_newline k ≡ false
    → has_newline v ≡ false
    → arrivals [] (header_line (k, v) ++ more) ≡ line (header_line (k, v)) ∷ arrivals [] more
unfolding arrivals
arrivals-header_line k v more h i =
    ap (arrivals []) (
      append_assoc k (58 ∷ 32 ∷ (v ++ 13 ∷ 10 ∷ [])) more
      ∙ ap (λ t. k ++ 58 ∷ 32 ∷ t) (append_assoc v (13 ∷ 10 ∷ []) more))
    ∙ arrivals-append [] k (58 ∷ 32 ∷ (v ++ 13 ∷ 10 ∷ more)) h
    ∙ arrivals-append ((k ++ 58 ∷ []) ++ 32 ∷ []) v (13 ∷ 10 ∷ more) i
    ∙ ap (λ t. line t ∷ arrivals [] more) (header_line_pieces k v)

ends_message-header_line :
    (k v : Text) → has_newline k ≡ false → ends_message (header_line (k, v)) ≡ false
unfolding text_eq
ends_message-header_line [] v h = refl
ends_message-header_line (c ∷ k) v h = ground (arith, h)

-- The fields after each other, as the headers of one message.
pub stored : Fields → Fields → Fields
stored [] headers = headers
stored ((k, v) ∷ fields) headers = stored fields (put k (strip v) headers)

read_headers-render :
    (fields headers : Fields) (more : Text)
    → All IsKey (keys fields)
    → any_of has_newline (values fields) ≡ false
    → read_headers (arrivals [] (render fields ++ more)) headers
      ≡ message (stored fields headers) (arrivals [] more)
unfolding stored read_headers arrivals render text_eq
read_headers-render [] headers more ks h = refl
read_headers-render ((k, v) ∷ fields) headers more ks h =
    ap (λ t. read_headers (arrivals [] t) headers)
      (append_assoc (header_line (k, v)) (render fields) more)
    ∙ ap (λ a. read_headers a headers)
        (arrivals-header_line k v (render fields ++ more) ks.0.one_line (ground (arith, h)))
    ∙ rw (ends_message-header_line k v ks.0.one_line, read_headers)
        (ap (read_headers (arrivals [] (render fields ++ more))) (
            add_header-header_line k v headers ks.0.no_colon
            ∙ ap (λ t. put t (strip v) headers) ks.0.stripped)
          ∙ read_headers-render fields (put k (strip v) headers) more ks.1 (ground (arith, h)))

pub get-stored :
    (j : Text) (fields headers : Fields)
    → Unique fields
    → get j (stored fields headers)
      ≡ (elim (get j fields) [ none ↦ get j headers | some v ↦ some (strip v) ])
unfolding stored get
get-stored j [] headers u = refl
get-stored j ((k, v) ∷ fields) headers u = ground (
  arith,
  get-stored j fields (put k (strip v) headers) u.1,
  get-put k j (strip v) headers,
  u.0,
  text_eq_iff k j,
)

send_action-written :
    (fields : Fields) (t : Text)
    → send_action true fields ≡ written t
    → (any_of has_newline (values fields) ≡ false) × (t ≡ render fields)
unfolding send_action
send_action-written fields t h = ground (arith, h)

pub read_headers-stored :
    (fields : Fields) (t more : Text)
    → All IsKey (keys fields)
    → send_action true fields ≡ written t
    → read_headers (arrivals [] (t ++ more)) [] ≡ message (stored fields []) (arrivals [] more)
read_headers-stored fields t more ks h =
    let (clean, same) = send_action-written fields t h in
    ap (λ s. read_headers (arrivals [] (s ++ more)) []) same
    ∙ read_headers-render fields [] more ks clean

-- If the keys of an action are distinct and have no newline, no colon and no blanks around them,
-- and _send_action writes it, then _read_response reads the written text as one message that has
-- for each key the value without the blanks around it, and for every other key none, and leaves
-- the text that follows.
pub read_headers-send_action :
    (fields : Fields) (t more j : Text)
    → All IsKey (keys fields)
    → Unique fields
    → send_action true fields ≡ written t
    → (headers : Fields) × ((read_headers (arrivals [] (t ++ more)) []
          ≡ message headers (arrivals [] more))
        × (get j headers ≡ Option.map strip (get j fields)))
unfolding get
read_headers-send_action fields t more j ks u h = (
  stored fields [],
  (read_headers-stored fields t more ks h, ground (arith, get-stored j fields [] u)),
)
