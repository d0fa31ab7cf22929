-- ===== src/Agent/Ami/Stripped.antt =====
-- agent/ami_client.py: how `strip` and `partition` take the line of a header apart.
use sim_bridge.Prelude.{
  ℕ, Text, is_empty, is_space, left_strip, right_strip, strip, true, false, [], ◌∷◌, ◌++◌, some,
  ◌≡◌, refl, sym, ap, ◌∙◌, arith, contains, text_Comparable, nat_Comparable,
}
use sim_bridge.Dict.{put}
use sim_bridge.Phone.Strict.{right_strip_twice}
use sim_bridge.Agent.Ami.{Fields, partition_colon, add_header, header_line}

colon_not_space : is_space 58 ≡ false
unfolding is_space contains
colon_not_space = refl

return_is_space : is_space 13 ≡ true
unfolding is_space contains
return_is_space = refl

feed_is_space : is_space 10 ≡ true
unfolding is_space contains
feed_is_space = refl

blank_is_space : is_space 32 ≡ true
unfolding is_space contains
blank_is_space = refl

left_strip-colon : (k r : Text) → left_strip (k ++ 58 ∷ r) ≡ left_strip k ++ 58 ∷ r
unfolding left_strip
left_strip-colon [] r = ground (arith, colon_not_space)
left_strip-colon (c ∷ k) r = ground (arith, left_strip-colon k r)

nonempty_lem : (k r : Text) → is_empty (k ++ 58 ∷ r) ≡ false
nonempty_lem [] r = refl
nonempty_lem (c ∷ k) r = refl

right_strip-colon : (k r : Text) → right_strip (k ++ 58 ∷ r) ≡ k ++ 58 ∷ right_strip r
unfolding right_strip
right_strip-colon [] r = ground (arith, colon_not_space)
right_strip-colon (c ∷ k) r = ground (arith, nonempty_lem k (right_strip r), right_strip-colon k r)

left_strip_twice : (s : Text) → left_strip (left_strip s) ≡ left_strip s
unfolding left_strip
left_strip_twice [] = refl
left_strip_twice (c ∷ s) = ground (arith, left_strip_twice s)

left_strip-right_strip : (s : Text) → left_strip (right_strip s) ≡ right_strip (left_strip s)
unfolding left_strip right_strip
left_strip-right_strip [] = refl
left_strip-right_strip (c ∷ s) = ground (arith, left_strip-right_strip s)

right_strip-break : (v : Text) → right_strip (v ++ 13 ∷ 10 ∷ []) ≡ right_strip v
unfolding right_strip
right_strip-break [] = ground (arith, return_is_space, feed_is_space)
right_strip-break (c ∷ v) = ground (arith, right_strip-break v)

partition_colon_lem :
    (k r : Text) → contains 58 k ≡ false → partition_colon (k ++ 58 ∷ r) ≡ some (k, r)
unfolding partition_colon contains
partition_colon_lem [] r h = refl
partition_colon_lem (c ∷ k) r h = ground (arith, partition_colon_lem k r, h)

left_strip-contains : (c : ℕ) (s : Text) → contains c s ≡ false → contains c (left_strip s) ≡ false
unfolding left_strip contains
left_strip-contains c [] h = h
left_strip-contains c (d ∷ s) h = ground (arith, left_strip-contains c s, h)

strip-key : (k : Text) → strip (left_strip k) ≡ strip k
strip-key k = ap right_strip (left_strip_twice k)

-- The rest of the line after the colon.
strip-value : (v : Text) → strip (right_strip (32 ∷ (v ++ 13 ∷ 10 ∷ []))) ≡ strip v
unfolding left_strip
strip-value v =
    let line = v ++ 13 ∷ 10 ∷ [] in
    let blank : left_strip (32 ∷ line) ≡ left_strip line = ground (arith, blank_is_space) in
    ap right_strip (left_strip-right_strip (32 ∷ line) ∙ ap right_strip blank)
    ∙ right_strip_twice (left_strip line)
    ∙ sym (left_strip-right_strip line)
    ∙ ap left_strip (right_strip-break v)
    ∙ left_strip-right_strip v

partition_colon-strip :
    (k v : Text)
    → contains 58 k ≡ false
    → partition_colon (strip (header_line (k, v)))
      ≡ some (left_strip k, right_strip (32 ∷ (v ++ 13 ∷ 10 ∷ [])))
partition_colon-strip k v h =
    let rest = 32 ∷ (v ++ 13 ∷ 10 ∷ []) in
    ap (λ t. partition_colon (right_strip t)) (left_strip-colon k rest)
    ∙ ap partition_colon (right_strip-colon (left_strip k) rest)
    ∙ partition_colon_lem (left_strip k) (right_strip rest) (left_strip-contains 58 k h)

-- A written line is read as its key and value, without the blanks around them.
pub add_header-header_line :
    (k v : Text) (headers : Fields)
    → contains 58 k ≡ false
    → add_header (header_line (k, v)) headers ≡ put (strip k) (strip v) headers
unfolding add_header
add_header-header_line k v headers h =
    rw (partition_colon-strip k v h, add_header)
      (ap (λ t. put t (strip (right_strip (32 ∷ (v ++ 13 ∷ 10 ∷ [])))) headers) (strip-key k)
        ∙ ap (λ t. put (strip k) t headers) (strip-value v))
