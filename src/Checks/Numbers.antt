-- ===== src/Checks/Numbers.antt =====
-- core/phone.py, core/blacklist.py and core/acl.py on small inputs.
use sim_bridge.Prelude.{
  Text, codes, text_eq, text_Comparable, is_decimal, is_space, decimal_value, strip, left_strip,
  right_strip, starts_with, contains, true, false, not, ◌||◌, ◌==◌, List, [], ◌∷◌, none, some, ◌≡◌,
  ◌↔◌, refl, arith,
}
use sim_bridge.Dict.{get, put}
use sim_bridge.Phone.{
  Destination, normalize_e164, normalized, parse_destination, destination_of, led_by, digits_to_end,
  digit_run, after_digits,
}
use sim_bridge.Phone.Normal.{Digits}
use sim_bridge.Phone.Strict.{Form, parse_destination_iff}
use sim_bridge.Blacklist.{
  load_lines, File, Stamp, returned, new_manager, maybe_reload, block, block_number, write,
}
use sim_bridge.Blacklist.Truth.{in_file, Event, blocks, edits, run, step, EditsShow}
use sim_bridge.Acl.{check, parse_line, known_rights}
use sim_bridge.Acl
use sim_bridge.Acl.Lines.{pos, words, split_words, parse_int, parse_nat, parse_digits, user_eq}
use sim_bridge.Acl.Rules.{IsRight, OnLastLine}
use sim_bridge.Acl.Rights
use sim_bridge.Blacklist.Contract.{block_exact}

abbrev mobile : Text
mobile = codes "+79261234555"

abbrev punctuated : Text
punctuated = codes " 8 (926) 123-45-55"

punctuated_normal : normalize_e164 punctuated ≡ some mobile
unfolding normalize_e164 normalized left_strip right_strip starts_with is_decimal is_space contains
punctuated_normal = refl

too_short : normalize_e164 (codes "989") ≡ none
unfolding normalize_e164 normalized left_strip right_strip is_decimal is_space contains
too_short = refl

abbrev ten_digits : Text
ten_digits = codes "9261234555"

ten_digits-Digits : Digits ten_digits
unfolding Digits is_decimal
ten_digits-Digits = ground arith

abbrev to_mobile : Destination
to_mobile = record { number = mobile; is_internal = false }

eight_prefixed : parse_destination (some (codes "89261234555")) ≡ some to_mobile
unfolding destination_of led_by digits_to_end digit_run after_digits left_strip right_strip
    is_decimal is_space contains
eight_prefixed = refl

bare_seven : parse_destination (some (codes "79261234555")) ≡ none
unfolding destination_of led_by digits_to_end digit_run after_digits left_strip right_strip
    is_decimal is_space contains
bare_seven = refl

parse_destination_iff_example :
    (parse_destination (some (codes "89261234555")) ≡ some to_mobile)
    ↔ Form (strip (codes "89261234555")) to_mobile
parse_destination_iff_example = parse_destination_iff (some (codes "89261234555")) to_mobile

abbrev noon : Stamp
noon = record { text = codes "12:00"; modified = 7 }

-- A number is blocked, and then a file without it comes to the path by hand.
abbrev other_file : File
other_file = record { lines = codes "# by hand" ∷ codes "8 926 123-45-55" ∷ []; modified = 9 }

abbrev history : List Event
history = blocks (codes "89260000000") noon ∷ edits (some other_file) ∷ []

written_at : (step (blocks (codes "89260000000") noon) (new_manager none)).mtime ≡ 7
unfolding step block block_number maybe_reload write contains normalize_e164 normalized left_strip
    right_strip starts_with is_decimal is_space
written_at = refl

history_shown : EditsShow history (new_manager none)
unfolding EditsShow
history_shown = (tt, (ground (arith, written_at), tt))

block_exact_example :
    ((block punctuated (some noon) (run history (new_manager none))).1
      ≡ returned (not (in_file mobile (run history (new_manager none)).file)))
    × ((m : Text)
        → in_file m (block punctuated (some noon) (run history (new_manager none))).0.file
          ≡ (mobile == m || in_file m (run history (new_manager none)).file))
block_exact_example =
    block_exact none history history_shown punctuated mobile punctuated_normal noon

abbrev unlisted : Text
unlisted = codes "+79261112233"

abbrev guests : Acl.File
guests = record {
  lines =
      codes "# guests"
      ∷ codes "77 in_sms"
      ∷ codes "-5 out_call sudo"
      ∷ codes "77 out_sms in_call"
      ∷ [];
  modified = 3;
}

abbrev visits : List Rights.Event
visits = Rights.checks (pos 77) (codes "in_sms") ∷ Rights.edits (some guests) ∷ []

visits_shown : Rights.EditsShow visits Rights.start
unfolding Rights.EditsShow Rights.step check Acl.reload
visits_shown = (tt, (unfold contains text_eq get in ground arith, tt))

old_line_forgotten : (check (pos 77) (codes "in_sms") (Rights.run visits Rights.start)).1 ≡ false
unfolding Rights.run Rights.step check Acl.reload Acl.load_lines get put parse_line words
    split_words parse_int parse_nat parse_digits known_rights left_strip right_strip is_space
    is_decimal decimal_value starts_with contains text_eq user_eq
old_line_forgotten = refl

check_exact_example :
    ((check (pos 77) (codes "out_sms") (Rights.run visits Rights.start)).1 ≡ true)
    ↔ (IsRight (codes "out_sms") × OnLastLine (pos 77) (codes "out_sms") guests.lines)
check_exact_example =
    Rights.check_exact visits visits_shown guests (unfold Rights.run Rights.step in refl) (pos 77)
      (codes "out_sms")
