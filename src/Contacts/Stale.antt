-- ===== src/Contacts/Stale.antt =====
-- core/contacts.py: the CSV provider answers from the file that it read last, which is read when the
-- provider is constructed and when `reload` is called.
use sim_bridge.Prelude.{
  leb, Text, text_Comparable, List, [], ◌∷◌, Option, none, some, if◌then◌else◌, ◌==◌, ◌≡◌, refl,
  subst, ◌∙◌, ap, arith,
}
use sim_bridge.Dict.{Dict, get}
use sim_bridge.Dict.Laws.{get-put}
use sim_bridge.Contacts.{
  File, CsvContactProvider, parse_line, put_contact, load_lines, reload_file, reload_if_newer,
  new_provider, reload, key_of, csv_lookup,
}

-- The name on the last line that sets one for the key, and otherwise this.
unfoldable pub last_name : Text → Option Text → List Text → Option Text
last_name key before [] = before
last_name key before (line ∷ lines) =
    last_name key
      (elim (parse_line line) [
        | none ↦ before
        | some (k, name) ↦ if k == key then some name else before
      ])
      lines

put_contact-get :
    (key : Text) (contact : Option (Text × Text)) (cache : Dict Text Text)
    → get key (put_contact contact cache) ≡ (elim contact [
      | none ↦ get key cache
      | some (k, name) ↦ if k == key then some name else get key cache
    ])
put_contact-get key none cache = refl
put_contact-get key (some (k, name)) cache = ground (arith, get-put k key name cache)

load_lines-last :
    (key : Text) (lines : List Text) (cache : Dict Text Text)
    → get key (load_lines lines cache) ≡ last_name key (get key cache) lines
unfolding load_lines last_name
load_lines-last key [] cache = refl
load_lines-last key (line ∷ lines) cache =
    load_lines-last key lines (put_contact (parse_line line) cache)
    ∙ ap (λ before. last_name key before lines) (put_contact-get key (parse_line line) cache)

-- What happens to a provider: an edit that leaves this at the path, or a call of `reload`.
pub data Event : Type 0 where
  edits : Option File → Event
  reloads : Event

unfoldable pub step : Event → CsvContactProvider → CsvContactProvider
step (edits file) p = record p { file = file }
step reloads p = reload p

unfoldable pub run : List Event → CsvContactProvider → CsvContactProvider
run [] p = p
run (e ∷ es) p = run es (step e p)

-- The file that was read last: a call of `reload` reads the one at the path, if there is one whose
-- modification time is positive.
abbrev pub read_now : Option File → List Text → List Text
read_now none lines = lines
read_now (some f) lines = if leb f.modified 0 then lines else f.lines

unfoldable pub last_read : Option File → List Text → List Event → List Text
last_read at_path lines [] = lines
last_read at_path lines (edits file ∷ es) = last_read file lines es
last_read at_path lines (reloads ∷ es) = last_read at_path (read_now at_path lines) es

abbrev Answers : CsvContactProvider → List Text → Type 0
Answers p lines = (key : Text) → get key p.cache ≡ last_name key none lines

reload_file-Answers :
    (file : Option File) (p : CsvContactProvider) (lines : List Text)
    → p.mtime ≡ 0
    → Answers p lines
    → Answers (reload_file file p) (read_now file lines)
reload_file-Answers none p lines z h = h
reload_file-Answers (some f) p lines z h =
    λ key. unfold get in ground (arith, h key, load_lines-last key f.lines [])

reload_file-file :
    (file : Option File) (p : CsvContactProvider) → (reload_file file p).file ≡ p.file
reload_file-file none p = refl
reload_file-file (some f) p = ground arith

run-Answers :
    (es : List Event) (p : CsvContactProvider) (lines : List Text)
    → Answers p lines
    → Answers (run es p) (last_read p.file lines es)
unfolding run last_read step reload reload_if_newer
run-Answers [] p lines h = h
run-Answers (edits file ∷ es) p lines h = run-Answers es (record p { file = file }) lines h
run-Answers (reloads ∷ es) p lines h =
    let fresh : CsvContactProvider = record p { mtime = 0 } in
    subst
      (λ file.
        Answers (run es (reload_file p.file fresh)) (last_read file (read_now p.file lines) es))
      (reload_file-file p.file fresh)
      (run-Answers es (reload_file p.file fresh) (read_now p.file lines)
        (reload_file-Answers p.file fresh lines refl h))

-- A lookup answers with the name on the last line for the number's key in the file that was read
-- last: at the construction or by a call of reload, whatever has been done to the file since.
pub csv_lookup-last_read :
    (file : Option File) (es : List Event) (number : Text)
    → csv_lookup number (run es (new_provider file))
      ≡ last_name (key_of number) none (last_read file (read_now file []) es)
unfolding csv_lookup reload_if_newer
csv_lookup-last_read file es number =
    let blank : CsvContactProvider = record { cache = []; mtime = 0; file = file } in
    let built : Answers (reload_file file blank) (read_now file []) =
      unfold get last_name in reload_file-Answers file blank [] refl (λ key. refl) in
    subst
      (λ at_path.
        csv_lookup number (run es (new_provider file))
        ≡ last_name (key_of number) none (last_read at_path (read_now file []) es))
      (reload_file-file file blank)
      (run-Answers es (reload_file file blank) (read_now file []) built (key_of number))
