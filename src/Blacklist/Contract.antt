-- ===== src/Blacklist/Contract.antt =====
-- core/blacklist.py: what `contains`, `block` and `unblock` answer and leave in the file, stated of the
-- file alone.
use sim_bridge.Prelude.{
  Text, text_Comparable, text_eq_iff, not, ◌&&◌, ◌||◌, List, [], Option, some, contains,
  contains-add, contains-discard, add, discard, ◌==◌, ◌≡◌, arith, inl, inr, Bool-cases,
}
use sim_bridge.Phone.{normalize_e164}
use sim_bridge.Phone.Normal.{IsE164, normalize_e164-IsE164}
use sim_bridge.Blacklist.{
  File, BlacklistManager, Stamp, returned, new_manager, maybe_reload, write, block_number, block,
  unblock_number, unblock,
}
use sim_bridge.Blacklist.Truth.{
  in_file, Synced, reload-Synced, maybe_reload-Synced, maybe_reload-file, write-lem, add-E164,
  discard-E164, Event, run, EditsShow, run-Synced, well_formed,
}

module _ (n : Text) (t : Stamp) (s : BlacklistManager) (h : Synced s)
    (same : (m : Text) → contains m s.numbers ≡ in_file m s.file) where
  block_number_lem :
      IsE164 n
      → ((block_number n (some t) s).1 ≡ returned (not (in_file n s.file)))
        × ((m : Text) → in_file m (block_number n (some t) s).0.file ≡ (n == m || in_file m s.file))
  block_number_lem e = elim (Bool-cases (contains n s.numbers)) [
    | inl found ↦
        unfold block_number in
        (ground (arith, same n), λ m. ground (arith, same n, same m, text_eq_iff n m))
    | inr absent ↦
        unfold block_number in
        (
          unfold write in ground (arith, same n),
          λ m. ground (
            arith,
            same m,
            (write-lem t (record s { numbers = add n s.numbers }) (add-E164 n s e h)).1 m,
            contains-add n m s.numbers,
          ),
        )
  ]

  unblock_number_lem :
      ((unblock_number n (some t) s).1 ≡ returned (in_file n s.file))
      × ((m : Text)
          → in_file m (unblock_number n (some t) s).0.file ≡ (not (n == m) && in_file m s.file))
  unblock_number_lem = elim (Bool-cases (contains n s.numbers)) [
    | inl found ↦
        unfold unblock_number in
        (
          unfold write in ground (arith, same n),
          λ m. ground (
            arith,
            same m,
            (write-lem t (record s { numbers = discard n s.numbers }) (discard-E164 n s h)).1 m,
            contains-discard n m s.numbers,
          ),
        )
    | inr absent ↦
        unfold unblock_number in
        (ground (arith, same n), λ m. ground (arith, same n, same m, text_eq_iff n m))
  ]

module _ (file : Option File) (events : List Event)
    (shown : EditsShow events (new_manager file)) where
  abbrev state : BlacklistManager
  state = run events (new_manager file)

  state-Synced : Synced state
  state-Synced =
      run-Synced events (new_manager file) shown
        (reload-Synced (record { numbers = []; mtime = 0; file = file }))

  after_reload :
      (m : Text) → contains m (maybe_reload state).numbers ≡ in_file m (maybe_reload state).file
  after_reload m = (maybe_reload-Synced state state-Synced).same (maybe_reload-file state).1 m

  module _ (number n : Text) (normal : normalize_e164 number ≡ some n) where
    -- After any calls whose writes succeed and any edits that change the modification time, block
    -- of a number with a normal form returns whether the file lacked it, and then the file names
    -- it and otherwise the numbers that it named before.
    pub block_exact :
        (t : Stamp)
        → ((block number (some t) (run events (new_manager file))).1
            ≡ returned (not (in_file n (run events (new_manager file)).file)))
          × ((m : Text)
              → in_file m (block number (some t) (run events (new_manager file))).0.file
                ≡ (n == m || in_file m (run events (new_manager file)).file))
    block_exact t =
        let lem =
          block_number_lem n t (maybe_reload state) (maybe_reload-Synced state state-Synced)
            after_reload (normalize_e164-IsE164 number n normal) in
        (
          ground (arith, lem, well_formed number (some t) state n normal, maybe_reload-file state),
          λ m.
              ground (
                arith,
                lem.1 m,
                well_formed number (some t) state n normal,
                maybe_reload-file state,
              ),
        )

    -- After any calls whose writes succeed and any edits that change the modification time, unblock
    -- of a number with a normal form returns whether the file named it, and then the file names the
    -- other numbers that it named before, and this one no longer.
    pub unblock_exact :
        (t : Stamp)
        → ((unblock number (some t) (run events (new_manager file))).1
            ≡ returned (in_file n (run events (new_manager file)).file))
          × ((m : Text)
              → in_file m (unblock number (some t) (run events (new_manager file))).0.file
                ≡ (not (n == m) && in_file m (run events (new_manager file)).file))
    unblock_exact t =
        let lem =
          unblock_number_lem n t (maybe_reload state) (maybe_reload-Synced state state-Synced)
            after_reload in
        (
          ground (arith, lem, well_formed number (some t) state n normal, maybe_reload-file state),
          λ m.
              ground (
                arith,
                lem.1 m,
                well_formed number (some t) state n normal,
                maybe_reload-file state,
              ),
        )
