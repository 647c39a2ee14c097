-- ===== src/Tests/Interleavings.antt =====
-- Runs of the goroutines of a backup: one that publishes, one whose upload fails while chunks are on
-- their way, and one without a passphrase.
use mongodb_backup_s.Base.{
  true, false, ◌≡◌, refl, List, [], ◌∷◌, Bytes, codes, external, Result, ok,
}
use mongodb_backup_s.Pipes.{
  write_out, Stage, ended, Caller, returned, State, Move, write, end_produce, fail_produce, read,
  deliver, end_gpg, fail_gpg, clean_up, close_out, end_upload, fail_upload, close_reader,
  receive_done, enabled, apply, initial, Reachable, begin, move,
}
use mongodb_backup_s.Pipes.Outcome.{IsWhole, published-IsWhole, Spec, returned-Spec}
use mongodb_backup_s.Pipes.Progress.{Returns, run-Returns}

abbrev chunk : List Bytes
chunk = codes "dump" ∷ []

abbrev after : List Move → State
after [] = initial false chunk
after (m ∷ ms) = apply m (after ms)

abbrev good : List Move
good =
    receive_done ∷ end_upload ∷ close_out ∷ clean_up ∷ end_gpg ∷ deliver ∷ read ∷ end_produce
    ∷ write ∷ []

good-Reachable : Reachable false chunk good (after good)
unfolding enabled apply
good-Reachable =
    move receive_done _ _
      (move end_upload _ _
        (move close_out _ _
          (move clean_up _ _
            (move end_gpg _ _
              (move deliver _ _
                (move read _ _ (move end_produce _ _ (move write _ _ begin refl) refl) refl) refl)
              refl)
            refl)
          refl)
        refl)
      refl

abbrev broken : List Move
broken = close_reader ∷ fail_upload (external 5) ∷ write ∷ []

broken-Reachable : Reachable false chunk broken (after broken)
unfolding enabled apply
broken-Reachable =
    move close_reader _ _ (move (fail_upload (external 5)) _ _ (move write _ _ begin refl) refl)
      refl

published-IsWhole_example : IsWhole chunk (after good)
unfolding apply mongodb_backup_s.Pipes.Outcome.is_published
published-IsWhole_example = published-IsWhole false chunk good (after good) good-Reachable refl

good-returned : (after good).caller ≡ returned (ok tt)
unfolding apply
good-returned = refl

returned-Spec_example :
    (bundle : Result (Unit {0})) × (sealed : Result (Unit {0})) × (up : Result (Unit {0})) × ((after
        good).producer
      ≡ ended bundle)
    × ((after good).gpg ≡ ended sealed)
    × Spec chunk (after good).received bundle sealed up (ok tt)
returned-Spec_example =
    returned-Spec false chunk good (after good) (ok tt) good-Reachable good-returned

run-Returns_example : Returns (after broken)
run-Returns_example = run-Returns false chunk broken (after broken) broken-Reachable

-- Without a passphrase.
abbrev plain_end : State
plain_end =
    apply receive_done (
      apply end_upload (apply close_out (apply end_produce (apply write_out (initial true chunk)))))

plain-Reachable :
    Reachable true chunk
      (receive_done ∷ end_upload ∷ close_out ∷ end_produce ∷ write_out ∷ [])
      plain_end
unfolding enabled apply
plain-Reachable =
    move receive_done _ _
      (move end_upload _ _
        (move close_out _ _ (move end_produce _ _ (move write_out _ _ begin refl) refl) refl) refl)
      refl

plain-whole : plain_end.received ≡ chunk
unfolding apply
plain-whole = refl
