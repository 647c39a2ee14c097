-- ===== src/Pipes/Finite.antt =====
-- internal/backup/app.go: what the goroutines of a backup have left to do, which each move makes less.
use mongodb_backup_s.Base.{
  ◌≡◌, refl, ◌∙◌, ℕ, ◌+◌, ◌*◌, ◌≤◌, suc, Bool, true, false, not, List, [], ◌∷◌, ◌++◌, Option, none,
  some, Bytes, is_empty, length, length-append, Error, arith,
}
use mongodb_backup_s.Pipes.{
  write_out, Caller, uploading, failing, waiting, returned, State, Move, write, end_produce,
  fail_produce, read, deliver, end_gpg, fail_gpg, clean_up, close_out, end_upload, fail_upload,
  close_reader, receive_done, stop, after_stop, after_stop_inner, is_running, is_uploading,
  is_failing, is_waiting, is_set, enabled, front, rest, or_else, failure_of, apply,
}

unfoldable weight : Bool → ℕ
weight true = 0
weight false = 1

unfoldable weight_of_caller : Caller → ℕ
weight_of_caller uploading = 3
weight_of_caller (failing e) = 2
weight_of_caller (waiting r) = 1
weight_of_caller (returned r) = 0

-- What is left to do.
unfoldable pub measure : State → ℕ
unfolding weight weight_of_caller is_running is_set
measure s =
    3 * length s.left
    + 2 * length s.buffer
    + length s.held
    + weight (not (is_running s.producer))
    + weight (not (is_running s.gpg))
    + weight_of_caller s.caller
    + weight s.stopped
    + weight s.write_closed
    + weight s.cleaned
    + weight (is_set s.out)
    + weight (is_set s.reader_closed)

one_less :
    (cs ds : List Bytes)
    → is_empty cs ≡ false
    → (length (ds ++ front cs) ≡ suc (length ds)) × (suc (length (rest cs)) ≡ length cs)
unfolding front rest
one_less [] ds h = cc
one_less (c ∷ cs) ds h = (length-append ds (c ∷ []) ∙ omega arith, refl)

uploading_weight : (m : Caller) → is_uploading m ≡ true → weight_of_caller m ≡ 3
unfolding is_uploading weight_of_caller
uploading_weight uploading h = refl
uploading_weight _ h = cc

failing_weight : (m : Caller) → is_failing m ≡ true → weight_of_caller m ≡ 2
unfolding is_failing weight_of_caller
failing_weight (failing e) h = refl
failing_weight _ h = cc

waiting_weight : (m : Caller) → is_waiting m ≡ true → weight_of_caller m ≡ 1
unfolding is_waiting weight_of_caller
waiting_weight (waiting r) h = refl
waiting_weight _ h = cc

weight-or_else : (o : Option Error) (e : Error) → weight (is_set (or_else o e)) ≤ weight (is_set o)
unfolding weight is_set or_else
weight-or_else none e = omega arith
weight-or_else (some d) e = omega arith

weight-true : (b : Bool) → weight true ≤ weight b
unfolding weight
weight-true b = ground arith

pub apply-measure :
    (m : Move) (s : State) → enabled m s ≡ true → suc (measure (apply m s)) ≤ measure s
unfolding enabled apply measure weight
apply-measure write s h = ground (arith, one_less s.left s.buffer)
apply-measure write_out s h = ground (arith, one_less s.left s.received)
apply-measure end_produce s h = ground arith
apply-measure (fail_produce e) s h = ground arith
apply-measure read s h = ground (arith, one_less s.buffer s.held)
apply-measure deliver s h = ground (arith, one_less s.held s.received)
apply-measure end_gpg s h = ground arith
apply-measure (fail_gpg e) s h = ground arith
apply-measure clean_up s h = ground arith
apply-measure close_out s h = ground arith
apply-measure end_upload s h = ground (arith, uploading_weight s.caller)
apply-measure (fail_upload e) s h = ground (arith, uploading_weight s.caller)
apply-measure close_reader s h = ground (
  arith,
  failing_weight s.caller,
  weight-true s.stopped,
  weight-or_else s.reader_closed (failure_of s.caller),
)
apply-measure receive_done s h = ground (arith, waiting_weight s.caller)
apply-measure stop s h = ground arith
apply-measure after_stop s h = ground arith
apply-measure after_stop_inner s h = ground arith
