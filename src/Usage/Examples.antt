-- ===== src/Usage/Examples.antt =====
-- A worked case of the usage meter.
use listnun.Prelude.{◌+◌, ◌≡◌, refl, true, false, List, [], ◌∷◌, Text, codes, text_eq}
use listnun.Usage.{
  Key, Event, adds, takes, ends, run, new_meter, step, add_usage, take_batch, end_flush, pull, bump,
  bump_all, key_eq,
}
use listnun.Usage.Ledger.{total, total_all, added, run-held}

abbrev email_sent : Text
email_sent = codes "email_sent"

abbrev counter : Key
counter = record { tenant_id = 4; kind = email_sent; bucket = 7200 }

-- A write that fails while more is added, and one that goes through.
abbrev one_failure : List Event
one_failure =
    adds 7300 4 email_sent 3
    ∷ takes
    ∷ adds 9000 4 email_sent 2
    ∷ ends 0 false
    ∷ takes
    ∷ ends 0 true
    ∷ adds 9100 4 email_sent 1
    ∷ []

stores_five : (run one_failure new_meter).stored ≡ record { key = counter; count = 5 } ∷ []
unfolding run step add_usage take_batch end_flush pull bump bump_all key_eq text_eq
stores_five = refl

run-held_example :
    total counter (run one_failure new_meter).stored
      + (total counter (run one_failure new_meter).pending
          + total_all counter (run one_failure new_meter).flying)
    ≡ added counter one_failure
run-held_example = run-held counter one_failure
