-- ===== src/Campaign/Examples/Scans.antt =====
-- A worked case of the scan for campaigns.
use listnun.Prelude.{ℕ, ◌≡◌, refl, true, none, some, [], ◌∷◌, ◌==◌, All}
use listnun.Campaign.Status.{running}
use listnun.Campaign.Scan.{
  Row, Tick, State, scan, scan_tenants, scan_tenant, open_pipes, next_rows, start_next, update_sent,
  count_for, is_next, any_of, collect, put_group, group_of, get_current_campaigns,
}
use listnun.Campaign.Scan.Collect.{pending}
use listnun.Campaign.Scan.Counts.{row_sent, write_all, scan_counts}

abbrev campaign_row : ℕ → ℕ → ℕ → Row
campaign_row i tenant sent = record {
  id = i;
  tenant_id = tenant;
  campaign = record {
    status = running;
    send_at = none;
    pause_reason = none;
    to_send = 100;
    sent = sent;
    last_subscriber_id = 0;
  };
  max_subscriber_id = 100;
  started_at = some 1;
}

-- Two tenants with a campaign each that is being sent.
abbrev sending : State
sending = record {
  pipes =
      record { id = 1; tenant_id = 5; sent = 7 } ∷ record { id = 2; tenant_id = 6; sent = 9 } ∷ [];
  rows = campaign_row 1 5 10 ∷ campaign_row 2 6 20 ∷ [];
}

-- The statement of the tenant 6 fails.
abbrev one_fails : Tick
one_fails = record {
  now = 50;
  works = λ t. t == 5;
  audience = λ i. some (100, 100);
  loads = λ i. record { messenger = true; loaded = true; saved = true };
}

loses_nine : row_sent 2 (scan one_fails (some (5 ∷ 6 ∷ [])) sending).rows ≡ some 20
unfolding scan scan_tenants scan_tenant open_pipes next_rows start_next update_sent count_for
    is_next any_of collect put_group group_of get_current_campaigns row_sent
loses_nine = refl

scan_counts_example :
    (row_sent 1 (scan one_fails (some (5 ∷ 6 ∷ [])) sending).rows
      ≡ write_all one_fails.works
          (λ t. pending t 1 sending.pipes)
          (5 ∷ 6 ∷ [])
          (row_sent 1 sending.rows))
    × All (λ p. p.sent ≡ 0) (scan one_fails (some (5 ∷ 6 ∷ [])) sending).pipes
scan_counts_example = scan_counts one_fails (5 ∷ 6 ∷ []) 1 sending
