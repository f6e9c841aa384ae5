-- ===== src/Outbox/Tests.antt =====
-- Runs of the outbox at concrete inputs.
use b4fast_api.Prelude.{◌≤◌, ◌≡◌, ◌≢◌, ◌⊎◌, refl, false, none, some, List, [], ◌∷◌, arith, All}
use b4fast_api.Database.{Table}
use b4fast_api.Database.Instance.{list_table}
use b4fast_api.Outbox.{
  Notification, Kind, Delivery, Failure, same_id, get, claim, sweep, eligible, is_open, is_stale,
  expire, is_exhausted, give_up, take_lease, claim_key, Others, selected, claim_during,
}
use b4fast_api.Outbox.WellFormed.{IsValid, perform_all-IsValid}
use b4fast_api.Outbox.Leases.{HasDistinctIds, IsClaimed, claim-IsClaimed}
use b4fast_api.Outbox.View.{ClaimView, claim-view}
use b4fast_api.Outbox.Races.{LostRace, claim_during-none}
use b4fast_api.Outbox.History.{times_claimed, claim_respects_lease, delivery_budget}
use b4fast_api.Outbox.Final.{final_stays}
use b4fast_api.Outbox.Trace.{
  Action, add_row, claim_next, expire_all, give_up_all, take_key, finish_row, perform, perform_all,
  claims,
}

abbrev outbox : Table Notification same_id
outbox = list_table same_id

abbrev waiting : Notification
waiting = record {
  id = 1;
  kind = Kind.plan_changed;
  payload = some 7;
  state = Delivery.pending;
  attempts = 0;
  available_at = 10;
  lease = none;
  leased_until = none;
  expires_at = 1000;
  error = none;
}

abbrev busy : Notification
busy = record waiting {
  id = 2;
  state = Delivery.sending;
  attempts = 1;
  lease = some 8;
  leased_until = some 400;
}

abbrev done : Notification
done = record waiting { id = 3; payload = none; state = Delivery.sent; attempts = 2 }

abbrev rows : List Notification
rows = waiting ∷ busy ∷ done ∷ []

abbrev script : List Action
script =
    claim_next 5 100
    ∷ finish_row busy Delivery.pending (some Failure.delivery_failed) 150
    ∷ claim_next 6 420
    ∷ add_row (record waiting { id = 4 })
    ∷ expire_all 450
    ∷ give_up_all 450
    ∷ take_key 7 450 4
    ∷ claim_next 9 500
    ∷ []

-- The oldest waiting row is claimed, and the busy one is left to its worker.
claim_rows : (claim outbox 5 100 rows).0 ≡ some (take_lease 5 100 waiting)
unfolding claim sweep eligible is_open is_stale expire is_exhausted give_up take_lease claim_key get
claim_rows = refl

perform_all-IsValid_example : All IsValid (perform_all outbox script rows)
perform_all-IsValid_example = perform_all-IsValid outbox script rows (ground arith) (ground arith)

claim-IsClaimed_example : IsClaimed 5 100 (take_lease 5 100 waiting)
claim-IsClaimed_example =
    claim-IsClaimed outbox 5 100 rows (take_lease 5 100 waiting) (ground arith) claim_rows

claim-view_example :
    ClaimView outbox 5 100 rows (take_lease 5 100 waiting) (claim outbox 5 100 rows).1
claim-view_example =
    claim-view outbox 5 100 rows (take_lease 5 100 waiting) (ground arith) claim_rows

-- Another worker takes the oldest row between the SELECT and the UPDATE.
abbrev racing : Others outbox
racing = record {
  after_expire = λ s. s;
  after_sweep = λ s. s;
  after_select = λ s. (claim outbox 6 100 s).1;
}

race_lost : (claim_during outbox racing 5 100 rows).0 ≡ none
unfolding claim_during claim sweep eligible is_open is_stale expire is_exhausted give_up take_lease
    claim_key get
race_lost = refl

raced_distinct : HasDistinctIds (racing.after_select (selected outbox racing 100 rows))
unfolding claim sweep eligible is_open is_stale expire is_exhausted give_up take_lease claim_key get
raced_distinct = ground arith

claim_during-none_example :
    (((claim_during outbox racing 5 100 rows).1 ≡ selected outbox racing 100 rows)
      × All (λ r. eligible 100 r ≡ false) (selected outbox racing 100 rows))
    ⊎ LostRace outbox racing 5 100 rows
claim_during-none_example = claim_during-none outbox racing 5 100 rows raced_distinct race_lost

get_busy : get outbox 2 rows ≡ some busy
unfolding get
get_busy = refl

next_claimed : (perform outbox (claim_next 5 100) rows).0 ≡ some (take_lease 5 100 waiting)
unfolding perform
next_claimed = claim_rows

claim_respects_lease_example : (take_lease 5 100 waiting).id ≢ 2
claim_respects_lease_example =
    claim_respects_lease outbox (claim_next 5 100) rows busy (take_lease 5 100 waiting)
      (ground arith) get_busy refl refl (omega arith) next_claimed

delivery_budget_example : times_claimed 1 (claims outbox script rows) ≤ 5
delivery_budget_example =
    delivery_budget outbox 1 script rows (ground arith) (ground arith) (ground arith) (ground arith)

get_done : get outbox 3 rows ≡ some done
unfolding get
get_done = refl

final_stays_example :
    (get outbox 3 (perform_all outbox script rows) ≡ some done)
    × (times_claimed 3 (claims outbox script rows) ≡ 0)
final_stays_example =
    final_stays outbox script rows 3 done (ground arith) (ground arith) (ground arith) refl get_done
