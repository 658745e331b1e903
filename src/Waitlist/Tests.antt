-- ===== src/Waitlist/Tests.antt =====
-- Runs of the waitlist repository, and the theorems about it at concrete inputs.
use festival.Waitlist.Interleaved.{
  Interleaved, start, begins, goes_on, withdraws, Interleaved-IsValid, Call,
}
use festival.Waitlist.Overlap.{overlapping_calls_twice}
use festival.Waitlist.Invariant.{has_id, IsValid, Joins}
use festival.Waitlist.Idempotence.{Reach-IsBalanced, IsBalanced, create_or_reactivate_entry_again}
use festival.Base.{none, map, count, ℕ, ◌≡◌, refl, true, [], ◌∷◌}
use festival.Waitlist.Records.{
  CreateOrReactivateWaitlistEntryParams, WaitlistRepository, parent, no_action,
}
use festival.Waitlist.Repository.{
  create_after, list_entries_for_class_roster, withdraw_active, join, rejoin, is_withdrawn_for,
  is_active_for, find_withdrawn_entry, find_active_entry, create_or_reactivate_entry,
  withdraw_entry,
}
use festival.Waitlist.Membership.{
  active_count, Reach_single, withdraw_entry-Leaves, create_or_reactivate_entry-Joins, Leaves, init,
  Reach, here, next, creates, withdraws,
}

abbrev family : ℕ → CreateOrReactivateWaitlistEntryParams
family child = record {
  organization_id = 1;
  festival_id = 2;
  festival_class_id = 3;
  parent_customer_id = 4;
  child_id = child;
}

abbrev one : WaitlistRepository
one = (create_or_reactivate_entry (family 5) 100 200 10 init).0

abbrev two : WaitlistRepository
two = (create_or_reactivate_entry (family 6) 101 201 11 one).0

abbrev left : WaitlistRepository
left = (withdraw_entry 1 3 5 parent 4 202 12 two).0

abbrev back : WaitlistRepository
back = (create_or_reactivate_entry (family 5) 102 203 13 left).0

back-roster : map (λ e. e.id) (list_entries_for_class_roster 1 3 back) ≡ 101 ∷ 100 ∷ []
unfolding init create_or_reactivate_entry create_after withdraw_entry find_active_entry
    find_withdrawn_entry is_active_for is_withdrawn_for rejoin join withdraw_active
    list_entries_for_class_roster
back-roster = refl

history : Reach init back
unfolding init create_or_reactivate_entry create_after withdraw_entry find_active_entry
    find_withdrawn_entry is_active_for is_withdrawn_for rejoin join withdraw_active
history =
    next
      (next
        (next (next here (creates (family 5) 100 200 10 refl)) (creates (family 6) 101 201 11 refl))
        (withdraws 1 3 5 parent 4 202 12))
      (creates (family 5) 102 203 13 refl)

-- Children 5 and 6 join at once; 5 leaves before the call for 6 goes on.
abbrev call_for : ℕ → Call
call_for child = record { params = family child; seen = none }

abbrev only_5 : WaitlistRepository
only_5 = (create_after none (family 5) 100 200 10 init).0

abbrev only_6 : WaitlistRepository
only_6 = (create_after none (family 6) 101 201 11 (withdraw_entry 1 3 5 parent 4 202 12 only_5).0).0

interleaved : Interleaved only_6 []
unfolding find_active_entry init withdraw_entry create_after find_withdrawn_entry join is_active_for
    withdraw_active
interleaved =
    let two_wait : Interleaved init (call_for 6 ∷ call_for 5 ∷ []) =
      begins (begins start (family 5) refl) (family 6) refl in
    let one_waits : Interleaved only_5 (call_for 6 ∷ []) =
      goes_on (call_for 6 ∷ []) (call_for 5) [] two_wait 100 200 10 refl in
    goes_on [] (call_for 6) [] (withdraws one_waits 1 3 5 parent 4 202 12) 101 201 11 refl

Interleaved-IsValid_example : IsValid only_6
Interleaved-IsValid_example = Interleaved-IsValid interleaved

Reach-IsBalanced_example : IsBalanced back
Reach-IsBalanced_example = Reach-IsBalanced history

two_history : Reach init two
unfolding init create_or_reactivate_entry find_active_entry find_withdrawn_entry join
two_history =
    next (next here (creates (family 5) 100 200 10 refl)) (creates (family 6) 101 201 11 refl)

two_fresh : count (has_id 104) two.entries ≡ 0
unfolding create_or_reactivate_entry find_active_entry init find_withdrawn_entry join is_active_for
    is_withdrawn_for
two_fresh = refl

two_not_active : find_active_entry 1 3 7 two ≡ none
unfolding find_active_entry create_or_reactivate_entry init find_withdrawn_entry join is_active_for
    is_withdrawn_for
two_not_active = refl

left_history : Reach init left
unfolding init create_or_reactivate_entry create_after withdraw_entry find_active_entry
    find_withdrawn_entry is_active_for is_withdrawn_for rejoin join withdraw_active
left_history =
    next
      (next (next here (creates (family 5) 100 200 10 refl)) (creates (family 6) 101 201 11 refl))
      (withdraws 1 3 5 parent 4 202 12)

left_fresh : count (has_id 102) left.entries ≡ 0
unfolding init create_or_reactivate_entry create_after withdraw_entry find_active_entry
    find_withdrawn_entry is_active_for is_withdrawn_for rejoin join withdraw_active
left_fresh = refl

create_or_reactivate_entry-Joins_example : Joins (family 5) left back
create_or_reactivate_entry-Joins_example =
    create_or_reactivate_entry-Joins (family 5) 102 203 13 left (Reach_single left_history)
      left_fresh

create_or_reactivate_entry_again_example :
    let (t, r) = create_or_reactivate_entry (family 5) 102 203 13 left in
    create_or_reactivate_entry (family 5) 103 204 14 t
    ≡ (t, record { entry = r.entry; already_joined = true; action = no_action })
create_or_reactivate_entry_again_example =
    create_or_reactivate_entry_again (family 5) 102 203 13 left (Reach_single left_history)
      (family 5) 103 204 14 refl refl refl

-- Child 7 joins twice at once.
abbrev first_goes_on : WaitlistRepository
first_goes_on = (create_after (find_active_entry 1 3 7 two) (family 7) 104 206 16 two).0

first_fresh : count (has_id 105) first_goes_on.entries ≡ 0
unfolding create_after find_active_entry create_or_reactivate_entry init find_withdrawn_entry join
    is_active_for is_withdrawn_for
first_fresh = refl

overlapping_calls_twice_example :
    active_count 1 3 7
      (create_after (find_active_entry 1 3 7 two) (family 7) 105 207 16 first_goes_on).0
    ≡ 2
overlapping_calls_twice_example =
    overlapping_calls_twice (family 7) 104 206 16 105 207 16 two first_goes_on
      (Reach_single two_history).unique two_not_active two_fresh refl first_fresh

withdraw_entry-Leaves_example : Leaves 1 3 5 back (withdraw_entry 1 3 5 parent 4 205 15 back).0
withdraw_entry-Leaves_example =
    withdraw_entry-Leaves 1 3 5 parent 4 205 15 back (Reach_single history)
