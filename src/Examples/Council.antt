-- ===== src/Examples/Council.antt =====
-- A review on the chain, whose report is challenged.
use qrucial_dao.Common.{◌≡◌, ◌≢◌, refl, true, false, none, some, [], ◌∷◌, arith, find}
use qrucial_dao.Common.Text.{Text, codes}
use qrucial_dao.Challenges.{same}
use qrucial_dao.Challenges.Laws.{answers}
use qrucial_dao.Node.{signed, root, ok, ensure_root, insert}
use qrucial_dao.Node.Elo.{calculate, calculate_expected, winner_new, looser_new}
use qrucial_dao.Node.Auditors.{AuditorData, Config, State, approved, approve_auditor, Winner}
use qrucial_dao.Node.Reviews
use qrucial_dao.Node.Auditors
use qrucial_dao.Node.Reviews.Laws
use qrucial_dao.Node.Reviews.Calls
use qrucial_dao.Node.Reviews.Calls.{approve_challenge, remove_challenge, close_challenge}
use qrucial_dao.Node.Auditors.{has_enough_rank}
use qrucial_dao.Node.Reviews.Told
use qrucial_dao.Node.Reviews.Sound.{IsSound}
use qrucial_dao.Node.Reviews.Listed.{answers-stored}
use qrucial_dao.Node.Runtime.{runtime}
use qrucial_dao.Node.Reviews.Calls.{challenge_report}
use qrucial_dao.Reports.View.{can_challenge}
use qrucial_dao.Pages.Challenge.{Details, view}
use qrucial_dao.Proposal
use qrucial_dao.Proposal.Laws.{Page, click, choose, signs}
use qrucial_dao.TxButton.Send.{Session, no_handle, subscribed}
use qrucial_dao.Node.Council.{run, Closes, signs-Closes}
use qrucial_dao.Node.Drawn.{
  told, Raises, IsOther, can_challenge-IsOther, has_form, close_challenge-has_form,
}
use qrucial_dao.Node.Scores.{score_of, Moved, after_win, approve_challenge-Moved}
use qrucial_dao.Examples.Node.{powers, ann, bob, eve, config, genesis, ann_data}

-- Ann reports on a review and bob, who has a score, challenges the report.
abbrev world : State config
world = record genesis {
  auditor_map =
      insert bob (record { score = some 2000; profile_hash = codes "0x2"; approved_by = [] })
        genesis.auditor_map;
}

abbrev chain : Reviews.Runtime
chain = runtime config ensure_root ensure_root ensure_root

abbrev hash : Text
hash = codes "0xh"

abbrev s0 : Reviews.State chain
s0 = Reviews.Laws.empty chain world

abbrev review : Reviews.Review
review = record {
  requestor = eve;
  min_auditor_score = 1000;
  bounty = 5;
  hash = hash;
  url = codes "u";
}

abbrev s1 : Reviews.State chain
s1 = record s0 {
  reviews = insert hash review s0.reviews;
  world = record world { balances = 5 };
  events = Reviews.review_request review ∷ [];
}

abbrev s2 : Reviews.State chain
s2 = record s1 {
  reports = Reviews.write hash (record { auditor = ann; kind = Reviews.invalid } ∷ []) s1.reports;
  events = Reviews.review_invalid_event hash 0 ann ∷ s1.events;
}

abbrev challenge : Reviews.Challenge
challenge = record {
  auditor = bob;
  state = Reviews.pending;
  remove_vulnerabilities = 0 ∷ [];
  add_vulnerabilities = [];
  patch_vulnerabilities = [];
}

abbrev s3 : Reviews.State chain
s3 = record s2 {
  challenges = Reviews.write_at hash 0 (challenge ∷ []) s2.challenges;
  events = Reviews.challenge_started hash 0 0 bob ∷ s2.events;
}

requested :
    Reviews.Laws.dispatch chain (Reviews.Laws.request (signed eve) (codes "u") hash 5 1000) s0
    ≡ ok s1
unfolding Reviews.Laws.dispatch Reviews.Calls.request_review
requested = refl

reported : Reviews.Laws.dispatch chain (Reviews.Laws.invalid_by (signed ann) hash) s1 ≡ ok s2
unfolding Reviews.Laws.dispatch Reviews.Calls.review_invalid has_enough_rank
    Reviews.Calls.audit_review Reviews.Calls.new_report_id
reported = refl

challenged :
    Reviews.Laws.dispatch chain (Reviews.Laws.challenge_by (signed bob) hash 0 (0 ∷ []) [] []) s2
    ≡ ok s3
unfolding Reviews.Laws.dispatch Reviews.Calls.challenge_report has_enough_rank
    Reviews.Calls.audit_review Reviews.Calls.report_auditor Reviews.Calls.new_challenge_id
challenged = refl

abbrev reach : Reviews.Laws.Reach chain s3
reach =
    Reviews.Laws.call _
      (Reviews.Laws.call _ (Reviews.Laws.call _ (Reviews.Laws.start world) requested) reported)
      challenged

Reach-IsSound_example : IsSound s3
Reach-IsSound_example = Reviews.Laws.Reach-IsSound chain s3 reach

answers-stored_example :
    find
      (same (Reviews.Told.entry hash 0 0 challenge))
      (answers (Reviews.Told.answers_of s3.challenges ((hash, 0) ∷ [])) [])
    ≡ some (Reviews.Told.entry hash 0 0 challenge)
answers-stored_example =
    answers-stored chain s3 ((hash, 0) ∷ []) [] hash 0 0 challenge reach refl refl

abbrev bob_data : AuditorData
bob_data = record { score = some 2000; profile_hash = codes "0x2"; approved_by = [] }

abbrev s4 : Reviews.State chain
s4 = record s3 {
  challenges =
      Reviews.write_at hash 0 (record challenge { state = Reviews.accepted } ∷ []) s3.challenges;
  world = after_win config bob ann bob_data ann_data (2029, 2371) s3.world;
  events = Reviews.challenge_accepted hash 0 0 ∷ s3.events;
}

approved_by_root : approve_challenge chain root hash 0 0 s3 ≡ ok s4
unfolding approve_challenge close_challenge Reviews.Calls.report_auditor Auditors.apply_result
    Auditors.new_scores calculate calculate_expected winner_new looser_new powers after_win
approved_by_root = refl

approve_challenge-Moved_example :
    Moved 2000 2400 (score_of s4.world.auditor_map bob) (score_of s4.world.auditor_map ann)
approve_challenge-Moved_example =
    approve_challenge-Moved config ensure_root ensure_root ensure_root root hash 0 0 s3 s4
      (record { auditor = ann; kind = Reviews.invalid }) challenge bob_data ann_data 2000 2400 reach
      refl refl refl refl refl refl (omega arith) (omega arith) (omega arith) approved_by_root

-- Bob may challenge the report of ann.
abbrev report : Reviews.Report
report = record { auditor = ann; kind = Reviews.invalid }

button_of_bob : can_challenge bob (told report) ≡ true
unfolding can_challenge told
button_of_bob = refl

can_challenge-IsOther_example :
    Raises IsOther (challenge_report chain (signed bob) hash 0 (0 ∷ []) [] [] s2)
can_challenge-IsOther_example =
    can_challenge-IsOther chain s2 bob hash 0 report (0 ∷ []) [] [] refl button_of_bob

closed :
    close_challenge chain hash 0 0 Reviews.accepted Winner.player0 s3
    ≡ ok (record s4 { events = s3.events })
unfolding close_challenge Reviews.Calls.report_auditor Auditors.apply_result Auditors.new_scores
    calculate calculate_expected winner_new looser_new powers after_win
closed = refl

abbrev details : Details
details = record {
  challenge = record { audit_hash = hash; report_id = 0; challenge_id = 0; auditor = bob };
  state = codes "Accepted";
  remove_vulnerabilities = codes "0" ∷ [];
  add_vulnerabilities = [];
  patch_vulnerabilities = [];
}

not_pending : Reviews.accepted ≢ Reviews.pending
not_pending h = cc

close_challenge-has_form_example :
    has_form (
      view none none none
        (some (record { audit_hash = hash; report_id = 0; auditor = ann; kind = codes "Invalid" }))
        none
        details)
    ≡ false
close_challenge-has_form_example =
    close_challenge-has_form chain s3 (record s4 { events = s3.events }) hash 0 0 Reviews.accepted
      Winner.player0 (record challenge { state = Reviews.accepted }) none none none _ none details
      not_pending closed refl refl

-- A challenge that was accepted is removed afterwards.
closed_again :
    remove_challenge chain root hash 0 0 s4
    ≡ ok (record s4 {
      challenges =
          Reviews.write_at hash 0 (record challenge { state = Reviews.removed } ∷ []) s4.challenges;
      world = record s4.world {
        events = Auditors.game_result bob ann Winner.draw ∷ s4.world.events;
      };
      events = Reviews.challenge_removed hash 0 0 ∷ s4.events;
    })
unfolding remove_challenge close_challenge Reviews.Calls.report_auditor Auditors.apply_result
    Auditors.new_scores after_win
closed_again = refl

-- The members are ann alone, who proposes to approve the challenge of bob.
abbrev ann_page : Page
ann_page = record {
  challenge = details.challenge;
  form = record (Proposal.form_of details.challenge) {
    proposal = Proposal.method Proposal.approve;
  };
}

abbrev proposed : Proposal.Extrinsic
proposed = record {
  threshold = 1;
  action = Proposal.approve;
  hash = hash;
  report_id = some 0;
  challenge_id = some 0;
  length_bound = 5000;
}

abbrev idle : Session
idle = record { unsub = no_handle; live = [] }

proposed_by_ann : signs (some ann) ann ann_page.form (subscribed 1) idle ≡ some proposed
unfolding Proposal.on_click Proposal.propose Proposal.lookup Proposal.form_of
proposed_by_ann = refl

carried_out : run chain Proposal.approve root hash 0 0 s3 ≡ ok s4
unfolding run
carried_out = approved_by_root

signs-Closes_example : Closes chain hash 0 0 Reviews.accepted s3 s4 hash 0 0
signs-Closes_example =
    signs-Closes chain (choose Proposal.approve (click details.challenge)) (some ann) ann
      (subscribed 1) idle proposed 0 0 root s3 s4 hash 0 0 proposed_by_ann refl refl carried_out
