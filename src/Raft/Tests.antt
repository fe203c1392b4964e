-- ===== src/Raft/Tests.antt =====
-- Runs of raft-demo/src/raft on small logs, and the theorems at them. The commands are numbers.
use dist_sys_demos.Base.{
  ℕ, ◌≤◌, ◌<◌, ◌≡◌, ◌≢◌, ◌⊎◌, ◌↔◌, refl, Bool, true, false, ◌||◌, none, some, List, [], ◌∷◌, ◌++◌,
  map, length, inr, take, drop, arith, ltb, if◌then◌else◌,
}
use dist_sys_demos.Base.Int.{pos}
use dist_sys_demos.Raft.State.{
  LogEntry, follower, candidate, leader, Raft, RequestVoteArgs, RequestVoteReply, AppendEntriesArgs,
  AppendEntriesReply, Effect, go_to_follower, term_at,
}
use dist_sys_demos.Raft.Election.{
  is_elected, is_cand_up_to_date, request_vote, to_follower, count_vote, election_reply,
}
use dist_sys_demos.Raft.Election.Votes.{IsRecent, AllAre, request_vote-granted, grants, grants-one}
use dist_sys_demos.Raft.Election.Elected.{
  election_reply-majority, election_reply-stale, request_vote-to_follower-twice,
}
use dist_sys_demos.Raft.Append.{merge_entries, lacks_prev, append_entries, deliveries}
use dist_sys_demos.Raft.Append.Merge.{overlay, merge_entries_lem}
use dist_sys_demos.Raft.Append.Parts.{IsLogged, IsCall, newly_committed}
use dist_sys_demos.Raft.Append.Refused.{IsMissing, missing, IsRefused, append_entries-refuses}
use dist_sys_demos.Raft.Append.Handler.{IsStored, append_entries-stores, append_entries-agrees}
use dist_sys_demos.Raft.Leader.{missing_args, peer_args, replicate, commit_at, handle_reply}
use dist_sys_demos.Raft.Leader.Commit.{majority_holds, IsLeading, commit_at-majority}
use dist_sys_demos.Raft.Leader.Replicate.{Describes, peer_args-Describes, peer_args-append_entries}
use dist_sys_demos.Raft.Leader.Failures.{handle_reply-replicate}

abbrev item : ℕ → ℕ → ℕ → LogEntry ℕ
item c t i = record { command = c; term = t; index = i }

-- Three entries, the last of an older leader.
abbrev old_log : List (LogEntry ℕ)
old_log = item 0 0 0 ∷ item 7 1 1 ∷ item 8 1 2 ∷ []

-- The log of a leader of term 2.
abbrev new_log : List (LogEntry ℕ)
new_log = item 0 0 0 ∷ item 7 1 1 ∷ item 9 2 2 ∷ item 5 2 3 ∷ []

abbrev peer : Raft ℕ
peer = record {
  me = 1;
  dead = false;
  current_term = 1;
  voted_for = none;
  log = old_log;
  commit_index = 1;
  last_applied = 0;
  next_index = [];
  match_index = [];
  state = follower;
  votes_got = 0;
  num_peers = 3;
}

abbrev lead_peer : Raft ℕ
lead_peer = record {
  me = 0;
  dead = false;
  current_term = 2;
  voted_for = some 0;
  log = new_log;
  commit_index = 1;
  last_applied = 1;
  next_index = pos 0 ∷ pos 2 ∷ pos 1 ∷ [];
  match_index = 0 ∷ 3 ∷ 0 ∷ [];
  state = leader;
  votes_got = 2;
  num_peers = 3;
}

abbrev call : AppendEntriesArgs ℕ
call = record {
  term = 2;
  leader_id = 0;
  prev_log_index = 1;
  prev_log_term = some 1;
  entries = item 9 2 2 ∷ item 5 2 3 ∷ [];
  leader_commit = 2;
}

peer-IsLogged : IsLogged peer
peer-IsLogged = record { indexed = (refl, (refl, (refl, tt))); full = omega arith }

lead_peer-IsLogged : IsLogged lead_peer
lead_peer-IsLogged = record { indexed = (refl, (refl, (refl, (refl, tt)))); full = omega arith }

call-IsCall : IsCall call
call-IsCall = record { follows = (refl, (refl, tt)); prev_term = 1; known = refl }

merge_entries_lem_example :
    merge_entries old_log (item 9 2 2 ∷ [])
    ≡ take 2 old_log ++ overlay (drop 2 old_log) (item 9 2 2 ∷ [])
merge_entries_lem_example =
    merge_entries_lem 2 old_log (item 9 2 2 ∷ []) (refl, tt) (omega arith) (omega arith)

call-carried : (ltb call.term peer.current_term || lacks_prev peer.log call) ≡ false
unfolding lacks_prev
call-carried = refl

append_entries-stores_example :
    (r : Raft ℕ × AppendEntriesReply × List (Effect ℕ)) × (append_entries peer call ≡ some r)
    × IsStored peer call r
append_entries-stores_example =
    append_entries-stores peer call peer-IsLogged call-IsCall call-carried

append_entries-agrees_example :
    (r : Raft ℕ × AppendEntriesReply × List (Effect ℕ)) × (append_entries peer call ≡ some r)
    × IsLogged r.0
    × (take 2 r.0.log ≡ take 2 old_log)
    × (map (λ (x : LogEntry ℕ). x.term) (take (length call.entries) (drop 2 r.0.log))
        ≡ map (λ (x : LogEntry ℕ). x.term) call.entries)
append_entries-agrees_example =
    append_entries-agrees peer call peer-IsLogged call-IsCall call-carried

-- A call that names an entry which the peer does not have.
abbrev far_call : AppendEntriesArgs ℕ
far_call = record call { prev_log_index = 3; prev_log_term = some 2; entries = [] }

far_call-IsMissing : IsMissing peer.log far_call
far_call-IsMissing = missing 2 refl (λ e. ground (arith, e))

append_entries-refuses_example :
    (r : Raft ℕ × AppendEntriesReply × List (Effect ℕ)) × (append_entries peer far_call ≡ some r)
    × IsRefused peer far_call r
append_entries-refuses_example = append_entries-refuses peer far_call (inr far_call-IsMissing)

peer_args-Describes_example :
    (args : AppendEntriesArgs ℕ) × (peer_args lead_peer (pos 2) ≡ some args)
    × Describes lead_peer args
peer_args-Describes_example = peer_args-Describes lead_peer 1 lead_peer-IsLogged

abbrev sent_call : AppendEntriesArgs ℕ
sent_call = record call { leader_commit = 1 }

sent_call-made : peer_args lead_peer (pos 2) ≡ some sent_call
unfolding peer_args missing_args
sent_call-made = refl

sent_call-carried : (ltb sent_call.term peer.current_term || lacks_prev peer.log sent_call) ≡ false
unfolding lacks_prev
sent_call-carried = refl

peer_args-append_entries_example :
    (r : Raft ℕ × AppendEntriesReply × List (Effect ℕ)) × (append_entries peer sent_call ≡ some r)
    × (term_at r.0.log 3 ≡ some 2)
peer_args-append_entries_example =
    peer_args-append_entries lead_peer peer 1 3 2 sent_call lead_peer-IsLogged peer-IsLogged
      sent_call-made sent_call-carried (omega arith) refl

lead_peer-IsLeading : IsLeading lead_peer
lead_peer-IsLeading = record { peers = refl; commit = omega arith; applied = omega arith }

commit_at-majority_example :
    (r : Raft ℕ × List (Effect ℕ)) × (commit_at lead_peer 3 ≡ some r)
    × (1 ≤ r.0.commit_index)
    × ((r.0.commit_index ≡ 1)
        ⊎ ((r.0.commit_index ≡ 3)
            × (majority_holds lead_peer 3 ≡ true)
            × (term_at new_log 3 ≡ some 2)))
    × (r.0.log ≡ new_log)
    × ((r.1 ≡ []) ⊎ (r.0.last_applied ≡ r.0.commit_index))
    × (r.1 ≡ deliveries (newly_committed new_log 1 r.0.last_applied))
commit_at-majority_example = commit_at-majority lead_peer 3 lead_peer-IsLeading (omega arith)

abbrev vote_for : ℕ → ℕ → RequestVoteArgs
vote_for c t = record { term = t; candidate_id = c; last_log_index = 4; last_log_term = 3 }

grants-one_example : (v : ℕ) × AllAre v (grants (vote_for 2 5 ∷ vote_for 0 6 ∷ []) peer)
grants-one_example = grants-one (vote_for 2 5 ∷ vote_for 0 6 ∷ []) peer

request_vote-granted_example :
    let r = request_vote peer (vote_for 2 5) in
    ((r.1.vote_granted ≡ true) ↔ (
      (1 ≤ 5)
      × ((peer.voted_for ≡ none) ⊎ (peer.voted_for ≡ some 2))
      × IsRecent peer.log (vote_for 2 5)))
    × (r.0.voted_for ≡ (if r.1.vote_granted then some 2 else none))
    × (r.0.log ≡ old_log)
    × (r.1.term ≡ r.0.current_term)
    × (r.0.current_term ≡ (if ltb 1 5 then 5 else 1))
request_vote-granted_example = request_vote-granted peer (vote_for 2 5)

-- A candidate of term 5 with its own vote.
abbrev standing : Raft ℕ
standing = record peer { current_term = 5; voted_for = some 1; state = candidate; votes_got = 1 }

abbrev granted : RequestVoteReply
granted = record { term = 5; vote_granted = true }

standing-other : standing.state ≢ leader
standing-other h = cc

standing-elected : (election_reply standing granted).0.state ≡ leader
unfolding election_reply count_vote is_elected
standing-elected = refl

election_reply-majority_example :
    let (rf1, sent, over) = election_reply standing granted in
    (1 < rf1.votes_got)
    × (rf1.votes_got ≡ 2)
    × (rf1.current_term ≡ 5)
    × (true ≡ true)
    × (over ≡ true)
election_reply-majority_example =
    election_reply-majority standing granted standing-other standing-elected

-- The candidate has since become a follower in term 6.
abbrev moved_on : Raft ℕ
moved_on = record standing { current_term = 6; state = follower; voted_for = none }

election_reply-stale_example :
    let (rf1, sent, over) = election_reply moved_on granted in
    (rf1.state ≡ leader) × (rf1.current_term ≡ 6)
election_reply-stale_example =
    election_reply-stale moved_on granted refl (omega arith) refl (omega arith)

recent : (c t : ℕ) → is_cand_up_to_date standing (vote_for c t) ≡ true
unfolding is_cand_up_to_date
recent c t = refl

abbrev higher : RequestVoteReply
higher = record { term = 7; vote_granted = false }

request_vote-to_follower-twice_example :
    let r0 = request_vote standing (vote_for 0 6) in
    let r1 = election_reply r0.0 higher in
    let r2 = request_vote (to_follower r1.0) (vote_for 2 7) in
    let r3 = request_vote (to_follower r2.0) (vote_for 0 7) in
    (r0.2 ≡ go_to_follower ∷ [])
    × (r1.1 ≡ go_to_follower ∷ [])
    × (r2.1.vote_granted ≡ true)
    × (r3.1.vote_granted ≡ true)
    × (r2.1.term ≡ 7)
    × (r3.1.term ≡ 7)
request_vote-to_follower-twice_example =
    request_vote-to_follower-twice standing (vote_for 0 6) higher (vote_for 2 7) (vote_for 0 7) refl
      (omega arith) (omega arith) refl refl (recent 2 7) (recent 0 7)

abbrev failed : AppendEntriesReply
failed = record {
  follower_id = 2;
  term = 2;
  last_log_index = 0;
  is_heartbeat = false;
  success = false;
}

handle_reply-replicate_example :
    (r : Raft ℕ × List (Effect ℕ) × Bool) × (handle_reply lead_peer failed ≡ some r)
    × (replicate r.0 ≡ none)
handle_reply-replicate_example =
    handle_reply-replicate lead_peer failed lead_peer-IsLogged refl (omega arith) refl (omega arith)
      (omega arith) refl
