-- ===== src/Raft/Leader/Tables.antt =====
-- raft-demo/src/raft/raft.go: the leader's tables `nextIndex` and `matchIndex`, from `toLeader` on.
use mathlib.Core.Option.{some-injective}
use dist_sys_demos.Base.{
  ℕ, zero, suc, ◌+◌, ◌-◌, ◌≤◌, ◌<◌, ◌≡◌, ◌≢◌, refl, sym, ap, ◌∙◌, subst, Bool, true, false, some,
  List, [], ◌∷◌, length, length-append, length-set, get_elem?, get_elem?-some, get_elem?-set_self,
  get_elem?-set_ne, set, arith, ltb, leb, ◌==◌, if◌then◌else◌, Bool-cases, inl, inr,
}
use dist_sys_demos.Base.Int.{ℤ, pos, ◌-ℤ◌}
use dist_sys_demos.Raft.State.{
  LogEntry, Raft, Effect, AppendEntriesReply, is_leader, follower, go_commit_at, go_to_follower,
}
use dist_sys_demos.Raft.Log.{IndexedFrom-append}
use dist_sys_demos.Raft.Append.Parts.{IsLogged}
use dist_sys_demos.Raft.Leader.{tabulate, start_append, start, to_leader, commit_at, handle_reply}
use dist_sys_demos.Raft.Leader.Commit.{
  IsLeading, commit_at_lem, commits_at-lt, commit_at-old, commits_at,
}

length-tabulate {ℓ} : {A : Type ℓ} (n i : ℕ) (f : ℕ → A) → length (tabulate n i f) ≡ n
length-tabulate zero i f = refl
length-tabulate (suc n) i f = ap suc (length-tabulate n (suc i) f)

get_elem?-tabulate {ℓ} :
    {A : Type ℓ} (n i k : ℕ) (f : ℕ → A) (v : A)
    → get_elem? (tabulate n i f) k ≡ some v
    → v ≡ f (i + k)
get_elem?-tabulate zero i k f v e = cc
get_elem?-tabulate (suc n) i zero f v e = sym (some-injective (f i) v e) ∙ ap f (omega arith)
get_elem?-tabulate (suc n) i (suc k) f v e =
    get_elem?-tabulate n (suc i) k f v e ∙ ap f (omega arith)

-- At least 1.
abbrev pub IsNext : ℤ → Type 0
IsNext v = (n : ℕ) × (v ≡ pos (suc n))

set-IsNext :
    (me k si : ℕ) (next : List ℤ) (v w : ℤ)
    → ((j : ℕ) (x : ℤ) → j ≢ me → get_elem? next j ≡ some x → IsNext x)
    → k < length next
    → (k ≢ me → IsNext w)
    → si ≢ me
    → get_elem? (set next k w) si ≡ some v
    → IsNext v
set-IsNext me k si next v w h inside new other e = elim (Bool-cases (k == si)) [
  | inl same ↦
      let p : k ≡ si = ground arith in
      subst IsNext
        (some-injective w v
          (sym (get_elem?-set_self next k w inside) ∙ ap (get_elem? (set next k w)) p ∙ e))
        (new (λ q. other (sym p ∙ q)))
  | inr apart ↦ h si v other (sym (get_elem?-set_ne next k si w (ground arith)) ∙ e)
]

-- One less than a number that is at least 2.
IsNext-less : (v : ℤ) → IsNext v → v ≢ pos 1 → IsNext (v -ℤ pos 1)
unfolding ◌-ℤ◌
IsNext-less v (zero, e) h = absurd (h e)
IsNext-less v (suc n, e) h = (n, ap (λ x. x -ℤ pos 1) e ∙ ground arith)

module _ {ℓ} {C : Type ℓ} where
  -- Both tables have an entry for each peer, and the next index of every other peer is at least 1.
  pub record HasTables (rf : Raft C) : Type ℓ where
    pub logged : IsLogged rf
    pub leading : IsLeading rf
    pub nexts : length rf.next_index ≡ rf.num_peers
    pub next_in : (si : ℕ) (v : ℤ) → si ≢ rf.me → get_elem? rf.next_index si ≡ some v → IsNext v

  pub to_leader-HasTables :
      (rf : Raft C)
      → IsLogged rf
      → rf.commit_index < length rf.log
      → rf.last_applied ≤ rf.commit_index
      → HasTables (to_leader rf)
  unfolding to_leader
  to_leader-HasTables rf wf inside applied =
      let f : ℕ → ℤ = λ si. if si == rf.me then pos 0 else pos (length rf.log) in
      record {
        logged = record { indexed = wf.indexed; full = wf.full };
        leading = record {
          peers = length-tabulate rf.num_peers 0 (λ si. 0);
          commit = inside;
          applied = applied;
        };
        nexts = length-tabulate rf.num_peers 0 f;
        next_in = λ si v other e.
            let other_si : (si == rf.me) ≡ false = ground arith in
            let here : 0 + si ≡ si = omega arith in
            let some_entry : length rf.log ≡ suc (length rf.log - 1) = omega (arith, wf.full) in
            let value : f si ≡ pos (length rf.log) = rw other_si refl in
            (
              length rf.log - 1,
              get_elem?-tabulate rf.num_peers 0 si f v e
                  ∙ ap f here
                  ∙ value
                  ∙ ap (λ (n : ℕ). pos n) some_entry,
            );
      }

  pub start-HasTables : (rf : Raft C) (command : C) → HasTables rf → HasTables (start rf command).0
  unfolding start start_append
  start-HasTables rf command v = elim (Bool-cases (is_leader rf.state)) [
    | inr other ↦ rw other v
    | inl leads ↦
        let entry : LogEntry C = record {
          command = command;
          term = rf.current_term;
          index = length rf.log;
        } in
        let longer = length-append rf.log (entry ∷ []) in
        rw leads (record {
          logged = record {
            indexed = IndexedFrom-append 0 rf.log (entry ∷ []) v.logged.indexed (omega arith, tt);
            full = omega (arith, longer);
          };
          leading = record {
            peers = v.leading.peers;
            commit = omega (arith, longer, v.leading.commit);
            applied = v.leading.applied;
          };
          nexts = v.nexts;
          next_in = v.next_in;
        })
  ]

  pub commit_at-HasTables :
      (rf rf1 : Raft C) (index : ℕ) (sent : List (Effect C))
      → HasTables rf
      → index < length rf.log
      → commit_at rf index ≡ some (rf1, sent)
      → HasTables rf1
  commit_at-HasTables rf rf1 index sent v inside e = elim (Bool-cases (leb index rf.commit_index)) [
    | inl old ↦
        subst HasTables
          (ap (λ (r : Raft C × List (Effect C)). r.0)
            (some-injective _ _ (sym (commit_at-old rf index old) ∙ e)))
          v
    | inr new ↦
        let at = commits_at rf index in
        let lt = commits_at-lt rf index inside v.leading.commit (ground arith) in
        subst HasTables
          (ap (λ (r : Raft C × List (Effect C)). r.0)
            (some-injective _ _ (sym (commit_at_lem rf index v.leading (ground arith) inside) ∙ e)))
          (record {
            logged = record { indexed = v.logged.indexed; full = v.logged.full };
            leading = record { peers = v.leading.peers; commit = lt.0; applied = omega arith };
            nexts = v.nexts;
            next_in = v.next_in;
          })
  ]

  -- A reply of another peer, which does not take a next index below 1.
  abbrev pub IsReply : Raft C → AppendEntriesReply → Type 0
  IsReply rf reply =
      (reply.follower_id < rf.num_peers)
      × (reply.success ≡ false → get_elem? rf.next_index reply.follower_id ≢ some (pos 1))

  moved :
      (rf : Raft C) (ms : List ℕ) (k : ℕ) (w : ℤ)
      → HasTables rf
      → k < length rf.next_index
      → length ms ≡ length rf.match_index
      → (k ≢ rf.me → IsNext w)
      → HasTables (record rf { match_index = ms; next_index = set rf.next_index k w })
  moved rf ms k w v inside same new = record {
    logged = record { indexed = v.logged.indexed; full = v.logged.full };
    leading = record {
      peers = same ∙ v.leading.peers;
      commit = v.leading.commit;
      applied = v.leading.applied;
    };
    nexts = length-set rf.next_index k w ∙ v.nexts;
    next_in = λ si x other e. set-IsNext rf.me k si rf.next_index x w v.next_in inside new other e;
  }

  pub handle_reply-some :
      (rf : Raft C) (reply : AppendEntriesReply)
      → HasTables rf
      → reply.follower_id < rf.num_peers
      → (r : Raft C × List (Effect C) × Bool) × (handle_reply rf reply ≡ some r)
        × (IsReply rf reply → HasTables r.0)
  unfolding handle_reply
  handle_reply-some rf reply v inside =
      let k = reply.follower_id in
      let (m, em) = get_elem?-some rf.match_index k (omega (arith, v.leading.peers)) in
      let (next, en) = get_elem?-some rf.next_index k (omega (arith, v.nexts)) in
      elim (Bool-cases (ltb rf.current_term reply.term)) [
        | inl newer ↦ (
          (record rf { current_term = reply.term; state = follower }, go_to_follower ∷ [], false),
          rw newer refl,
          λ possible. record {
            logged = record { indexed = v.logged.indexed; full = v.logged.full };
            leading = record {
              peers = v.leading.peers;
              commit = v.leading.commit;
              applied = v.leading.applied;
            };
            nexts = v.nexts;
            next_in = v.next_in;
          },
        )
        | inr current ↦ elim (Bool-cases reply.success) [
          | inl ok ↦ elim (Bool-cases reply.is_heartbeat) [
            | inl beat ↦ ((rf, [], true), rw (current, ok, beat) refl, λ possible. v)
            | inr full ↦
                let w = pos (reply.last_log_index + 1) in
                let ms : List ℕ =
                  if ltb m reply.last_log_index
                  then set rf.match_index k reply.last_log_index
                  else rf.match_index in
                (
                  (
                    record rf { match_index = ms; next_index = set rf.next_index k w },
                    go_commit_at reply.last_log_index ∷ [],
                    true,
                  ),
                  rw (current, ok, full, em, en) refl,
                  λ possible.
                      moved rf ms k w v (omega (arith, v.nexts))
                        (ground (arith, length-set rf.match_index k reply.last_log_index))
                        (λ other. (reply.last_log_index, ap (λ (n : ℕ). pos n) (omega arith))),
                )
          ]
          | inr refused ↦ (
            (record rf { next_index = set rf.next_index k (next -ℤ pos 1) }, [], true),
            rw (current, refused, en) refl,
            λ possible.
                moved rf rf.match_index k (next -ℤ pos 1) v (omega (arith, v.nexts)) refl (λ other.
                  IsNext-less next (v.next_in k next other en)
                    (λ one. possible.1 refused (en ∙ ap some one))),
          )
        ]
      ]
