-- ===== src/Raft/Cluster/Terms.antt =====
-- raft-demo/src/raft: logs whose entries have terms up to a given one.
use dist_sys_demos.Base.{
  ℕ, zero, suc, ◌≤◌, List, [], ◌∷◌, ◌++◌, take, drop, arith, ◌==◌, Bool-cases, inl, inr,
}
use dist_sys_demos.Raft.State.{LogEntry, Raft, AppendEntriesArgs}
use dist_sys_demos.Raft.Append.Merge.{overlay}
use dist_sys_demos.Raft.Append.Parts.{IsLogged, IsCall}

module _ {ℓ} {C : Type ℓ} where
  abbrev pub UpTo : ℕ → List (LogEntry C) → Type 0
  UpTo t [] = Unit
  UpTo t (x ∷ log) = (x.term ≤ t) × UpTo t log

  pub UpTo-le : (s t : ℕ) (log : List (LogEntry C)) → s ≤ t → UpTo s log → UpTo t log
  UpTo-le s t [] le h = tt
  UpTo-le s t (x ∷ log) le h = (omega (arith, h.0), UpTo-le s t log le h.1)

  pub UpTo-append :
      (t : ℕ) (log es : List (LogEntry C)) → UpTo t log → UpTo t es → UpTo t (log ++ es)
  UpTo-append t [] es h k = k
  UpTo-append t (x ∷ log) es h k = (h.0, UpTo-append t log es h.1 k)

  pub UpTo-take : (t n : ℕ) (log : List (LogEntry C)) → UpTo t log → UpTo t (take n log)
  UpTo-take t zero log h = tt
  UpTo-take t (suc n) [] h = tt
  UpTo-take t (suc n) (x ∷ log) h = (h.0, UpTo-take t n log h.1)

  pub UpTo-drop : (t n : ℕ) (log : List (LogEntry C)) → UpTo t log → UpTo t (drop n log)
  UpTo-drop t zero log h = h
  UpTo-drop t (suc n) [] h = tt
  UpTo-drop t (suc n) (x ∷ log) h = UpTo-drop t n log h.1

  pub UpTo-overlay :
      (t : ℕ) (log es : List (LogEntry C)) → UpTo t log → UpTo t es → UpTo t (overlay log es)
  unfolding overlay
  UpTo-overlay t [] es h k = k
  UpTo-overlay t (x ∷ log) [] h k = h
  UpTo-overlay t (x ∷ log) (e ∷ es) h k = elim (Bool-cases (x.term == e.term)) [
    | inl same ↦ rw same (h.0, UpTo-overlay t log es h.1 k.1)
    | inr other ↦ rw other k
  ]

  -- The log is not empty, its entries carry their positions, and none is of a later term than the
  -- peer's.
  pub record IsPeer (rf : Raft C) : Type ℓ where
    pub logged : IsLogged rf
    pub terms : UpTo rf.current_term rf.log

  -- The entries of the call follow on the one that it names, and none is of a later term than the
  -- call's.
  pub record IsSent (args : AppendEntriesArgs C) : Type ℓ where
    pub call : IsCall args
    pub terms : UpTo args.term args.entries
