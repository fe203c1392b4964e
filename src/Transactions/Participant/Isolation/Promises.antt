-- ===== src/Transactions/Participant/Isolation/Promises.antt =====
-- transactions-demo/server/rpc.go: a branch under two-phase commit. A transaction is promised once
-- `Prepare` has said yes; it is committed only then, and it sends no command after that.
use dist_sys_demos.Base.{
  ◌≡◌, sym, ap, ◌∙◌, subst, Bool, true, false, none, some, [], arith, if◌then◌else◌, Bool-cases,
  Option-cases, inl, inr,
}
use dist_sys_demos.Base.Dict.{Dict, lookup, insert, erase, lookup-insert, lookup-erase, lookup-nil}
use dist_sys_demos.Base.Text.{Text, text_eq, text_beq, text_beq_iff}
use dist_sys_demos.Base.Int.{ℤ, pos, ◌≤ℤ◌, int_laws}
use dist_sys_demos.Transactions.App.{Application, cache_of}
use dist_sys_demos.Transactions.App.Isolation.{IsSound}
use dist_sys_demos.Transactions.Start.{no_application}
use dist_sys_demos.Transactions.Participant.{prepare, commit}
use dist_sys_demos.Transactions.Participant.Solvency.{balance_of, commit-accounts, prepare-commit}
use dist_sys_demos.Transactions.Participant.Isolation.{Apart}
use dist_sys_demos.Transactions.Participant.Isolation.Ends.{commit-effects}
use dist_sys_demos.Transactions.Participant.Isolation.Steps.{
  Work, Work-effects, KeepsOthers-Apart, no_application-IsSound,
}
use dist_sys_demos.Transactions.Participant.Isolation.Repeatable.{Apart-SameView, prepare-same}

abbrev pub Promises : Type 0
Promises = Dict Text Bool

abbrev pub promised : Text → Promises → Bool
promised tid ps = elim (lookup tid ps) [ none ↦ false | some said ↦ said ]

pub data Agreed (branch : Text) : Promises → Application → Type 0 where
  begins : Agreed branch [] no_application
  works :
      (ps : Promises) (tid : Text) (app app1 : Application)
      → Agreed branch ps app
      → promised tid ps ≡ false
      → Work branch tid app app1
      → Agreed branch ps app1
  votes :
      (ps : Promises) (tid : Text) (app : Application)
      → Agreed branch ps app
      → Agreed branch (insert tid (prepare tid app) ps) app
  commits :
      (ps : Promises) (tid : Text) (app app1 : Application) (replied : Bool)
      → Agreed branch ps app
      → promised tid ps ≡ true
      → commit true tid app ≡ some (app1, replied)
      → Agreed branch (erase tid ps) app1
  aborts :
      (ps : Promises) (tid : Text) (app app1 : Application) (replied : Bool)
      → Agreed branch ps app
      → commit false tid app ≡ some (app1, replied)
      → Agreed branch (erase tid ps) app1

record IsAgreed (ps : Promises) (app : Application) : Type 0 where
  pub sound : IsSound app
  pub kept : (tid : Text) → promised tid ps ≡ true → prepare tid app ≡ true
  pub solvent : (a : Text) → pos 0 ≤ℤ balance_of app.committed_data a

pub promised-insert :
    (tid t : Text) (said : Bool) (ps : Promises)
    → promised t (insert tid said ps) ≡ (if text_beq tid t then said else promised t ps)
promised-insert tid t said ps = ground (arith, lookup-insert tid t said ps)

pub promised-erase :
    (tid t : Text) (ps : Promises)
    → promised t (erase tid ps) ≡ (if text_beq tid t then false else promised t ps)
promised-erase tid t ps = ground (arith, lookup-erase tid t ps)

-- A step of another transaction keeps a promise.
still_kept :
    (tid t : Text) (ps : Promises) (app app1 : Application)
    → IsAgreed ps app
    → Apart tid app app1
    → text_beq tid t ≡ false
    → promised t ps ≡ true
    → prepare t app1 ≡ true
still_kept tid t ps app app1 v apart other p =
    prepare-same t app app1 (Apart-SameView tid t app app1 v.sound other apart) ∙ v.kept t p

ended-kept :
    (tid : Text) (ps : Promises) (app app1 : Application)
    → IsAgreed ps app
    → Apart tid app app1
    → (t : Text) → promised t (erase tid ps) ≡ true
    → prepare t app1 ≡ true
ended-kept tid ps app app1 v apart t p = elim (Bool-cases (text_beq tid t)) [
  | inl eq ↦ absurd (ground (arith, promised-erase tid t ps, eq, p))
  | inr other ↦
      still_kept tid t ps app app1 v apart other (ground (arith, promised-erase tid t ps, other, p))
]

Agreed-IsAgreed :
    {branch : Text} {ps : Promises} {app : Application} → Agreed branch ps app → IsAgreed ps app
Agreed-IsAgreed {branch} begins = record {
  sound = no_application-IsSound branch;
  kept = λ tid p. absurd (ground (arith, lookup-nil {V = Bool} tid, p));
  solvent = λ a. rw (lookup-nil {V = ℤ} a) (omega int_laws);
}
Agreed-IsAgreed (works ps tid app app1 r free w) =
    let v = Agreed-IsAgreed r in
    let (v1, k) = Work-effects w v.sound in
    record {
      sound = v1;
      kept = λ t p. elim (Bool-cases (text_beq tid t)) [
        | inr other ↦ still_kept tid t ps app app1 v (KeepsOthers-Apart tid app app1 k) other p
        | inl eq ↦
            absurd (ground (arith, ap (λ u. promised u ps) ((text_beq_iff tid t).0 eq), free, p))
      ];
      solvent = λ a. subst (λ m. pos 0 ≤ℤ balance_of m a) (sym k.0) (v.solvent a);
    }
Agreed-IsAgreed (votes ps tid app r) =
    let v = Agreed-IsAgreed r in
    record {
      sound = v.sound;
      kept = λ t p. elim (Bool-cases (text_beq tid t)) [
        | inl eq ↦
            ap (λ u. prepare u app) (sym ((text_beq_iff tid t).0 eq))
            ∙ ground (arith, promised-insert tid t (prepare tid app) ps, eq, p)
        | inr other ↦
            v.kept t (ground (arith, promised-insert tid t (prepare tid app) ps, other, p))
      ];
      solvent = v.solvent;
    }
Agreed-IsAgreed (commits ps tid app app1 replied r p e) =
    let v = Agreed-IsAgreed r in
    let (v1, apart) = commit-effects true tid app app1 replied v.sound e in
    record {
      sound = v1;
      kept = ended-kept tid ps app app1 v apart;
      solvent =
          prepare-commit tid app app1 replied (v.sound.unique tid)
            (λ a free. elim (Option-cases (lookup a (cache_of app tid))) [
              | inl unchanged ↦ unchanged
              | inr (x, changed) ↦ absurd (ground (arith, v.sound.cached tid a x changed, free))
            ])
            v.solvent (v.kept tid p) e;
    }
Agreed-IsAgreed (aborts ps tid app app1 replied r e) =
    let v = Agreed-IsAgreed r in
    let (v1, apart) = commit-effects false tid app app1 replied v.sound e in
    record {
      sound = v1;
      kept = ended-kept tid ps app app1 v apart;
      solvent = λ a.
          rw ((commit-accounts false tid app app1 replied (v.sound.unique tid) e).0 a)
            (v.solvent a);
    }

-- When a branch commits only transactions to which `Prepare` has said yes, and those send no further
-- commands, then at all times, however the transactions' commands, waits, votes, commits and aborts
-- are interleaved, no committed balance is below zero, and `Prepare` would say yes again to every
-- transaction that has its yes and has not ended.
pub Agreed-solvent :
    {branch : Text} {ps : Promises} {app : Application}
    → Agreed branch ps app
    → ((a : Text) → pos 0 ≤ℤ balance_of app.committed_data a)
      × ((tid : Text) → promised tid ps ≡ true → prepare tid app ≡ true)
Agreed-solvent r = let v = Agreed-IsAgreed r in (v.solvent, v.kept)
