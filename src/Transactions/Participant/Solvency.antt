-- ===== src/Transactions/Participant/Solvency.antt =====
-- transactions-demo/server/rpc.go: what `Prepare` promises, and what `Commit` does to the accounts.
use dist_sys_demos.Base.{
  ◌≡◌, ◌≢◌, refl, ap, ◌∙◌, subst, Bool, true, false, ◌&&◌, not, none, some, [], ◌∷◌, arith,
  if◌then◌else◌, Option-cases, inl, inr, Bool-cases,
}
use dist_sys_demos.Base.Dict.{
  lookup-erase, Dict, lookup, insert, erase, lookup-insert, lookup-cons, lookup-nil, Unique,
}
use dist_sys_demos.Base.Text.{Text, text_eq, text_beq, text_beq_iff}
use dist_sys_demos.Base.Int.{ℤ, pos, ◌+ℤ◌, ◌≤ℤ◌, ltb_ℤ, int_laws}
use dist_sys_demos.Transactions.App.{
  Application, Accounts, or_zero, cache_of, lock_info_of, release_locks,
}
use dist_sys_demos.Transactions.App.Money.{release_locks-money}
use dist_sys_demos.Transactions.Participant.{
  can_commit, prepare, add_changes, apply_changes, commit,
}

-- The balance of an account, zero if it is not there.
abbrev pub balance_of : Accounts → Text → ℤ
balance_of accts a = or_zero (lookup a accts)

add_changes_lem :
    (changes committed : Accounts) (a : Text)
    → Unique changes
    → balance_of (add_changes changes committed) a ≡ balance_of committed a +ℤ balance_of changes a
unfolding add_changes
add_changes_lem [] committed a u = rw (lookup-nil a) (omega int_laws)
add_changes_lem ((k, c) ∷ changes) committed a u =
    add_changes_lem changes (insert k (balance_of committed k +ℤ c) committed) a u.1
    ∙ rw (lookup-insert k a (balance_of committed k +ℤ c) committed, lookup-cons a k c changes)
        (elim (Bool-cases (text_beq k a)) [
          | inl same ↦
              let p : k ≡ a = (text_beq_iff k a).0 same in
              let unlisted : lookup a changes ≡ none = subst (λ x. lookup x changes ≡ none) p u.0 in
              rw (same, p, unlisted) (omega int_laws)
          | inr other ↦ rw other
        ])

and_true : (a b : Bool) → a && b ≡ true → (a ≡ true) × (b ≡ true)
and_true true b h = (refl, h)
and_true false b h = cc

nonneg : (v : ℤ) → not (ltb_ℤ v (pos 0)) ≡ true → pos 0 ≤ℤ v
nonneg v h = ground arith

can_commit_lem :
    (committed changes : Accounts) (info : Dict Text Bool) (a : Text)
    → can_commit committed changes info ≡ true
    → lookup a info ≢ none
    → pos 0 ≤ℤ balance_of committed a +ℤ balance_of changes a
unfolding can_commit
can_commit_lem committed changes [] a h e = absurd (e (lookup-nil a))
can_commit_lem committed changes ((k, r) ∷ info) a h e = elim (Bool-cases (text_beq k a)) [
  | inl same ↦
      let p : k ≡ a = (text_beq_iff k a).0 same in
      subst (λ x. pos 0 ≤ℤ balance_of committed x +ℤ balance_of changes x) p
        (nonneg (balance_of committed k +ℤ balance_of changes k) (and_true _ _ h).0)
  | inr other ↦
      can_commit_lem committed changes info a (and_true _ _ h).1
        (λ gone. e (lookup-cons a k r info ∙ rw other gone))
]

pub commit-inv :
    (do_commit : Bool) (tid : Text) (app app1 : Application) (replied : Bool)
    → commit do_commit tid app ≡ some (app1, replied)
    → let app0 = apply_changes do_commit tid app in
      (release_locks tid (record app0 { cache = erase tid app0.cache }) ≡ some app1)
      × (replied ≡ false)
unfolding commit
commit-inv do_commit tid app app1 replied h = ground arith

apply_changes-balance :
    (do_commit : Bool) (tid : Text) (app : Application) (a : Text)
    → Unique (cache_of app tid)
    → balance_of (apply_changes do_commit tid app).committed_data a ≡ (
        if do_commit
        then balance_of app.committed_data a +ℤ balance_of (cache_of app tid) a
        else balance_of app.committed_data a)
apply_changes-balance true tid app a u = add_changes_lem (cache_of app tid) app.committed_data a u
apply_changes-balance false tid app a u = refl

lookup-erase_self : (tid : Text) (m : Dict Text Accounts) → lookup tid (erase tid m) ≡ none
lookup-erase_self tid m = rw (lookup-erase tid tid m, (text_beq_iff tid tid).1 refl)

-- A `Commit` that returns, for a transaction whose changes list each account once: a commit adds
-- the changes to the accounts, an abort leaves the accounts alone, and both drop the changes. The
-- reply never says that the branch has committed.
pub commit-accounts :
    (do_commit : Bool) (tid : Text) (app app1 : Application) (replied : Bool)
    → Unique (cache_of app tid)
    → commit do_commit tid app ≡ some (app1, replied)
    → ((a : Text)
        → balance_of app1.committed_data a ≡ (
            if do_commit
            then balance_of app.committed_data a +ℤ balance_of (cache_of app tid) a
            else balance_of app.committed_data a))
      × (lookup tid app1.cache ≡ none)
      × (replied ≡ false)
commit-accounts do_commit tid app app1 replied u h =
    let app0 = apply_changes do_commit tid app in
    let (released, unset) = commit-inv do_commit tid app app1 replied h in
    let same =
      release_locks-money tid (record app0 { cache = erase tid app0.cache }) app1 released in
    (
      λ a. ap (λ m. balance_of m a) same.0 ∙ apply_changes-balance do_commit tid app a u,
      ap (lookup tid) same.1 ∙ lookup-erase_self tid app0.cache,
      unset,
    )

-- After a yes to PREPARE a commit that returns leaves no account below zero, if none was before and
-- the transaction has locked every account that it has changed, each of which it lists once.
pub prepare-commit :
    (tid : Text) (app app1 : Application) (replied : Bool)
    → Unique (cache_of app tid)
    → ((a : Text) → lookup a (lock_info_of app tid) ≡ none → lookup a (cache_of app tid) ≡ none)
    → ((a : Text) → pos 0 ≤ℤ balance_of app.committed_data a)
    → prepare tid app ≡ true
    → commit true tid app ≡ some (app1, replied)
    → (a : Text) → pos 0 ≤ℤ balance_of app1.committed_data a
unfolding prepare
prepare-commit tid app app1 replied u covered before yes_vote run a =
    rw ((commit-accounts true tid app app1 replied u run).0 a)
      (elim (Option-cases (lookup a info)) [
        | inl free ↦ rw (covered a free) (omega (int_laws, before a))
        | inr (r, held) ↦
            can_commit_lem app.committed_data (cache_of app tid) info a yes_vote (λ e. ground arith)
      ])
  where
    info : Dict Text Bool
    info = lock_info_of app tid
