-- ===== src/Transactions/App/Isolation/Stores.antt =====
-- transactions-demo/server/account.go: `Deposit`, `Withdraw` and `Balance` keep locks and notes in
-- agreement, and change only what their transaction has noted as written.
use dist_sys_demos.Base.{
  ◌≡◌, refl, sym, ap, ◌∙◌, true, false, not, ◌&&◌, some, Bool-cases, Option-cases, inl, inr, subst,
}
use dist_sys_demos.Base.Dict.{Unique, Unique-insert, lookup, insert, lookup-insert}
use dist_sys_demos.Base.Text.{Text, text_eq, text_beq, text_beq_iff}
use dist_sys_demos.Base.Int.{ℤ}
use dist_sys_demos.Transactions.App.{
  Application, done, cache_of, lock_info_of, acquire_rw_lock, set_cache, store_deposit,
  store_withdraw, deposit, withdraw, balance, read_balance, is_some,
}
use dist_sys_demos.Transactions.App.Isolation.{IsSound, Does, Does-bind, or_empty-insert}
use dist_sys_demos.Transactions.App.Isolation.Acquire.{Granted, acquire_rw_lock-Does}

set_cache-Does :
    (tid acct : Text) (x : ℤ) (app : Application)
    → IsSound app
    → Granted tid acct false app
    → Does tid (Granted tid acct false) app (set_cache tid acct x app)
unfolding set_cache
set_cache-Does tid acct x app v noted = elim (Option-cases (lookup tid app.cache)) [
  | inl unknown ↦ rw (unknown, Does) tt
  | inr (c, known) ↦
      let app1 : Application = record app { cache = insert tid (insert acct x c) app.cache } in
      let before : cache_of app tid ≡ c = rw known refl in
      let old = λ (t : Text) (other : text_beq tid t ≡ false).
        or_empty-insert tid t (insert acct x c) app.cache ∙ rw other in
      let new = λ (t : Text) (eq : text_beq tid t ≡ true).
        or_empty-insert tid t (insert acct x c) app.cache ∙ rw eq in
      rw (known, Does)
        (
          record {
            locked = record {
              locks = v.locked.locks;
              unique = v.locked.unique;
              noted = v.locked.noted;
            };
            agrees = v.agrees;
            cached = λ t acct1 y h. elim (Bool-cases (text_beq tid t)) [
              | inr other ↦ v.cached t acct1 y (ap (lookup acct1) (sym (old t other)) ∙ h)
              | inl eq ↦
                  let p : tid ≡ t = (text_beq_iff tid t).0 eq in
                  let h1 : lookup acct1 (insert acct x c) ≡ some y =
                    ap (lookup acct1) (sym (new t eq)) ∙ h in
                  subst (λ u. lookup acct1 (lock_info_of app u) ≡ some false) p
                    (elim (Bool-cases (text_beq acct acct1)) [
                      | inl same ↦
                          subst (λ a. lookup a (lock_info_of app tid) ≡ some false)
                            ((text_beq_iff acct acct1).0 same) noted
                      | inr away ↦ v.cached tid acct1 y (
                          ap (lookup acct1) before
                          ∙ sym (lookup-insert acct acct1 x c ∙ rw away)
                          ∙ h1)
                    ])
            ];
            unique = λ t. elim (Bool-cases (text_beq tid t)) [
              | inr other ↦ subst Unique (sym (old t other)) (v.unique t)
              | inl eq ↦
                  subst Unique (sym (new t eq))
                    (Unique-insert acct x c (subst Unique before (v.unique tid)))
            ];
          },
          (refl, λ t other. (old t other, refl)),
          noted,
        )
]

pub store_deposit-Does :
    (tid acct : Text) (x : ℤ) (app : Application)
    → IsSound app
    → Granted tid acct false app
    → Does tid (Granted tid acct false) app (store_deposit tid acct x app)
unfolding store_deposit
store_deposit-Does tid acct x app v noted = elim (Option-cases (lookup acct (cache_of app tid))) [
  | inl first ↦ rw (first, Does) (set_cache-Does tid acct x app v noted)
  | inr (y, later) ↦ rw (later, Does) (set_cache-Does tid acct _ app v noted)
]

pub store_withdraw-Does :
    (tid acct : Text) (x : ℤ) (app : Application)
    → IsSound app
    → Granted tid acct false app
    → Does tid (Granted tid acct false) app (store_withdraw tid acct x app)
unfolding store_withdraw
store_withdraw-Does tid acct x app v noted =
    elim (Bool-cases (
      not (is_some (lookup acct app.committed_data))
      && not (is_some (lookup acct (cache_of app tid))))) [
        | inl missing ↦ rw (missing, Does) (v, (refl, λ t other. (refl, refl)), noted)
        | inr known ↦ rw (known, Does) (set_cache-Does tid acct _ app v noted)
      ]

pub deposit-Does :
    (tid acct : Text) (x : ℤ) (app : Application)
    → IsSound app
    → Does tid (Granted tid acct false) app (deposit tid acct x app)
unfolding deposit
deposit-Does tid acct x app v =
    Does-bind tid (Granted tid acct false) (Granted tid acct false) app
      (acquire_rw_lock tid acct false app) (λ _. store_deposit tid acct x)
      (acquire_rw_lock-Does tid acct false app v) (λ _. store_deposit-Does tid acct x)

pub withdraw-Does :
    (tid acct : Text) (x : ℤ) (app : Application)
    → IsSound app
    → Does tid (Granted tid acct false) app (withdraw tid acct x app)
unfolding withdraw
withdraw-Does tid acct x app v =
    Does-bind tid (Granted tid acct false) (Granted tid acct false) app
      (acquire_rw_lock tid acct false app) (λ _. store_withdraw tid acct x)
      (acquire_rw_lock-Does tid acct false app v) (λ _. store_withdraw-Does tid acct x)

pub balance-Does :
    (tid acct : Text) (app : Application)
    → IsSound app
    → Does tid (Granted tid acct true) app (balance tid acct app)
unfolding balance
balance-Does tid acct app v =
    Does-bind tid (Granted tid acct true) (Granted tid acct true) app
      (acquire_rw_lock tid acct true app) (λ _ app1. done (read_balance tid acct app1) app1)
      (acquire_rw_lock-Does tid acct true app v)
      (λ _ app1 w noted. (w, (refl, λ t other. (refl, refl)), noted))

pub read_balance-same :
    (tid acct : Text) (app app1 : Application)
    → cache_of app1 tid ≡ cache_of app tid
    → lookup acct app1.committed_data ≡ lookup acct app.committed_data
    → read_balance tid acct app1 ≡ read_balance tid acct app
unfolding read_balance
read_balance-same tid acct app app1 c m = rw (c, m) refl
