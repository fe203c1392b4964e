-- ===== src/Transactions/App/Views.antt =====
-- transactions-demo/server/account.go: what BALANCE, DEPOSIT and WITHDRAW do to the balances that
-- the transactions see.
use dist_sys_demos.Base.{
  ◌≡◌, refl, sym, ap, ◌∙◌, subst, Bool, true, false, ◌&&◌, not, none, some, ◌++◌, arith,
  Option-cases, Bool-cases, inl, inr, ◌⊎◌,
}
use dist_sys_demos.Base.Dict.{lookup-insert_self, Dict, lookup, insert, lookup-insert}
use dist_sys_demos.Base.Text.{Text, codes, text_eq, text_beq, text_beq_iff, itoa}
use dist_sys_demos.Base.Int.{ℤ, ◌+ℤ◌, ◌-ℤ◌, int_laws}
use dist_sys_demos.Transactions.App.{
  ◌>>=◌, Application, Accounts, Outcome, done, waits, panics, or_zero, or_empty, cache_of, is_some,
  acquire_rw_lock, reply_ok, reply_not_found, read_balance, balance, set_cache, store_deposit,
  deposit, store_withdraw, withdraw,
}
use dist_sys_demos.Transactions.App.Money.{KeepsMoney, acquire_rw_lock-keeps}
use dist_sys_demos.Transactions.App.Ready.{IsReady, Runs, acquire_rw_lock-Runs}

-- The balance of an account as a transaction sees it: what is committed, with its own changes.
abbrev pub view : Accounts → Dict Text Accounts → Text → Text → ℤ
view committed cache tid acct =
    or_zero (lookup acct committed) +ℤ or_zero (lookup acct (or_empty (lookup tid cache)))

-- What an operation has done, from given balances: if it has returned, the given relation holds of
-- its reply and the account's balance in the transaction's view, and every other view is as it was;
-- if it waits, no balance has changed. It commits nothing, and does not fail.
abbrev pub Changes :
    Accounts → Dict Text Accounts → Text → Text → (Text → ℤ → Type 0) → Outcome Text → Type 0
Changes committed cache tid acct P (done r app1) =
    (app1.committed_data ≡ committed)
    × P r (view app1.committed_data app1.cache tid acct)
    × ((t a : Text)
        → ((t ≡ tid) × (a ≡ acct))
          ⊎ (view app1.committed_data app1.cache t a ≡ view committed cache t a))
Changes committed cache tid acct P (waits app1) =
    (app1.committed_data ≡ committed) × (app1.cache ≡ cache)
Changes committed cache tid acct P panics = ⊥

view-set_self :
    (committed : Accounts) (cache : Dict Text Accounts) (tid acct : Text) (v : ℤ) (c : Accounts)
    → view committed (insert tid (insert acct v c) cache) tid acct
      ≡ or_zero (lookup acct committed) +ℤ v
view-set_self committed cache tid acct v c =
    rw (lookup-insert_self tid (insert acct v c) cache) (rw (lookup-insert_self acct v c))

view-set_other :
    (committed : Accounts) (cache : Dict Text Accounts) (tid acct : Text) (v : ℤ) (c : Accounts)
    → lookup tid cache ≡ some c
    → (t a : Text)
    → ((t ≡ tid) × (a ≡ acct))
      ⊎ (view committed (insert tid (insert acct v c) cache) t a ≡ view committed cache t a)
view-set_other committed cache tid acct v c e t a =
    rw (lookup-insert tid t (insert acct v c) cache) (elim (Bool-cases (text_beq tid t)) [
      | inl same ↦
          let p : t ≡ tid = sym ((text_beq_iff tid t).0 same) in
          rw (same, lookup-insert acct a v c)
            (elim (Bool-cases (text_beq acct a)) [
              | inl here ↦ inl (p, sym ((text_beq_iff acct a).0 here))
              | inr there ↦ inr (rw (there, ap (λ x. lookup x cache) p ∙ e))
            ])
      | inr differs ↦ inr (rw differs)
    ])

set_cache_lem :
    (tid acct : Text) (v : ℤ) (app : Application) (c : Accounts) (P : Text → ℤ → Type 0)
    → lookup tid app.cache ≡ some c
    → P reply_ok (or_zero (lookup acct app.committed_data) +ℤ v)
    → Changes app.committed_data app.cache tid acct P (set_cache tid acct v app)
unfolding set_cache
set_cache_lem tid acct v app c P e h =
    rw (e, set_cache)
      (
        refl,
        subst (P reply_ok) (sym (view-set_self app.committed_data app.cache tid acct v c)) h,
        λ t a. view-set_other app.committed_data app.cache tid acct v c e t a,
      )

-- The lock is taken first, and the rest starts from the same balances.
after_lock :
    (tid acct : Text) (is_read : Bool) (app : Application)
    (P : Accounts → Dict Text Accounts → Text → ℤ → Type 0) (f : Application → Outcome Text)
    → IsReady tid acct app
    → ((app1 : Application) (c : Accounts)
        → lookup tid app1.cache ≡ some c
        → Changes app1.committed_data app1.cache tid acct
            (P app1.committed_data app1.cache)
            (f app1))
    → Changes app.committed_data app.cache tid acct
        (P app.committed_data app.cache)
        (acquire_rw_lock tid acct is_read app >>= λ _. f)
after_lock tid acct is_read app P f ready rest =
    go (acquire_rw_lock tid acct is_read app) (acquire_rw_lock-keeps tid acct is_read app)
      (acquire_rw_lock-Runs tid acct is_read app ready)
  where
    go :
        (o : Outcome (Unit {0}))
        → KeepsMoney app o
        → Runs o
        → Changes app.committed_data app.cache tid acct
            (P app.committed_data app.cache)
            (o >>= λ _. f)
    go (done x app1) keeps runs =
        subst (λ m. Changes m app.cache tid acct (P m app.cache) (f app1)) keeps.0
          (subst (λ c. Changes app1.committed_data c tid acct (P app1.committed_data c) (f app1))
            keeps.1 (rest app1 ready.cached (ap (lookup tid) keeps.1 ∙ ready.has_cache)))
    go (waits app1) keeps runs = keeps
    go panics keeps runs = absurd runs

-- The account is committed, or the transaction has touched it.
abbrev pub IsKnown : Text → Text → Accounts → Dict Text Accounts → Type 0
IsKnown tid acct committed cache =
    ¬ ((lookup acct committed ≡ none) × (lookup acct (or_empty (lookup tid cache)) ≡ none))

-- What a deposit answers and leaves in the view, and what a withdrawal does.
abbrev pub Deposited : Text → Text → ℤ → Accounts → Dict Text Accounts → Text → ℤ → Type 0
Deposited tid acct amount committed cache r w =
    (r ≡ reply_ok) × (w ≡ view committed cache tid acct +ℤ amount)

abbrev pub Withdrawn : Text → Text → ℤ → Accounts → Dict Text Accounts → Text → ℤ → Type 0
Withdrawn tid acct amount committed cache r w =
    ((r ≡ reply_ok)
      × (w ≡ view committed cache tid acct -ℤ amount)
      × IsKnown tid acct committed cache)
    ⊎ ((r ≡ reply_not_found)
        × (w ≡ view committed cache tid acct)
        × (lookup acct committed ≡ none)
        × (lookup acct (or_empty (lookup tid cache)) ≡ none))

found-IsKnown :
    (tid acct : Text) (app : Application)
    → (not (is_some (lookup acct app.committed_data))
        && not (is_some (lookup acct (cache_of app tid))))
      ≡ false
    → IsKnown tid acct app.committed_data app.cache
found-IsKnown tid acct app h (a, b) = ground (arith, h, a, b)

store_deposit_lem :
    (tid acct : Text) (amount : ℤ) (app : Application) (c : Accounts)
    → lookup tid app.cache ≡ some c
    → Changes app.committed_data app.cache tid acct
        (Deposited tid acct amount app.committed_data app.cache)
        (store_deposit tid acct amount app)
unfolding store_deposit
store_deposit_lem tid acct amount app c e = elim (Option-cases (lookup acct (cache_of app tid))) [
  | inl untouched ↦
      rw (untouched, store_deposit)
        (set_cache_lem tid acct amount app c
          (Deposited tid acct amount app.committed_data app.cache) e
          (refl, rw untouched (omega int_laws)))
  | inr (v, touched) ↦
      rw (touched, store_deposit)
        (set_cache_lem tid acct (v +ℤ amount) app c
          (Deposited tid acct amount app.committed_data app.cache) e
          (refl, rw touched (omega int_laws)))
]

store_withdraw_lem :
    (tid acct : Text) (amount : ℤ) (app : Application) (c : Accounts)
    → lookup tid app.cache ≡ some c
    → Changes app.committed_data app.cache tid acct
        (Withdrawn tid acct amount app.committed_data app.cache)
        (store_withdraw tid acct amount app)
unfolding store_withdraw
store_withdraw_lem tid acct amount app c e =
    let known = is_some (lookup acct app.committed_data) in
    let touched = is_some (lookup acct (cache_of app tid)) in
    elim (Bool-cases (not known && not touched)) [
      | inl missing ↦
          rw (missing, store_withdraw)
            (refl, inr (refl, refl, ground arith, ground arith), λ t a. inr refl)
      | inr found ↦
          rw (found, store_withdraw)
            (set_cache_lem tid acct (or_zero (lookup acct (cache_of app tid)) -ℤ amount) app c
              (Withdrawn tid acct amount app.committed_data app.cache) e
              (inl (refl, omega int_laws, found-IsKnown tid acct app found)))
    ]

abbrev pub Balanced : Text → Text → Accounts → Dict Text Accounts → Text → ℤ → Type 0
Balanced tid acct committed cache r w =
    (w ≡ view committed cache tid acct)
    × (((r ≡ reply_not_found)
          × (lookup acct committed ≡ none)
          × (lookup acct (or_empty (lookup tid cache)) ≡ none))
        ⊎ ((r ≡ acct ++ codes " = " ++ itoa (view committed cache tid acct))
            × IsKnown tid acct committed cache))

read_balance_lem :
    (tid acct : Text) (app : Application)
    → Changes app.committed_data app.cache tid acct
        (Balanced tid acct app.committed_data app.cache)
        (done (read_balance tid acct app) app)
unfolding read_balance
read_balance_lem tid acct app =
    let known = is_some (lookup acct app.committed_data) in
    let touched = is_some (lookup acct (cache_of app tid)) in
    (
      refl,
      (
        refl,
        elim (Bool-cases (not known && not touched)) [
          | inl missing ↦ inl (rw (missing, read_balance), ground arith, ground arith)
          | inr found ↦ inr (rw (found, read_balance), found-IsKnown tid acct app found)
        ],
      ),
      λ t a. inr refl,
    )

-- For a transaction that is ready, BALANCE gets the lock or waits for it. When it returns it has
-- answered NOT FOUND if the account neither is committed nor has been touched by the transaction,
-- and otherwise the balance in the transaction's view, changes of its own included and those of
-- other transactions not; it changes no balance.
pub balance-view :
    (tid acct : Text) (app : Application)
    → IsReady tid acct app
    → Changes app.committed_data app.cache tid acct
        (Balanced tid acct app.committed_data app.cache)
        (balance tid acct app)
unfolding balance
balance-view tid acct app ready =
    after_lock tid acct true app (Balanced tid acct)
      (λ app1. done (read_balance tid acct app1) app1) ready
      (λ app1 c e. read_balance_lem tid acct app1)

-- For a transaction that is ready a deposit gets the lock or waits for it. When it returns it has
-- answered OK and raised the account's balance in the transaction's view by the amount; no other
-- balance of any transaction has changed, and nothing is committed.
pub deposit-view :
    (tid acct : Text) (amount : ℤ) (app : Application)
    → IsReady tid acct app
    → Changes app.committed_data app.cache tid acct
        (Deposited tid acct amount app.committed_data app.cache)
        (deposit tid acct amount app)
unfolding deposit
deposit-view tid acct amount app ready =
    after_lock tid acct false app (Deposited tid acct amount) (store_deposit tid acct amount) ready
      (store_deposit_lem tid acct amount)

-- For a transaction that is ready a withdrawal gets the lock or waits for it. When it returns it has
-- changed nothing and answered NOT FOUND if the account neither is committed nor has been touched by
-- the transaction, and otherwise answered OK and lowered the balance in the transaction's view by
-- the amount; no other balance of any transaction has changed, and nothing is committed.
pub withdraw-view :
    (tid acct : Text) (amount : ℤ) (app : Application)
    → IsReady tid acct app
    → Changes app.committed_data app.cache tid acct
        (Withdrawn tid acct amount app.committed_data app.cache)
        (withdraw tid acct amount app)
unfolding withdraw
withdraw-view tid acct amount app ready =
    after_lock tid acct false app (Withdrawn tid acct amount) (store_withdraw tid acct amount) ready
      (store_withdraw_lem tid acct amount)
