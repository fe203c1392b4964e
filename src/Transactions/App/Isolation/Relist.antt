-- ===== src/Transactions/App/Isolation/Relist.antt =====
-- transactions-demo/server/account.go: a transaction is listed anew with one account's lock, and
-- notes the same.
use dist_sys_demos.Base.{◌≡◌, sym, ap, ◌∙◌, Bool, true, false, some, Bool-cases, inl, inr, refl}
use dist_sys_demos.Base.Dict.{Dict, Unique, lookup, insert}
use dist_sys_demos.Base.Text.{Text, text_eq, text_beq, text_beq_iff}
use dist_sys_demos.Base.Int.{ℤ}
use dist_sys_demos.Transactions.App.Locks.{IsHeld}
use dist_sys_demos.Transactions.App.Locks.Steps.{renoted-IsLocked}
use dist_sys_demos.Transactions.App.Isolation.{
  IsSound, KeepsOthers, or_empty-insert, lock_of-insert,
}
use dist_sys_demos.Transactions.App.{Lock, Application, lock_of, cache_of, lock_info_of}

module _ (tid acct : Text) (l1 : Lock) (info info1 : Dict Text Bool) (app : Application)
    (i : lookup tid app.tx_lock_info ≡ some info)
    (others : (tid1 : Text)
      → text_beq tid tid1 ≡ false
      → lookup tid1 l1.tids ≡ lookup tid1 (lock_of app acct).tids)
    (elsewhere : (acct1 : Text)
      → text_beq acct acct1 ≡ false
      → lookup acct1 info1 ≡ lookup acct1 info)
    (here : lookup acct info1 ≡ lookup tid l1.tids)
    (writes : lookup acct info ≡ some false → lookup acct info1 ≡ some false) where
  abbrev relisted : Application
  relisted = record app {
    locks = insert acct l1 app.locks;
    tx_lock_info = insert tid info1 app.tx_lock_info;
  }

  relist-own : (tid1 : Text) → text_beq tid tid1 ≡ true → lock_info_of relisted tid1 ≡ info1
  relist-own tid1 eq = or_empty-insert tid tid1 info1 app.tx_lock_info ∙ rw eq

  relist-before : (tid1 : Text) → text_beq tid tid1 ≡ true → lock_info_of app tid1 ≡ info
  relist-before tid1 eq = ap (λ t. lock_info_of app t) (sym ((text_beq_iff tid tid1).0 eq)) ∙ rw i

  relist-other :
      (tid1 : Text) → text_beq tid tid1 ≡ false → lock_info_of relisted tid1 ≡ lock_info_of app tid1
  relist-other tid1 other = or_empty-insert tid tid1 info1 app.tx_lock_info ∙ rw other

  pub relist-KeepsOthers : KeepsOthers tid app relisted
  relist-KeepsOthers = (refl, λ tid1 other. (refl, relist-other tid1 other))

  relist-agrees :
      ((tid1 acct1 : Text)
        → lookup acct1 (lock_info_of app tid1) ≡ lookup tid1 (lock_of app acct1).tids)
      → (tid1 acct1 : Text)
      → lookup acct1 (lock_info_of relisted tid1) ≡ lookup tid1 (lock_of relisted acct1).tids
  relist-agrees v tid1 acct1 = elim (Bool-cases (text_beq tid tid1)) [
    | inl eq ↦ elim (Bool-cases (text_beq acct acct1)) [
      | inl same ↦
          ap (lookup acct1) (relist-own tid1 eq)
          ∙ ap (λ a. lookup a info1) (sym ((text_beq_iff acct acct1).0 same))
          ∙ here
          ∙ ap (λ t. lookup t l1.tids) ((text_beq_iff tid tid1).0 eq)
          ∙ ap (λ (x : Lock). lookup tid1 x.tids) (sym (found acct1 same))
      | inr away ↦
          ap (lookup acct1) (relist-own tid1 eq)
          ∙ elsewhere acct1 away
          ∙ ap (lookup acct1) (sym (relist-before tid1 eq))
          ∙ v tid1 acct1
          ∙ ap (λ (x : Lock). lookup tid1 x.tids) (sym (not_found acct1 away))
    ]
    | inr other ↦
        ap (lookup acct1) (relist-other tid1 other)
        ∙ v tid1 acct1
        ∙ elim (Bool-cases (text_beq acct acct1)) [
          | inl same ↦
              ap (λ a. lookup tid1 (lock_of app a).tids) (sym ((text_beq_iff acct acct1).0 same))
              ∙ sym (others tid1 other)
              ∙ ap (λ (x : Lock). lookup tid1 x.tids) (sym (found acct1 same))
          | inr away ↦ ap (λ (x : Lock). lookup tid1 x.tids) (sym (not_found acct1 away))
        ]
  ]
    where
      found : (acct1 : Text) → text_beq acct acct1 ≡ true → lock_of relisted acct1 ≡ l1
      found acct1 same = lock_of-insert acct acct1 l1 app ∙ rw same

      not_found :
          (acct1 : Text) → text_beq acct acct1 ≡ false → lock_of relisted acct1 ≡ lock_of app acct1
      not_found acct1 away = lock_of-insert acct acct1 l1 app ∙ rw away

  relist-cached :
      ((tid1 acct1 : Text) (x : ℤ)
        → lookup acct1 (cache_of app tid1) ≡ some x
        → lookup acct1 (lock_info_of app tid1) ≡ some false)
      → (tid1 acct1 : Text) (x : ℤ) → lookup acct1 (cache_of app tid1) ≡ some x
      → lookup acct1 (lock_info_of relisted tid1) ≡ some false
  relist-cached v tid1 acct1 x e = elim (Bool-cases (text_beq tid tid1)) [
    | inr other ↦ ap (lookup acct1) (relist-other tid1 other) ∙ v tid1 acct1 x e
    | inl eq ↦
        let before : lookup acct1 info ≡ some false =
          ap (lookup acct1) (sym (relist-before tid1 eq)) ∙ v tid1 acct1 x e in
        ap (lookup acct1) (relist-own tid1 eq) ∙ elim (Bool-cases (text_beq acct acct1)) [
          | inr away ↦ elsewhere acct1 away ∙ before
          | inl same ↦
              let p : acct ≡ acct1 = (text_beq_iff acct acct1).0 same in
              ap (λ a. lookup a info1) (sym p) ∙ writes (ap (λ a. lookup a info) p ∙ before)
        ]
  ]

  pub relist-IsSound : IsSound app → IsHeld l1 → Unique info1 → IsSound relisted
  relist-IsSound v held unique = record {
    locked =
        renoted-IsLocked tid acct l1 app others info info1 v.locked held unique i
          (λ acct1 r away h. sym (elsewhere acct1 away) ∙ h) (λ r h. sym here ∙ h);
    agrees = relist-agrees v.agrees;
    cached = relist-cached v.cached;
    unique = v.unique;
  }
