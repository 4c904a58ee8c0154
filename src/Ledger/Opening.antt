-- ===== src/Ledger/Opening.antt =====
-- internal/db/account_tx.go: `CreateAccountTx` and the ledger.
use simplebank.Ledger.Accounts.{sum_balances}
use simplebank.Ledger.Entries.{entries_of, Balanced, Known}
use simplebank.Ledger.Invariant.{IsLedger}
use simplebank.Store.Exec.{exec_tx-err, exec_tx-ok, exec_tx, exec_tx-eq-ok}
use simplebank.Sqlc.Effects.{create_entry-EntryCreated}
use simplebank.Sqlc.Tx.{>>=-eq-ok, step-eq-ok}
use simplebank.Currency.{max_safe_minor_units}
use simplebank.Errors.{err, Result, classify_error, ok}
use simplebank.Sqlc.Entries.{create_entry, entry_row}
use simplebank.Prelude.{
  int_laws, ==_refl, sym, refl, ◌∙◌, [], ◌+ℤ◌, ◌==◌, eqb_ℤ_iff, ℤ, All, ℕ, subst, ap, true, false,
  inr, exists, inl, ◌≤ℤ◌, Bool-cases, arith, ◌∷◌, eqb_ℤ, pos, if◌then◌else◌, ◌≡◌, List,
}
use simplebank.Store.Account.{create_account_body, create_account_tx, opening_entry}
use simplebank.Sqlc.Accounts.{
  username_is, owner_currency_is, account_id_is, account_row, CreateAccountParams, create_account,
}
use simplebank.Sqlc.Models.{Account, Entry, Db, Pg}

pub record AccountOpened (pg : Pg) (arg : CreateAccountParams) (db : Db) (a : Account)
    : Type 0 where
  pub row : a ≡ account_row (pg.uuidv7 0) pg.now arg
  pub nonnegative : pos 0 ≤ℤ arg.balance
  pub safe : arg.balance ≤ℤ max_safe_minor_units
  pub id_new : exists (account_id_is (pg.uuidv7 0)) db.accounts ≡ false
  pub owner_currency_new : exists (owner_currency_is arg.owner arg.currency) db.accounts ≡ false
  pub owner_known : exists (username_is arg.owner) db.users ≡ true

create_account-AccountOpened :
    (pg : Pg) (arg : CreateAccountParams) (db : Db) {a : Account} {db' : Db}
    → create_account (pg.uuidv7 0) pg.now arg db ≡ ok (a, db')
    → AccountOpened pg arg db a
      × (db' ≡ record db { accounts = account_row (pg.uuidv7 0) pg.now arg ∷ db.accounts })
unfolding create_account
create_account-AccountOpened pg arg db h = ground arith

abbrev pub opening : Pg → CreateAccountParams → Entry
opening pg arg =
    entry_row (pg.uuidv7 1) pg.now (record { account_id = pg.uuidv7 0; amount = arg.balance })

-- The entries after the account was opened.
abbrev pub opened_entries : Pg → CreateAccountParams → List Entry → List Entry
opened_entries pg arg es = if eqb_ℤ arg.balance (pos 0) then es else opening pg arg ∷ es

abbrev pub opened : Pg → CreateAccountParams → Db → Db
opened pg arg db = record db {
  accounts = account_row (pg.uuidv7 0) pg.now arg ∷ db.accounts;
  entries = opened_entries pg arg db.entries;
}

opening_entry-eq-ok :
    (pg : Pg) (arg : CreateAccountParams) (a : Account) (db : Db) {db' : Db}
    → a.id ≡ pg.uuidv7 0
    → opening_entry pg arg.balance a db ≡ ok (tt, db')
    → db' ≡ record db { entries = opened_entries pg arg db.entries }
unfolding opening_entry
opening_entry-eq-ok pg arg a db same h = elim (Bool-cases (eqb_ℤ arg.balance (pos 0))) [
  | inl empty ↦ ground arith
  | inr filled ↦
      let (e, db1, e1, h1) =
        step-eq-ok classify_error
          (create_entry (pg.uuidv7 1) pg.now (record { account_id = a.id; amount = arg.balance })) _
          (rw filled at h) in
      let x = create_entry-EntryCreated (pg.uuidv7 1) pg.now _ db e1 in ground arith
]

pub create_account_tx-AccountOpened :
    (pg : Pg) (arg : CreateAccountParams) (db : Db) {a : Account} {db' : Db}
    → create_account_tx pg arg db ≡ (ok a, db')
    → AccountOpened pg arg db a × (db' ≡ opened pg arg db)
unfolding create_account_tx create_account_body
create_account_tx-AccountOpened pg arg db {a} {db'} h =
    let (done, e, same) = exec_tx-eq-ok (create_account_body pg arg) h in
    let (b, db1, e1, h1) =
      step-eq-ok classify_error (create_account (pg.uuidv7 0) pg.now arg) _ e in
    let (_, db2, e2, h2) = >>=-eq-ok (opening_entry pg arg.balance b) _ h1 in
    let x = create_account-AccountOpened pg arg db e1 in
    let y = opening_entry-eq-ok pg arg b db1 (ap (λ (c : Account). c.id) x.0.row) e2 in
    (subst (AccountOpened pg arg db) (ground arith) x.0, ground arith)

-- An id that no account has is named by no entry.
entries_of_unknown :
    (id : ℕ) (rows : List Account) (es : List Entry)
    → exists (account_id_is id) rows ≡ false
    → All (Known rows) es
    → entries_of id es ≡ pos 0
entries_of_unknown id rows [] new known = refl
entries_of_unknown id rows (e ∷ es) new known = elim (Bool-cases (e.account_id == id)) [
  | inl hit ↦
      let same : e.account_id ≡ id = ground arith in
      cc (ap (λ i. exists (account_id_is i) rows) same, known.0, new)
  | inr miss ↦ rw miss (entries_of_unknown id rows es new known.1)
]

Known-new :
    (a : Account) (rows : List Account) (es : List Entry)
    → All (Known rows) es
    → All (Known (a ∷ rows)) es
Known-new a rows [] known = tt
Known-new a rows (e ∷ es) known = (ground arith, Known-new a rows es known.1)

-- An entry of a new account leaves the other balances balanced.
Balanced-new :
    (e : Entry) (es : List Entry) (rows : List Account)
    → exists (account_id_is e.account_id) rows ≡ false
    → All (Balanced es) rows
    → All (Balanced (e ∷ es)) rows
Balanced-new e es [] new all = tt
Balanced-new e es (a ∷ rows) new all = ground (arith, Balanced-new e es rows)

module _ (pg : Pg) (arg : CreateAccountParams) (db : Db) {a : Account} (l : IsLedger db)
    (x : AccountOpened pg arg db a) where
  abbrev row : Account
  row = account_row (pg.uuidv7 0) pg.now arg

  no_entries : entries_of (pg.uuidv7 0) db.entries ≡ pos 0
  no_entries = entries_of_unknown (pg.uuidv7 0) db.accounts db.entries x.id_new l.known

  -- The two shapes of the table of entries.
  entries_cases :
      (P : List Entry → Type 0)
      → (arg.balance ≡ pos 0 → P db.entries)
      → P (opening pg arg ∷ db.entries)
      → P (opened_entries pg arg db.entries)
  entries_cases P empty filled = elim (Bool-cases (eqb_ℤ arg.balance (pos 0))) [
    | inl z ↦
        subst (λ b. P (if b then db.entries else opening pg arg ∷ db.entries)) (sym z)
          (empty ((eqb_ℤ_iff arg.balance (pos 0)).0 z))
    | inr nz ↦
        subst (λ b. P (if b then db.entries else opening pg arg ∷ db.entries)) (sym nz) filled
  ]

  opened-Balanced : All (Balanced (opened_entries pg arg db.entries)) (row ∷ db.accounts)
  opened-Balanced =
      entries_cases (λ es. All (Balanced es) (row ∷ db.accounts))
        (λ z. (z ∙ sym no_entries, l.balanced))
        (own, Balanced-new (opening pg arg) db.entries db.accounts x.id_new l.balanced)
    where
      own : arg.balance ≡ entries_of (pg.uuidv7 0) (opening pg arg ∷ db.entries)
      own = rw (==_refl (pg.uuidv7 0)) (rw no_entries (omega int_laws))

  opened-Known : All (Known (row ∷ db.accounts)) (opened_entries pg arg db.entries)
  opened-Known =
      entries_cases (All (Known (row ∷ db.accounts)))
        (λ z. Known-new row db.accounts db.entries l.known)
        (ground arith, Known-new row db.accounts db.entries l.known)

  opened-IsLedger : IsLedger (opened pg arg db)
  opened-IsLedger = record {
    unique = (x.id_new, l.unique);
    in_range = (record { nonnegative = x.nonnegative; safe = x.safe }, l.in_range);
    balanced = opened-Balanced;
    known = opened-Known;
    keys = l.keys;
    amounts = l.amounts;
  }

-- The money that came into the ledger: the opening balance, if the account was created.
abbrev pub brought : Result Account → ℤ
brought (ok a) = a.balance
brought (err e) = pos 0

-- From a database whose ledger is in order, whatever `CreateAccountTx` answers, the ledger stays
-- in order, and the sum of all balances grows by exactly the opening balance of the account that
-- was created.
pub create_account_tx-IsLedger :
    (pg : Pg) (arg : CreateAccountParams) (db : Db)
    → IsLedger db
    → let (r, db') = create_account_tx pg arg db in
      IsLedger db' × (sum_balances db'.accounts ≡ sum_balances db.accounts +ℤ brought r)
unfolding create_account_tx
create_account_tx-IsLedger pg arg db l = go (create_account_body pg arg db) refl
  where
    Kept : Result Account × Db → Type 0
    Kept (r, db') =
        IsLedger db' × (sum_balances db'.accounts ≡ sum_balances db.accounts +ℤ brought r)

    go :
        (y : Result (Account × Db))
        → create_account_body pg arg db ≡ y
        → Kept (exec_tx (create_account_body pg arg) db)
    go (ok (a, db')) e =
        let h = exec_tx-ok (create_account_body pg arg) e in
        let (x, same) = create_account_tx-AccountOpened pg arg db h in
        subst Kept (sym h) (
          subst
            (λ (d : Db).
              IsLedger d × (sum_balances d.accounts ≡ sum_balances db.accounts +ℤ a.balance))
            (sym same)
            (
              opened-IsLedger pg arg db l x,
              rw (ap (λ (c : Account). c.balance) x.row) (omega int_laws),
            ))
    go (err x) e = subst Kept (sym (exec_tx-err (create_account_body pg arg) e)) (l, omega int_laws)
