-- ===== src/Tests/Clients.antt =====
-- internal/db/transfer_tx.go: two clients that run transfers beside each other.
use simplebank.Store.Transfer.Interleaved.Apart.{locked_transfers_apart, is_party}
use simplebank.Prelude.{false, ◌≡◌, refl, arith}
use simplebank.Store.Transfer.{TransferTxParams}
use simplebank.Store.Transfer.Interleaved.{
  locked, takes_second, System, over, locks_first, Reach, idle, later, advances, begins,
  takes_first, Advance, set_phase, locks_second,
}
use simplebank.Store.Transfer.Interleaved.NoDeadlock.{transfers_never_deadlock}
use simplebank.Tests.{bank, payment, pg}

-- Bob pays Alice, while she pays him.
abbrev back : TransferTxParams
back = record payment { from_account_id = 20; to_account_id = 10 }

abbrev elsewhere : TransferTxParams
elsewhere = record payment { from_account_id = 30; to_account_id = 40 }

-- Alice's transfer has the first lock, for which Bob's waits.
abbrev contended : System
contended = record {
  db = bank;
  phase =
      set_phase (set_phase (set_phase (λ i. over) 0 (locks_first payment)) 1 (locks_first back)) 0
        (locks_second payment);
}

contended_reached : Reach 2 bank contended
contended_reached =
    later
      (later (later idle (begins _ 0 payment (omega arith) refl))
        (begins _ 1 back (omega arith) refl))
      (advances (takes_first _ 0 payment (omega arith) refl (λ j low other. ground arith)))

transfers_never_deadlock_example : (t : System) × Advance 2 contended t
transfers_never_deadlock_example =
    transfers_never_deadlock (pg 1_000) contended_reached 1 (omega arith) (λ e. cc e)

-- Two transfers that have their locks.
abbrev apart : System
apart = record {
  db = bank;
  phase =
      set_phase
        (set_phase
          (set_phase
            (set_phase
              (set_phase (set_phase (λ i. over) 0 (locks_first payment)) 1 (locks_first elsewhere))
              0 (locks_second payment))
            1 (locks_second elsewhere))
          0 (locked payment))
        1 (locked elsewhere);
}

both_begun : Reach 2 bank (record {
  db = bank;
  phase = set_phase (set_phase (λ i. over) 0 (locks_first payment)) 1 (locks_first elsewhere);
})
both_begun =
    later (later idle (begins _ 0 payment (omega arith) refl))
      (begins _ 1 elsewhere (omega arith) refl)

apart_reached : Reach 2 bank apart
apart_reached =
    later
      (later
        (later
          (later both_begun
            (advances (takes_first _ 0 payment (omega arith) refl (λ j low other. ground arith))))
          (advances (takes_first _ 1 elsewhere (omega arith) refl (λ j low other. ground arith))))
        (advances (takes_second _ 0 payment (omega arith) refl (λ j low other. ground arith))))
      (advances (takes_second _ 1 elsewhere (omega arith) refl (λ j low other. ground arith)))

locked_transfers_apart_example : is_party elsewhere 20 ≡ false
locked_transfers_apart_example =
    locked_transfers_apart apart_reached 0 1 20 (omega arith) (omega arith) (λ e. cc e) refl refl
      refl
