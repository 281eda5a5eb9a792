-- ===== src/Commissions/Tests.antt =====
-- Requests to the commission routes, and the theorems at concrete inputs.
use moneybee_backend.Base.{ltb, ◌+◌, ◌≡◌, refl, String, none, some, List, [], ◌∷◌}
use moneybee_backend.Base.Int.{pos, negsuc, difference}
use moneybee_backend.Base.Action.{err}
use moneybee_backend.Commissions.Rows.{
  CommissionStatus, SplitStatus, CommissionSplit, CommissionDb, PayloadHash, AdjustmentInput,
  ReceiptInput, CommissionProblem, split_row, adjustments_total, split_total,
}
use moneybee_backend.Commissions.Records.{with_commission, record_for}
use moneybee_backend.Commissions.Amounts.{
  create_commission_adjustment, adjust, record_commission_receipt, receive,
}
use moneybee_backend.Commissions.Requests.{Request, adjusts, receives, pays, serve}
use moneybee_backend.Commissions.Account.{Account, Moves, Covers, account, asked}
use moneybee_backend.Commissions.Whole.{Solvent}
use moneybee_backend.Commissions.Refinement.{
  serve-Moves, serve_all, serve_all-Covers, serve_all-Solvent,
}
use moneybee_backend.Commissions.Replays.{serve_again}
use moneybee_backend.Commissions.First.{Decides, serve-Decides}
use moneybee_backend.Commissions.Payouts.{serve_all-paid}

abbrev share : CommissionSplit
share = record {
  id = 9;
  commission_id = 4;
  recipient_type = "AFFILIATE";
  recipient_reference = "aff-1";
  percentage = none;
  amount = 30000;
  status = SplitStatus.paid;
  paid_at = some 50;
  payment_reference = some "wire-1";
}

abbrev earned : CommissionDb
earned = record {
  commissions =
      record {
        id = 4;
        funding_id = 2;
        expected_amount = 100000;
        received_amount = 40000;
        status = CommissionStatus.partially_received;
      }
      ∷ [];
  adjustments = [];
  splits = share ∷ [];
  records = [];
  audit = [];
  uuid4 = λ n. n + 100;
  generated = 0;
  rounds_up = λ z rest. ltb 4 rest;
}

abbrev hashes : PayloadHash
hashes = record {
  of_adjustment = λ p. p.reason;
  of_receipt = λ p. "receipt";
  of_split = λ p. p.recipient_reference;
  of_payment = λ p. p.payment_reference;
}

abbrev too_deep : AdjustmentInput
too_deep = record {
  adjustment_type = "CLAWBACK";
  amount = record { cents = negsuc 69999; rest = 0 };
  reason = "clawback";
}

abbrev clawback : AdjustmentInput
clawback = record {
  adjustment_type = "CLAWBACK";
  amount = record { cents = negsuc 59999; rest = 0 };
  reason = "clawback";
}

-- 700.00 less leaves 300.00, below the 400.00 that were received
refuses_deep_clawback :
    (serve hashes "ops" "key-0001" (adjusts 4 too_deep) earned).0
    ≡ err CommissionProblem.receipts_exceed_net
unfolding serve create_commission_adjustment with_commission record_for adjust difference
    adjustments_total
refuses_deep_clawback = refl

abbrev requests : List (String × String × Request)
requests =
    ("ops", "key-0001", adjusts 4 clawback)
    ∷ (
      "ops",
      "key-0002",
      receives 4 (record { amount = record { cents = 1; rest = 0 }; reference = none }),
    )
    ∷ ("ops", "key-0003", pays 4 9 (record { paid_at = 70; payment_reference = "wire-2" }))
    ∷ []

abbrev start : Account
start = record {
  net = pos 100000;
  received_amount = 40000;
  shares = 30000;
  status = CommissionStatus.partially_received;
}

-- a tenth of a cent is the unit of the rests here
abbrev odd : ReceiptInput
odd = record { amount = record { cents = 59999; rest = 6 }; reference = none }

-- the last 599.996 of 1000.00 are stored as 600.00, and the status does not say so
keeps_odd_status :
    account 4 (serve hashes "ops" "key-0004" (receives 4 odd) earned).1
    ≡ some (record {
      net = pos 100000;
      received_amount = 100000;
      shares = 30000;
      status = CommissionStatus.partially_received;
    })
unfolding serve record_commission_receipt with_commission record_for receive difference
    adjustments_total split_total
keeps_odd_status = refl

serve-Moves_example :
    Moves
      (receives 4 odd)
      4
      (account 4 earned)
      (account 4 (serve hashes "ops" "key-0004" (receives 4 odd) earned).1)
serve-Moves_example = serve-Moves hashes "ops" "key-0004" (receives 4 odd) earned 4

serve_all-Covers_example :
    (b : Account) × (account 4
        (serve_all hashes (("ops", "key-0004", receives 4 odd) ∷ requests) earned)
      ≡ some b)
    × Covers b
unfolding difference adjustments_total split_total
serve_all-Covers_example =
    serve_all-Covers hashes (("ops", "key-0004", receives 4 odd) ∷ requests) earned 4 start refl
      (refl, refl)

serve_all-Solvent_example :
    (b : Account) × (account 4 (serve_all hashes requests earned) ≡ some b) × Solvent b
unfolding difference adjustments_total split_total
serve_all-Solvent_example =
    serve_all-Solvent hashes requests earned 4 start (refl, (refl, (refl, tt))) refl
      (refl, (refl, refl), refl)

serve-Decides_example :
    Decides (asked (receives 4 odd)) start 4 (serve hashes "ops" "key-0004" (receives 4 odd) earned)
unfolding record_for difference adjustments_total split_total
serve-Decides_example =
    serve-Decides hashes "ops" "key-0004" (receives 4 odd) earned start refl refl refl

serve_again_example :
    serve hashes "ops" "key-0001"
      (adjusts 4 clawback)
      (serve hashes "ops" "key-0001" (adjusts 4 clawback) earned).1
    ≡ serve hashes "ops" "key-0001" (adjusts 4 clawback) earned
serve_again_example = serve_again hashes "ops" "key-0001" (adjusts 4 clawback) earned (refl, refl)

serve_all-paid_example : split_row 9 (serve_all hashes requests earned).splits ≡ some share
serve_all-paid_example = serve_all-paid hashes requests earned 9 share refl refl
