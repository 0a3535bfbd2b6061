-- ===== src/Examples/SignAndSend.antt =====
-- Calls of `signAndSend`.
use terra_ledger.Base.{refl, [], some, text}
use terra_ledger.Errors.{string}
use terra_ledger.SignAndSend.{fulfilled, rejected, sign_and_send, initial, begin, apply_all, settle}
use terra_ledger.SignAndSend.Calls.{Shows, sign_and_send-Shows}
use terra_ledger.SignAndSend.Interleaved.{
  Config, begins, settles, Reachable, start, next, Consistent, Reachable-Consistent,
}
use terra_ledger.Examples.Samples.{farmer}

sign_and_send-Shows_example :
    Shows
      (sign_and_send (λ instructions fee_payer. fulfilled (text "5sig")) (some farmer) [] initial).1
      initial
      (sign_and_send (λ instructions fee_payer. fulfilled (text "5sig")) (some farmer) [] initial).0
sign_and_send-Shows_example =
    sign_and_send-Shows (λ instructions fee_payer. fulfilled (text "5sig")) (some farmer) [] initial

-- a call that begins, and a second one that begins and is rejected before the first is done
abbrev one : Config
one = record { hook = apply_all (begin (some farmer)).0 initial; pending = 1 }

abbrev two : Config
two = record { hook = apply_all (begin (some farmer)).0 one.hook; pending = 2 }

abbrev refused : Config
refused = record {
  hook = apply_all (settle (rejected (string (text "no")))).0 two.hook;
  pending = 1;
}

abbrev sent : Config
sent = record { hook = apply_all (settle (fulfilled (text "5sig"))).0 refused.hook; pending = 0 }

sent-Reachable : Reachable sent
sent-Reachable =
    next refused sent
      (next two refused (next one two (next _ one start (begins farmer)) (begins farmer))
        (settles 1 (rejected (string (text "no"))) refl))
      (settles 0 (fulfilled (text "5sig")) refl)

Reachable-Consistent_example : Consistent sent
Reachable-Consistent_example = Reachable-Consistent sent sent-Reachable
