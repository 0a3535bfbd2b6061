-- ===== src/Examples/Clients.antt =====
-- Clients of the REST API and a wallet for the examples of the pages.
use terra_ledger.Base.{true, ok, throws, Thrown, Option, none, Text, text, List, foreign}
use terra_ledger.Platform.{Address}
use terra_ledger.Program.{Instruction}
use terra_ledger.SignAndSend.{Reply, fulfilled}
use terra_ledger.Api.{Client}

abbrev pub silent : Thrown → Option Text
silent x = none

abbrev pub as_it_is : Text → Text
as_it_is s = s

abbrev pub serves : {J : Type 0} → J → Client J
serves j = record {
  base = text "https://api";
  key = none;
  fetch = λ request. ok (record { ok_status = true; status = 200; json = ok j });
  error_of = λ body. none;
}

abbrev pub signs : List Instruction → Address → Reply
signs instructions fee_payer = fulfilled (text "5sig")

abbrev pub unreachable : {J : Type 0} → Client J
unreachable = record {
  base = text "https://api";
  key = none;
  fetch = λ request. throws (foreign 0);
  error_of = λ body. none;
}
