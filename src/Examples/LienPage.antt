-- ===== src/Examples/LienPage.antt =====
-- A lender fills the form for the parcel KZ1.
use terra_ledger.Base.{
  ◌^◌, ◌%◌, arith, true, ◌≡◌, refl, Outcome, Option, ◌<◌, ok, some, Text, text, length,
}
use terra_ledger.Bytes.{Bytes, zeros}
use terra_ledger.Platform.Sample.{sample}
use terra_ledger.Program.{Instruction}
use terra_ledger.Program.Wire.{read_lien_call, register_encumbrance}
use terra_ledger.SignAndSend.{idle}
use terra_ledger.LienPage.{
  Parsers, RegisterForm, notary_cert_hash, register_instruction, handle_register,
}
use terra_ledger.LienPage.Handlers.{Sends, register_instruction-read, handle_register-read}
use terra_ledger.Examples.Samples.{
  kz1, kz1_pda, kz1-derived, lender, lien_pda, lien-derived, index_pda, index-derived,
}

-- Every text is the address that it spells, and an amount is written with one digit for each unit.
abbrev parsers : Parsers
parsers = record { address = λ s. ok s; big_int = λ s. ok (length s) }

abbrev form : RegisterForm
form = record { cadastral = kz1; amount = text "111"; wallet = lender; notary_hash = text "seal" }

pub kz1-short : length (sample.utf8_encode kz1) < 2 ^ 32
unfolding sample
kz1-short = omega arith

abbrev signed : Outcome Text
signed = ok (text "5sig")

abbrev stored : Option Text
stored = some (text "7")

handle_register-read_example :
    (ix : Instruction) × (cert : Bytes) × Sends ix idle signed stored
      (handle_register sample parsers form true idle signed stored)
    × (notary_cert_hash sample (text "seal") ≡ ok cert)
    × (length cert ≡ 32)
    × (read_lien_call ix.data'
        ≡ some (register_encumbrance (sample.utf8_encode kz1) (3 % 2 ^ 64) (zeros 32) cert))
handle_register-read_example =
    handle_register-read sample parsers form lender kz1_pda lien_pda index_pda 3 255 255 255 idle
      signed stored refl refl refl kz1-derived lien-derived index-derived kz1-short

pub form-built : (ix : Instruction) × (register_instruction sample parsers form ≡ ok ix)
form-built =
    let (ix, _, built, _, _, _) =
      register_instruction-read sample parsers form lender kz1_pda lien_pda index_pda 3 255 255 255
        refl refl kz1-derived lien-derived index-derived kz1-short in
    (ix, built)
