-- ===== src/Pages/Advances.antt =====
-- That WalletSetupStep.tsx goes on once.
use terra_ledger.Base.{Option, none, some, List, [], ◌∷◌, Text}
use terra_ledger.Wizard.{Action}
use terra_ledger.Pages.WalletSetup.{Wallets, ready_wallet, wallet_actions}

abbrev or_later : Option Text → Option Text → Option Text
or_later none later = later
or_later (some wallet) later = some wallet

-- The first wallet that is ready at one of the renders.
abbrev pub first_wallet : List Wallets → Option Text
first_wallet [] = none
first_wallet (w ∷ renders) = or_later (ready_wallet w) (first_wallet renders)

abbrev pub actions_for : Option Text → List Action
actions_for none = []
actions_for (some wallet) = wallet_actions wallet
