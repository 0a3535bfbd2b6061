-- ===== src/Pages/WalletSetup.antt =====
-- web/src/pages/WizardFlow/steps/WalletSetupStep.tsx: its effects and its Continue
-- button, which go on to the next step.
use terra_ledger.Base.{
  Bool, true, false, not, ◌&&◌, ◌||◌, if◌then◌else◌, Option, none, some, List, [], ◌∷◌, ◌++◌, Text,
  is_some,
}
use terra_ledger.Deeplink.{present}
use terra_ledger.Deeplink.Connect.{DeeplinkStatus, idle, waiting, connected, error}
use terra_ledger.Wizard.{WizardData, Action, update_data, go_next}

-- What the two hooks give at a render.
pub record Wallets : Type 0 where
  pub extension_connected : Bool
  pub extension_wallet : Option Text
  pub status : DeeplinkStatus
  pub deeplink_wallet : Option Text

-- the two refs, and what the step dispatched
pub record SetupStep : Type 0 where
  pub was_connected_on_mount : Bool
  pub advanced : Bool
  pub actions : List Action

unfoldable pub is_connected : DeeplinkStatus → Bool
is_connected idle = false
is_connected waiting = false
is_connected connected = true
is_connected error = false

unfoldable pub is_idle : DeeplinkStatus → Bool
is_idle idle = true
is_idle waiting = false
is_idle connected = false
is_idle error = false

-- whether the second effect calls `connectViaQR`
unfoldable pub opens_connection : (has_extension : Bool) → DeeplinkStatus → Bool
opens_connection has_extension status = not has_extension && is_idle status

-- The wallet to go on with: that of the extension where it is connected, or that of the deeplink.
unfoldable pub ready_wallet : Wallets → Option Text
ready_wallet w =
    if w.extension_connected && is_some (present w.extension_wallet)
    then present w.extension_wallet
    else (if is_connected w.status then present w.deeplink_wallet else none)

unfoldable pub mount : Wallets → SetupStep
mount w = record {
  was_connected_on_mount = w.extension_connected && is_some (present w.extension_wallet);
  advanced = false;
  actions = [];
}

abbrev pub wallet_actions : Text → List Action
wallet_actions wallet =
    update_data (λ (d : WizardData). record d { wallet_address = some wallet }) ∷ go_next ∷ []

unfoldable pub advance_with : Option Text → SetupStep → SetupStep
advance_with none s = s
advance_with (some wallet) s = record s {
  advanced = true;
  actions = s.actions ++ wallet_actions wallet;
}

-- The effect at a render.
unfoldable pub advance : Wallets → SetupStep → SetupStep
advance w s = if s.advanced || s.was_connected_on_mount then s else advance_with (ready_wallet w) s

unfoldable pub advance_all : List Wallets → SetupStep → SetupStep
advance_all [] s = s
advance_all (w ∷ renders) s = advance_all renders (advance w s)

-- The wallet that the Continue button goes on with; it is shown where there is one.
unfoldable pub continue_wallet : Wallets → Option Text
continue_wallet w =
    if w.extension_connected && is_some (present w.extension_wallet)
    then present w.extension_wallet
    else none

unfoldable pub click_with : Option Text → SetupStep → SetupStep
click_with none s = s
click_with (some wallet) s = record s { actions = s.actions ++ wallet_actions wallet }

-- A click on Continue, where it is shown.
unfoldable pub click : Wallets → SetupStep → SetupStep
click w s = click_with (continue_wallet w) s
